-- ===== src/Server/QuietAccess.antt =====
-- Invitations, enrollment, renewal and the owner's sessions leave a dispatch alone.
use budge.Base.{
  arith, ◌≡◌, refl, sym, subst, ◌∙◌, inl, inr, true, false, none, some, List, [], ◌∷◌, ◌++◌, any,
  All, Any, update, Bool-cases,
}
use budge.Base.Text.{Text, text_eq, text_eq_iff}
use budge.Requests.Environment.{Environment}
use budge.Store.Tables.{InvitationRow, Session, Db}
use budge.Store.Relates.{exec-Relates}
use budge.Server.Lifecycle.{Quiet}
use budge.Server.Growth.{IsGrown, HasKeys, growth, IsSpent, IsGrown-same, IsSpent-same}
use budge.Server.QuietRows.{IsQuiet}
use budge.Server.Quiet.{writing}
use budge.Server.Reads.{active_device-Relates}
use budge.Server.Enroll.{
  X509, Template, insert_device, insert_invitation, mark_used, set_certificate, record_certificate,
  invitation_tx, enroll_tx, renew_tx,
}
use budge.Server.Session.{Passwords, insert_session, login_tx, drop_session, logout_tx}

insert_device-IsGrown :
    (id label : Text) (db db' : Db)
    → HasKeys db
    → insert_device id label db ≡ some db'
    → IsGrown Quiet db db'
unfolding insert_device
insert_device-IsGrown id label db db' k e =
    IsGrown-same Quiet db db' k (ground arith) (IsSpent-same db db' (ground arith))

-- The primary key keeps a second invitation with the hash out.
inserted-IsSpent :
    (row : InvitationRow) (h : Text) (db db' : Db)
    → IsSpent h db.invitations
    → insert_invitation row db ≡ some db'
    → IsSpent h db'.invitations
unfolding insert_invitation
inserted-IsSpent row h db db' (there, used) e =
    elim (Bool-cases (any (λ (i : InvitationRow). text_eq i.hash row.hash) db.invitations)) [
      | inl old ↦ let q : none ≡ some db' = rw (old, insert_invitation) at e in cc
      | inr new ↦
          let rows : db'.invitations ≡ db.invitations ++ (row ∷ []) = ground arith in
          subst (IsSpent h) (sym rows) (appended db.invitations new there used)
    ]
  where
    Any-append :
        (l : List InvitationRow)
        → Any (λ (i : InvitationRow). i.hash ≡ h) l
        → Any (λ (i : InvitationRow). i.hash ≡ h) (l ++ (row ∷ []))
    Any-append [] t = elim t [ ]
    Any-append (i ∷ l) (inl e) = inl e
    Any-append (i ∷ l) (inr t) = inr (Any-append l t)

    -- A row of the hash would conflict.
    other :
        (l : List InvitationRow)
        → any (λ (i : InvitationRow). text_eq i.hash row.hash) l ≡ false
        → Any (λ (i : InvitationRow). i.hash ≡ h) l
        → ¬ (row.hash ≡ h)
    other [] n t q = t
    other (i ∷ l) n (inl e) q =
        let b = (text_eq_iff i.hash row.hash).1 (e ∙ sym q) in ground (arith, n, b)
    other (i ∷ l) n (inr t) q = other l (ground (arith, n)) t q

    last :
        (l : List InvitationRow)
        → ¬ (row.hash ≡ h)
        → All (λ (i : InvitationRow). i.hash ≡ h → i.used ≡ true) l
        → All (λ (i : InvitationRow). i.hash ≡ h → i.used ≡ true) (l ++ (row ∷ []))
    last [] ne u = ((λ q. absurd (ne q)), tt)
    last (i ∷ l) ne (f, u) = (f, last l ne u)

    appended :
        (l : List InvitationRow)
        → any (λ (i : InvitationRow). text_eq i.hash row.hash) l ≡ false
        → Any (λ (i : InvitationRow). i.hash ≡ h) l
        → All (λ (i : InvitationRow). i.hash ≡ h → i.used ≡ true) l
        → IsSpent h (l ++ (row ∷ []))
    appended l n t u = (Any-append l t, last l (other l n t) u)

-- Marking an invitation as used.
used-IsSpent :
    (hash h : Text) (l : List InvitationRow)
    → IsSpent h l
    → IsSpent h
        (update (λ (i : InvitationRow). text_eq i.hash hash) (λ i. record i { used = true }) l)
used-IsSpent hash h l (t, u) = (kept l t, used l u)
  where
    kept :
        (l : List InvitationRow)
        → Any (λ (i : InvitationRow). i.hash ≡ h) l
        → Any
            (λ (i : InvitationRow). i.hash ≡ h)
            (update (λ (i : InvitationRow). text_eq i.hash hash) (λ i. record i { used = true }) l)
    kept [] t = t
    kept (i ∷ l) (inl e) =
        inl (elim (Bool-cases (text_eq i.hash hash)) [ inl b ↦ rw b e | inr b ↦ rw b e ])
    kept (i ∷ l) (inr t) = inr (kept l t)

    used :
        (l : List InvitationRow)
        → All (λ (i : InvitationRow). i.hash ≡ h → i.used ≡ true) l
        → All
            (λ (i : InvitationRow). i.hash ≡ h → i.used ≡ true)
            (update (λ (i : InvitationRow). text_eq i.hash hash) (λ i. record i { used = true }) l)
    used [] u = tt
    used (i ∷ l) (f, u) = (
      elim (Bool-cases (text_eq i.hash hash)) [ inl b ↦ rw b (λ _. refl) | inr b ↦ rw b f ],
      used l u,
    )

insert_invitation-IsGrown :
    (row : InvitationRow) (db db' : Db)
    → HasKeys db
    → insert_invitation row db ≡ some db'
    → IsGrown Quiet db db'
unfolding insert_invitation
insert_invitation-IsGrown row db db' k e =
    IsGrown-same Quiet db db' k (ground arith) (λ h q. inserted-IsSpent row h db db' q e)

insert_session-IsGrown :
    (s : Session) (db db' : Db) → HasKeys db → insert_session s db ≡ some db' → IsGrown Quiet db db'
unfolding insert_session
insert_session-IsGrown s db db' k e =
    IsGrown-same Quiet db db' k (ground arith) (IsSpent-same db db' (ground arith))

mark_used-IsGrown : (hash : Text) (db : Db) → HasKeys db → IsGrown Quiet db (mark_used hash db)
unfolding mark_used
mark_used-IsGrown hash db k =
    IsGrown-same Quiet db _ k refl (λ h q. used-IsSpent hash h db.invitations q)

set_certificate-IsGrown :
    (c : Template) (id : Text) (db : Db) → HasKeys db → IsGrown Quiet db (set_certificate c id db)
unfolding set_certificate
set_certificate-IsGrown c id db k = IsGrown-same Quiet db _ k refl (λ h q. q)

drop_session-IsGrown :
    (hash : Text) (db : Db) → HasKeys db → IsGrown Quiet db (drop_session hash db)
unfolding drop_session
drop_session-IsGrown hash db k = IsGrown-same Quiet db _ k refl (λ h q. q)

pub invitation_tx-IsQuiet :
    (env : Environment) (secret owner label : Text) → IsQuiet (invitation_tx env secret owner label)
unfolding invitation_tx
invitation_tx-IsQuiet env secret owner label =
    search (writing, insert_device-IsGrown, insert_invitation-IsGrown) depth 12

record_certificate-IsQuiet : (x : X509) (id cert : Text) → IsQuiet (record_certificate x id cert)
unfolding record_certificate
record_certificate-IsQuiet x id cert = search (writing, set_certificate-IsGrown) depth 8

pub enroll_tx-IsQuiet :
    (env : Environment) (x : X509) (secret csr : Text) → IsQuiet (enroll_tx env x secret csr)
unfolding enroll_tx
enroll_tx-IsQuiet env x secret csr =
    search (writing, mark_used-IsGrown, record_certificate-IsQuiet) depth 14

pub renew_tx-IsQuiet :
    (env : Environment) (x : X509) (device csr : Text) → IsQuiet (renew_tx env x device csr)
unfolding renew_tx
renew_tx-IsQuiet env x device csr =
    search (writing, active_device-Relates, record_certificate-IsQuiet) depth 14

pub login_tx-IsQuiet :
    (env : Environment) (w : Passwords) (token csrf password : Text)
    → IsQuiet (login_tx env w token csrf password)
unfolding login_tx
login_tx-IsQuiet env w token csrf password = search (writing, insert_session-IsGrown) depth 10

pub logout_tx-IsQuiet : (env : Environment) (token : Text) → IsQuiet (logout_tx env token)
unfolding logout_tx
logout_tx-IsQuiet env token =
    exec-Relates (growth Quiet) _ _ (drop_session-IsGrown (env.hash token))
