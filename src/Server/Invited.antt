-- ===== src/Server/Invited.antt =====
-- What the query for an open invitation finds, what `issue` signs, and how the invitations of a secret are
-- used.
use budge.Base.{
  ℕ, arith, ◌≡◌, refl, ap, subst, inl, inr, true, false, not, ◌&&◌, none, some, List, [], ◌∷◌, ltb,
  any, find, update, All, Any, In, Bool-cases, Option-cases, and-true,
}
use mathlib.Core.Option.{some-injective}
use budge.Base.Text.{Text, text_eq, text_eq_iff}
use budge.Requests.Types.{Outcome, ok, err, sql_error, invalid_csr}
use budge.Requests.Environment.{Environment}
use budge.Store.Tables.{Device, InvitationRow, Db}
use budge.Server.Authorize.{or_else, is_active_device}
use budge.Server.Authorized.{or_else-ok}
use budge.Server.Growth.{IsSpent}
use budge.Server.Enroll.{invited, Csr, X509, client_template, issue, is_open, open_invitation}

-- The certificate was signed for the device, with the P-256 key of a request signed by that key.
pub record IsIssued (env : Environment) (x : X509) (device csr cert : Text) : Type 0 where
  pub request : Csr
  pub parsed : x.parse_request csr ≡ some request
  pub signed : request.signed ≡ true
  pub p256 : request.p256 ≡ true
  pub created : x.create (client_template env x device) request.key ≡ some cert

pub issue-ok :
    (env : Environment) (x : X509) (device csr cert : Text)
    → issue env x device csr ≡ ok cert
    → IsIssued env x device csr cert
unfolding issue
issue-ok env x device csr cert h = elim (Option-cases (x.parse_request csr)) [
  | inl n ↦ let q : ◌≡◌ {A = Outcome Text} (err invalid_csr) (ok cert) = rw (issue, n) at h in cc
  | inr (r, n) ↦ elim (Bool-cases (r.signed && r.p256)) [
    | inl e ↦
        let q : or_else sql_error (x.create (client_template env x device) r.key) ≡ ok cert =
          rw (issue, n, e) at h in
        let (s, p) = and-true r.signed r.p256 e in
        record { request = r; parsed = n; signed = s; p256 = p; created = or_else-ok _ _ q }
    | inr e ↦
        let q : ◌≡◌ {A = Outcome Text} (err invalid_csr) (ok cert) = rw (issue, n, e) at h in cc
  ]
]

-- The invitation that an enrollment used.
pub record IsInvited (now : ℕ) (hash device : Text) (db : Db) : Type 0 where
  pub row : InvitationRow
  pub listed : In row db.invitations
  pub of_hash : row.hash ≡ hash
  pub for_device : row.device_id ≡ device
  pub unused : row.used ≡ false
  pub in_time : ltb now row.expires ≡ true
  pub active : is_active_device device db ≡ true

pub open-IsInvited :
    (now : ℕ) (hash device : Text) (db : Db)
    → open_invitation now hash db ≡ some device
    → IsInvited now hash device db
unfolding open_invitation is_active_device
open-IsInvited now hash device db h = go db.invitations (λ i m. m) h
  where
    go :
        (l : List InvitationRow)
        → ((i : InvitationRow) → In i l → In i db.invitations)
        → invited (find (is_open now hash db.devices) l) ≡ some device
        → IsInvited now hash device db
    go [] sub q = cc
    go (i ∷ l) sub q = elim (Bool-cases (is_open now hash db.devices i)) [
      | inl e ↦
          let d : i.device_id ≡ device = some-injective _ _ (rw e at q) in
          record {
            row = i;
            listed = sub i (inl refl);
            of_hash = (text_eq_iff i.hash hash).0 (ground (arith, e));
            for_device = d;
            unused = ground (arith, e);
            in_time = ground (arith, e);
            active =
                subst (λ x. any (λ (y : Device). text_eq y.id x && not y.revoked) db.devices ≡ true)
                  d (ground (arith, e));
          }
      | inr e ↦ go l (λ j m. sub j (inr m)) (rw e at q)
    ]

-- Once every invitation of the hash was used, none is open.
spent-none :
    (now : ℕ) (hash : Text) (db : Db)
    → IsSpent hash db.invitations
    → open_invitation now hash db ≡ none
unfolding open_invitation
spent-none now hash db (there, used) = ap invited (go db.invitations used)
  where
    go :
        (l : List InvitationRow)
        → All (λ (i : InvitationRow). i.hash ≡ hash → i.used ≡ true) l
        → find (is_open now hash db.devices) l ≡ none
    go [] u = refl
    go (i ∷ l) (f, u) = elim (Bool-cases (text_eq i.hash hash)) [
      | inl e ↦
          let spent = f ((text_eq_iff i.hash hash).0 e) in
          let shut : is_open now hash db.devices i ≡ false = ground (arith, e, spent) in
          rw shut (go l u)
      | inr e ↦
          let shut : is_open now hash db.devices i ≡ false = ground (arith, e) in rw shut (go l u)
    ]

pub marked-IsSpent :
    (hash : Text) (l : List InvitationRow)
    → Any (λ (i : InvitationRow). i.hash ≡ hash) l
    → IsSpent hash
        (update (λ (i : InvitationRow). text_eq i.hash hash) (λ i. record i { used = true }) l)
marked-IsSpent hash l t = (kept l t, used l)
  where
    kept :
        (l : List InvitationRow)
        → Any (λ (i : InvitationRow). i.hash ≡ hash) l
        → Any
            (λ (i : InvitationRow). i.hash ≡ hash)
            (update (λ (i : InvitationRow). text_eq i.hash hash) (λ i. record i { used = true }) l)
    kept [] t = t
    kept (i ∷ l) (inl e) =
        inl (elim (Bool-cases (text_eq i.hash hash)) [ inl b ↦ rw b e | inr b ↦ rw b e ])
    kept (i ∷ l) (inr t) = inr (kept l t)

    used :
        (l : List InvitationRow)
        → All
            (λ (i : InvitationRow). i.hash ≡ hash → i.used ≡ true)
            (update (λ (i : InvitationRow). text_eq i.hash hash) (λ i. record i { used = true }) l)
    used [] = tt
    used (i ∷ l) = (
      elim (Bool-cases (text_eq i.hash hash)) [
        | inl b ↦ rw b (λ _. refl)
        | inr b ↦ rw b (λ q. ground (arith, text_eq_iff i.hash hash))
      ],
      used l,
    )
