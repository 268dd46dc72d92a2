-- ===== src/Server/Enrolled.antt =====
-- What an enrollment grants, and that an invitation enrolls once.
use budge.Base.{
  All-In, ◌≡◌, refl, sym, ap, subst, ◌∙◌, inl, inr, Bool, true, some, List, [], ◌∷◌, All, Any, In,
}
use budge.Base.Text.{Text, codes}
use budge.Requests.Types.{http, Outcome, ok}
use budge.Requests.Environment.{Environment}
use budge.Store.Tables.{InvitationRow, Db}
use budge.Store.Transaction.{
  Conn, done, lift, query, exec, or_throw, audit, begin, commit, transact,
}
use budge.Store.Inversion.{
  done_inj, lift-done, query-done, or_throw-done, bind-done, exec-done, audit-done, begin-done,
  commit-done, transact-ok,
}
use budge.Server.Authorize.{or_else}
use budge.Server.Authorized.{or_else-ok}
use budge.Server.Growth.{HasKeys, IsSpent}
use budge.Server.Handler.{unavailable}
use budge.Server.Enroll.{
  X509, issue, open_invitation, mark_used, set_certificate, record_certificate, enroll_tx,
}
use budge.Server.System.{System, enroll, run, Reach, operate}
use budge.Server.Once.{started, started-IsSound, Reach-IsSound, Step-IsSound}
use budge.Server.Automaton.{Steps-IsGrown}
use budge.Server.Invited.{IsIssued, issue-ok, IsInvited, open-IsInvited, marked-IsSpent}

pub record IsEnrolled (env : Environment) (x : X509) (secret csr device cert : Text) (db db' : Db)
    : Type 0 where
  pub invitation : IsInvited env.now (env.hash secret) device db
  pub issued : IsIssued env x device csr cert
  pub spent : IsSpent (env.hash secret) db'.invitations

record_certificate-done :
    (x : X509) (id cert : Text) (c d : Conn) {u : Unit {0}}
    → record_certificate x id cert c ≡ done u d
    → d.db.invitations ≡ c.db.invitations
unfolding record_certificate set_certificate
record_certificate-done x id cert c d h =
    let (parsed, c1, e1, h1) =
      bind-done (lift (or_else (http 500 (codes "certificate_failed")) (x.parse_certificate cert)))
        _ c h in
    let (o, same) = lift-done (or_else _ (x.parse_certificate cert)) c e1 in
    ap (λ (y : Db). y.invitations) (exec-done unavailable (set_certificate parsed id) c1 h1)
    ∙ ap (λ (y : Conn). y.db.invitations) same

listed-Any :
    (i : InvitationRow) (hash : Text) (l : List InvitationRow)
    → In i l
    → i.hash ≡ hash
    → Any (λ (j : InvitationRow). j.hash ≡ hash) l
listed-Any i hash [] m e = m
listed-Any i hash (j ∷ l) (inl q) e = inl (ap (λ (y : InvitationRow). y.hash) (sym q) ∙ e)
listed-Any i hash (j ∷ l) (inr m) e = inr (listed-Any i hash l m e)

-- When `enroll` comes through, an invitation for the device stood under the hash of the secret,
-- unused and in time, and the device was active. The certificate is signed for that device, with
-- the P-256 key of a request that the key has signed; the invitation is used afterwards.
pub enroll_tx-IsEnrolled :
    (env : Environment) (x : X509) (secret csr device cert : Text) (faults : List Bool)
    (db db' : Db)
    → transact (enroll_tx env x secret csr) faults db ≡ (ok (device, cert), db')
    → IsEnrolled env x secret csr device cert db db'
unfolding enroll_tx mark_used
enroll_tx-IsEnrolled env x secret csr device cert faults db db' h =
    let (d, came, same) = transact-ok (enroll_tx env x secret csr) faults db h in
    let (u0, c0, e0, h0) = bind-done (begin unavailable) _ _ came in
    let (found, c1, e1, h1) =
      bind-done
        (query (http 403 (codes "invitation_invalid")) (open_invitation env.now (env.hash secret)))
        _ c0 h0 in
    let (id, c2, e2, h2) = bind-done (lift (or_else _ found)) _ c1 h1 in
    let (pem, c3, e3, h3) =
      bind-done (or_throw (http 400 (codes "invalid_csr")) (lift (issue env x id csr))) _ c2 h2 in
    let (u4, c4, e4, h4) = bind-done (exec unavailable (mark_used (env.hash secret))) _ c3 h3 in
    let (u5, c5, e5, h5) = bind-done (record_certificate x id pem) _ c4 h4 in
    let (u6, c6, e6, h6) = bind-done (audit unavailable _) _ c5 h5 in
    let (u7, c7, e7, h7) = bind-done (commit unavailable) _ c6 h6 in
    let (value, conn) = done_inj h7 in
    let s0 : c0.db ≡ db = begin-done unavailable _ e0 in
    let (f1, s1) = query-done _ (open_invitation env.now (env.hash secret)) c0 e1 in
    let (o2, s2) = lift-done (or_else _ found) c1 e2 in
    let (o3, s3) = lift-done (issue env x id csr) c2 (or_throw-done _ _ c2 e3) in
    let is_id : id ≡ device = ap (λ (p : Text × Text). p.0) value in
    let is_pem : pem ≡ cert = ap (λ (p : Text × Text). p.1) value in
    let invited : IsInvited env.now (env.hash secret) device db =
      open-IsInvited env.now (env.hash secret) device db (
        subst (λ a. open_invitation env.now (env.hash secret) a ≡ some device) s0
          (sym f1 ∙ or_else-ok _ found o2 ∙ ap some is_id)) in
    let before : c3.db ≡ db = ap (λ (y : Conn). y.db) s3 ∙ ap (λ (y : Conn). y.db) s2 ∙ s1 ∙ s0 in
    let rows : db'.invitations ≡ (mark_used (env.hash secret) db).invitations =
      ap (λ (y : Db). y.invitations)
        (sym same
          ∙ ap (λ (y : Conn). y.db) (sym conn)
          ∙ commit-done unavailable c6 e7
          ∙ audit-done unavailable _ c5 e6)
      ∙ record_certificate-done x id pem c4 c5 e5
      ∙ ap (λ (y : Db). y.invitations)
          (exec-done unavailable (mark_used (env.hash secret)) c3 e4
            ∙ ap (mark_used (env.hash secret)) before) in
    record {
      invitation = invited;
      issued =
          subst (λ p. IsIssued env x device csr p) is_pem
            (subst (λ i. IsIssued env x i csr pem) is_id (issue-ok env x id csr pem o3));
      spent = subst (IsSpent (env.hash secret)) (sym rows) (
          marked-IsSpent (env.hash secret) db.invitations (
            listed-Any invited.row (env.hash secret) db.invitations invited.listed
              invited.of_hash));
    }

-- A spent invitation enrolls nobody.
spent-refused :
    (env : Environment) (x : X509) (secret csr : Text) (faults : List Bool) (db : Db)
    (a : Text × Text)
    → IsSpent (env.hash secret) db.invitations
    → ¬ ((transact (enroll_tx env x secret csr) faults db).0 ≡ ok a)
spent-refused env x secret csr faults db (device, cert) q h =
    go (transact (enroll_tx env x secret csr) faults db) refl h
  where
    go :
        (r : Outcome (Text × Text) × Db)
        → transact (enroll_tx env x secret csr) faults db ≡ r
        → ¬ (r.0 ≡ ok (device, cert))
    go (o, db') e k =
        let i =
          (enroll_tx-IsEnrolled env x secret csr device cert faults db db'
            (e ∙ ap (λ y. (y, db')) k)).invitation in
        clash i
      where
        clash : IsInvited env.now (env.hash secret) device db → ⊥
        clash i =
            let u = used_of i.row db.invitations i.listed q.1 i.of_hash in let v = i.unused in cc
          where
            used_of :
                (j : InvitationRow) (l : List InvitationRow)
                → In j l
                → All (λ (y : InvitationRow). y.hash ≡ env.hash secret → y.used ≡ true) l
                → j.hash ≡ env.hash secret
                → j.used ≡ true
            used_of j l m u e = All-In (λ y. y.hash ≡ env.hash secret → y.used ≡ true) l u m e

-- On a server that started on a database whose requests have distinct identifiers: after an
-- enrollment with a secret, and any steps from there, storage errors, new invitations and restarts
-- among them, no enrollment with a secret of the same hash comes through.
pub enroll_once :
    (db : Db) (s t : System) (env env' : Environment) (x x' : X509) (secret secret' csr csr' : Text)
    (faults faults' : List Bool) (a b : Text × Text)
    → HasKeys db
    → Reach (started db) s
    → (transact (enroll_tx env x secret csr) faults s.db).0 ≡ ok a
    → Reach (record s { db = run (enroll env x secret csr) faults s.db }) t
    → env'.hash secret' ≡ env.hash secret
    → ¬ ((transact (enroll_tx env' x' secret' csr') faults' t.db).0 ≡ ok b)
unfolding run
enroll_once db s t env env' x x' secret secret' csr csr' faults faults' (device, cert) b k before
      first after same =
    let sound = Reach-IsSound (started db) s before (started-IsSound db k) in
    let grown =
      Steps-IsGrown _ t after (Step-IsSound s _ (operate (enroll env x secret csr) faults) sound) in
    let enrolled =
      enroll_tx-IsEnrolled env x secret csr device cert faults s.db
        (transact (enroll_tx env x secret csr) faults s.db).1
        (ap (λ o. (o, (transact (enroll_tx env x secret csr) faults s.db).1)) first) in
    spent-refused env' x' secret' csr' faults' t.db b (
      subst (λ y. IsSpent y t.db.invitations) (sym same)
        (grown.spent (env.hash secret) enrolled.spent))
