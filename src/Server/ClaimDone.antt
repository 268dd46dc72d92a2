-- ===== src/Server/ClaimDone.antt =====
-- What the transaction of `dispatch` does, by its answer: its statements one after the other.
use budge.Base.{◌≡◌, refl, sym, ap, subst, ◌∙◌, inl, inr, true, Option, none, some}
use mathlib.Core.Option.{some-injective}
use budge.Base.Text.{Text, codes}
use budge.Requests.Types.{Snapshot, Service, Code, sql_error, ok}
use budge.Requests.Environment.{Environment}
use budge.Store.Tables.{failed, cancelled, is_queued, RequestRow}
use budge.Store.Transaction.{Conn, done, fail, Tx, lift, guard, query, catch, begin}
use budge.Store.Relates.{left, IsPreorder, Relates}
use budge.Store.Inversion.{lift-done, query-done, catch-done, bind-done, guard-done, begin-done}
use budge.Server.Authorize.{or_else}
use budge.Server.Authorized.{or_else-ok}
use budge.Server.Snapshot.{request_row, open_snapshot, snapshot, valid_snapshot}
use budge.Server.Opened.{snapshot-done, IsValidFor, valid_snapshot-done}
use budge.Server.Reads.{snapshot-Relates, valid_snapshot-Relates}
use budge.Server.Dispatch.{Claim, permission_row, after_valid, after_snapshot, claim_tx}
use budge.Server.ClaimSteps.{
  IsOpened, IsReady, ClaimEffect, finish_dropped-done, check_approval-done,
}

unchanged : IsPreorder (λ _. Unit {0}) (λ a b. b ≡ a)
unchanged = record {
  reflexive = λ db k. refl;
  transitive = λ a b c p q. q ∙ p;
  keeps = λ a b p. tt;
}

caught-same {ℓ} :
    {A : Type ℓ} (m : Tx A) (c : Conn) (e : Code) {d : Conn}
    → Relates (λ _. Unit {0}) (λ a b. b ≡ a) m
    → m c ≡ fail e d
    → d.db ≡ c.db
caught-same m c e h q = subst (λ r. left r ≡ c.db) q (h.relate c tt)

after_valid-done :
    (env : Environment) (id : Text) (snap : Snapshot) (found : Option Service) (c : Conn)
    {cl : Claim} {d : Conn}
    → IsOpened env id snap c.db
    → ((svc : Service) → found ≡ some svc → IsValidFor env snap svc c.db)
    → after_valid env id snap found c ≡ done cl d
    → ClaimEffect env id cl c.db d.db
after_valid-done env id snap none c o v h =
    finish_dropped-done env id cancelled (codes "authorization_changed_or_expired") c (inr refl) h
after_valid-done env id snap (some svc) c {cl} {d} o v h =
    let (found, c1, e1, h1) =
      bind-done (query sql_error (permission_row snap.permission_id)) _ c h in
    let (f, s1) = query-done sql_error (permission_row snap.permission_id) c e1 in
    let (q, c2, e2, h2) = bind-done (lift (or_else sql_error found)) _ c1 h1 in
    let (l, s2) = lift-done (or_else sql_error found) c1 e2 in
    let same : c2.db ≡ c.db = ap (λ (x : Conn). x.db) s2 ∙ s1 in
    subst (λ db. ClaimEffect env id cl db d.db) same
      (check_approval-done env id snap svc q c2
        (subst (IsReady env id snap svc) (sym same) (o, v svc refl))
        (ap (permission_row snap.permission_id) same ∙ sym f ∙ or_else-ok sql_error found l) q.mode
        refl h2)

valid_cases :
    (env : Environment) (snap : Snapshot) (c : Conn) {found : Option Service} {d : Conn}
    → catch (valid_snapshot env snap) c ≡ done found d
    → ((svc : Service) → found ≡ some svc → IsValidFor env snap svc c.db) × (d.db ≡ c.db)
valid_cases env snap c h = elim (catch-done (valid_snapshot env snap) c h) [
  | inl (svc, e, q) ↦
      let (v, same) = valid_snapshot-done env snap c q in
      (λ svc' e'. subst (λ x. IsValidFor env snap x c.db) (some-injective _ _ (sym e ∙ e')) v, same)
  | inr (x, e, q) ↦ (
    λ svc' e'. cc,
    caught-same (valid_snapshot env snap) c x (valid_snapshot-Relates unchanged env snap) q,
  )
]

snapshot_cases :
    (env : Environment) (id : Text) (c : Conn) {found : Option Snapshot} {d : Conn}
    → catch (snapshot env id) c ≡ done found d
    → ((snap : Snapshot)
        → found ≡ some snap
        → (row : RequestRow) × (request_row id c.db ≡ some row) × (open_snapshot env row ≡ ok snap))
      × (d.db ≡ c.db)
snapshot_cases env id c h = elim (catch-done (snapshot env id) c h) [
  | inl (snap, e, q) ↦
      let (o, same) = snapshot-done env id c q in
      (
        λ snap' e'.
            subst
              (λ x.
                (row : RequestRow) × (request_row id c.db ≡ some row)
                × (open_snapshot env row ≡ ok x))
              (some-injective _ _ (sym e ∙ e')) o,
        same,
      )
  | inr (x, e, q) ↦
      (λ snap' e'. cc, caught-same (snapshot env id) c x (snapshot-Relates unchanged env id) q)
]

after_snapshot-done :
    (env : Environment) (id : Text) (found : Option Snapshot) (c : Conn) {cl : Claim} {d : Conn}
    → ((snap : Snapshot) → found ≡ some snap → IsOpened env id snap c.db)
    → after_snapshot env id found c ≡ done cl d
    → ClaimEffect env id cl c.db d.db
after_snapshot-done env id none c o h =
    finish_dropped-done env id failed (codes "snapshot_integrity_failed") c (inl refl) h
after_snapshot-done env id (some snap) c {cl} {d} o h =
    let (found, c1, e1, h1) = bind-done (catch (valid_snapshot env snap)) _ c h in
    let (v, same) = valid_cases env snap c e1 in
    subst (λ db. ClaimEffect env id cl db d.db) same
      (after_valid-done env id snap found c1 (subst (IsOpened env id snap) (sym same) (o snap refl))
        (λ svc e. subst (IsValidFor env snap svc) (sym same) (v svc e)) h1)

-- A claim that comes through found the row of the identifier queued.
pub claim_tx-done :
    (env : Environment) (id : Text) (c : Conn) {cl : Claim} {d : Conn}
    → claim_tx env id c ≡ done cl d
    → ((row : RequestRow) × (request_row id c.db ≡ some row) × (is_queued row.status ≡ true))
      × ClaimEffect env id cl c.db d.db
unfolding claim_tx
claim_tx-done env id c {cl} {d} h =
    let (u, c0, e0, h0) = bind-done (begin sql_error) _ c h in
    let s0 : c0.db ≡ c.db = begin-done sql_error c e0 in
    let (found, c1, e1, h1) = bind-done (query sql_error (request_row id)) _ c0 h0 in
    let (f, s1) = query-done sql_error (request_row id) c0 e1 in
    let (row, c2, e2, h2) = bind-done (lift (or_else sql_error found)) _ c1 h1 in
    let (l, s2) = lift-done (or_else sql_error found) c1 e2 in
    let (u3, c3, e3, h3) = bind-done (guard (is_queued row.status) sql_error) _ c2 h2 in
    let (g, s3) = guard-done (is_queued row.status) sql_error c2 e3 in
    let (opened, c4, e4, h4) = bind-done (catch (snapshot env id)) _ c3 h3 in
    let (o, s4) = snapshot_cases env id c3 e4 in
    go row c3 c4 opened (ap (λ (x : Conn). x.db) (s3 ∙ s2) ∙ s1 ∙ s0)
      (ap (request_row id) (sym s0) ∙ sym f ∙ or_else-ok sql_error found l) g s4 o h4
  where
    go :
        (row : RequestRow) (c3 c4 : Conn) (opened : Option Snapshot)
        → c3.db ≡ c.db
        → request_row id c.db ≡ some row
        → is_queued row.status ≡ true
        → c4.db ≡ c3.db
        → ((snap : Snapshot)
            → opened ≡ some snap
            → (row : RequestRow) × (request_row id c3.db ≡ some row)
              × (open_snapshot env row ≡ ok snap))
        → after_snapshot env id opened c4 ≡ done cl d
        → ((row : RequestRow) × (request_row id c.db ≡ some row) × (is_queued row.status ≡ true))
          × ClaimEffect env id cl c.db d.db
    go row c3 c4 opened s3 f g s4 o h4 = (
      (row, f, g),
      subst (λ db. ClaimEffect env id cl db d.db) (s4 ∙ s3)
          (after_snapshot-done env id opened c4
            (λ snap e.
              let (r, fr, openr) = o snap e in
              let at : request_row id c4.db ≡ some r = ap (request_row id) s4 ∙ fr in
              let one : row ≡ r = some-injective _ _ (sym f ∙ ap (request_row id) (sym s3) ∙ fr) in
              record {
                row = r;
                found = at;
                queued = subst (λ (x : RequestRow). is_queued x.status ≡ true) one g;
                opened = openr;
              })
            h4),
    )
