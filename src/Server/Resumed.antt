-- ===== src/Server/Resumed.antt =====
-- A submission whose key the device used before.
use budge.Base.{
  arith, ℕ, ◌≡◌, refl, sym, ap, subst, ◌∙◌, ◌⊎◌, inl, inr, Bool, true, some, List, [], ◌∷◌, ◌++◌,
  Bool-cases, find,
}
use budge.Base.Text.{Text, codes, text_eq, text_eq_iff}
use budge.Requests.Types.{Submission, idempotency_conflict, Outcome, ok, err}
use budge.Requests.Environment.{Environment, digest, submission_digest}
use budge.Requests.Normalize.{normalize}
use budge.Store.Tables.{RequestRow, Db}
use budge.Store.Transaction.{try_query, query, exec, begin, transact}
use budge.Server.Authorize.{is_active_device, active_device}
use budge.Server.Submitted.{
  insert_request-requests, find_snoc, IsResumed, IsCreated, submit_tx-done,
}
use budge.Server.Submit.{has_key, request_by_key, new_snapshot, new_request, submit_tx}

-- Two submissions with the same content, as the JSON without the keys.
abbrev pub SameContent : Environment → Submission → Submission → Type 0
SameContent env s t =
    env.marshal_submission (record s { idempotency_key = [] })
    ≡ env.marshal_submission (record t { idempotency_key = [] })

-- Two texts with one hash.
abbrev pub Collides : Environment → Type 0
Collides env = (a : Text) × (b : Text) × (¬ (a ≡ b)) × (env.hash a ≡ env.hash b)

-- The same server, later: the clock, the identifiers and the nonces are others.
abbrev pub at_time : Environment → ℕ → Text → Text → Environment
at_time env now new_id nonce = record env { now = now; new_id = new_id; nonce = nonce }

-- The row of a submission that has come through stands under its key.
module _ (env : Environment) (device : Text) (s : Submission) (id : Text) (db db' : Db) where
  abbrev Stands : Type 0
  Stands =
      (row : RequestRow) × (request_by_key device (env.hash s.idempotency_key) db' ≡ some row)
      × (row.id ≡ id)
      × (row.submission_digest ≡ submission_digest env s)

  resumed-stands : IsResumed env device s id db db' → Stands
  resumed-stands r = (
    r.row,
    ap (request_by_key device (env.hash s.idempotency_key)) r.left ∙ r.found,
    sym r.answered,
    sym r.same_digest,
  )

  created-stands : IsCreated env device s id db db' → Stands
  unfolding request_by_key new_request
  created-stands k =
      let row : RequestRow =
        new_request env device s k.svc k.granted
          (new_snapshot env device s k.svc k.granted k.headers k.url) in
      let rows : db'.requests ≡ db.requests ++ (row ∷ []) =
        ap (λ (x : Db). x.requests) k.left ∙ insert_request-requests row db k.inserted k.inserts in
      let here : has_key device (env.hash s.idempotency_key) row ≡ true = ground (
        arith,
        text_eq_iff device device,
        text_eq_iff (env.hash s.idempotency_key) (env.hash s.idempotency_key),
      ) in
      (
        row,
        ap (find (has_key device (env.hash s.idempotency_key))) rows
            ∙ find_snoc (has_key device (env.hash s.idempotency_key)) db.requests row k.fresh here,
        sym k.answered,
        refl,
      )

-- Digests that agree are of the same content, unless the hash collides.
same_digest-SameContent :
    (env : Environment) (s t : Submission)
    → submission_digest env s ≡ submission_digest env t
    → SameContent env s t ⊎ Collides env
unfolding submission_digest digest
same_digest-SameContent env s t h = elim (Bool-cases (text_eq a b)) [
  | inl e ↦ inl ((text_eq_iff a b).0 e)
  | inr e ↦ inr (
    a,
    b,
    λ q. let yes : text_eq a b ≡ true = (text_eq_iff a b).1 q in cc,
    drop_prefix (codes "sha256-v1:") h,
  )
]
  where
    a : Text
    a = env.marshal_submission (record s { idempotency_key = [] })

    b : Text
    b = env.marshal_submission (record t { idempotency_key = [] })

    drop_prefix : (l : Text) {x y : Text} → l ++ x ≡ l ++ y → x ≡ y
    drop_prefix [] e = e
    drop_prefix (c ∷ l) e = drop_prefix l (ground (arith, e))

-- The answer to a submission with the key of a row.
answered :
    (env : Environment) (device : Text) (given t : Submission) (row : RequestRow) (db : Db)
    → normalize env given ≡ ok t
    → is_active_device device db ≡ true
    → request_by_key device (env.hash t.idempotency_key) db ≡ some row
    → ((submission_digest env t ≡ row.submission_digest)
        × (transact (submit_tx env device given) [] db ≡ (ok row.id, db)))
      ⊎ ((¬ (submission_digest env t ≡ row.submission_digest))
          × (transact (submit_tx env device given) [] db ≡ (err idempotency_conflict, db)))
unfolding submit_tx active_device begin exec query try_query transact
answered env device given t row db normal active found =
    elim (Bool-cases (text_eq (submission_digest env t) row.submission_digest)) [
      | inl e ↦ inl (
        (text_eq_iff (submission_digest env t) row.submission_digest).0 e,
        rw (normal, active, found, e) refl,
      )
      | inr e ↦ inr (
        λ q.
            let yes : text_eq (submission_digest env t) row.submission_digest ≡ true =
              (text_eq_iff (submission_digest env t) row.submission_digest).1 q in
            cc,
        rw (normal, active, found, e) refl,
      )
    ]

-- After a `Submit` that came through, a later one of the device with the same key, where no
-- statement fails, changes nothing: it is answered with the identifier of the first, and then the
-- two have the same content or the hash has a collision; or with a conflict, and then their
-- contents differ.
pub submit_tx-again :
    (env : Environment) (now : ℕ) (new_id nonce device : Text) (given given' s t : Submission)
    (faults : List Bool) (db db' : Db) (id : Text)
    → transact (submit_tx env device given) faults db ≡ (ok id, db')
    → normalize env given ≡ ok s
    → normalize (at_time env now new_id nonce) given' ≡ ok t
    → t.idempotency_key ≡ s.idempotency_key
    → is_active_device device db' ≡ true
    → ((transact (submit_tx (at_time env now new_id nonce) device given') [] db' ≡ (ok id, db'))
        × (SameContent env t s ⊎ Collides env))
      ⊎ ((transact (submit_tx (at_time env now new_id nonce) device given') [] db'
            ≡ (err idempotency_conflict, db'))
          × (¬ SameContent env t s))
unfolding submission_digest
submit_tx-again env now new_id nonce device given given' s t faults db db' id first normal normal'
      key active =
    let (s', q, how) = submit_tx-done env device given faults db db' id first in
    let one : s' ≡ s = ok_inj (sym q ∙ normal) in
    let (row, found, same_id, same_digest) =
      subst (λ x. Stands env device x id db db') one
        (elim how [
          | inl r ↦ resumed-stands env device s' id db db' r
          | inr k ↦ created-stands env device s' id db db' k
        ]) in
    let at : request_by_key device (env.hash t.idempotency_key) db' ≡ some row =
      ap (λ k. request_by_key device (env.hash k) db') key ∙ found in
    elim (answered (at_time env now new_id nonce) device given' t row db' normal' active at) [
      | inl (d, e) ↦
          inl (e ∙ ap (λ x. (ok x, db')) same_id, same_digest-SameContent env t s (d ∙ same_digest))
      | inr (d, e) ↦ inr (e, λ same. d (ap (λ b. digest env b) same ∙ sym same_digest))
    ]
  where
    ok_inj : {x y : Submission} → ◌≡◌ {A = Outcome Submission} (ok x) (ok y) → x ≡ y
    ok_inj e = ground arith
