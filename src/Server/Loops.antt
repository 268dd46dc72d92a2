-- ===== src/Server/Loops.antt =====
-- The loops over request identifiers of `maintenance`, `recoverDispatches` and `cancelRequests`
-- together with the tables before: exactly the rows that the query found have ended.
use budge.Base.{◌≡◌, sym, subst, Bool, true, false, All, In, All-of_In, All-In, In-select}
use budge.Store.Tables.{Status, RequestRow, Db}
use budge.Server.Maintenance.{request_ids}
use budge.Server.Lifecycle.{
  Pointwise, Pointwise-map, Distinct, ids_of, In-ids_of, Distinct-In, In-select_ids, Pointwise-All,
}
use budge.Server.Framed.{Ended, IsSwept, InLoop}

-- Exactly the rows with `p` have ended; each other row is as it was.
abbrev pub Swept : (RequestRow → Bool) → Status → Db → Db → Type 0
Swept p target db0 db =
    Pointwise (λ (r r' : RequestRow). (p r ≡ true → r'.status ≡ target) × (p r ≡ false → r' ≡ r))
      db0.requests db.requests

module _ {S : Status → Status → Type 0} {from : Status → Bool} {target : Status}
    {edge : (s : Status) → from s ≡ true → S s target} {db0 : Db} where
  pub InLoop-Swept :
      (p : RequestRow → Bool) (db : Db)
      → Distinct (ids_of db0.requests)
      → InLoop S from target edge db0 (request_ids p db0) db
      → All (λ id. Ended target id db) (request_ids p db0)
      → Swept p target db0 db
  unfolding request_ids
  InLoop-Swept p db d inv done = Pointwise-map sweep db0.requests db.requests (
      Pointwise-All _ (λ r. In r db0.requests) (λ r. In r db.requests) db0.requests db.requests
        (All-of_In _ db0.requests (λ r m. m)) (All-of_In _ db.requests (λ r m. m)) inv.moved)
    where
      ended :
          (r r' : RequestRow)
          → In r db0.requests
          → In r' db.requests
          → r'.id ≡ r.id
          → p r ≡ true
          → r'.status ≡ target
      ended r r' m m' same e =
          All-In _ db.requests
            (All-In _ _ done (In-ids_of _ r ((In-select p db0.requests r).1 (m, e)))) m' same

      absent : (r : RequestRow) → In r db0.requests → p r ≡ false → ¬ In r.id (request_ids p db0)
      absent r m e there =
          let (q, mq, pq, same) = In-select_ids p db0.requests r.id there in
          let eq : r ≡ q = Distinct-In db0.requests r q d m mq same in
          let t : p r ≡ true = subst (λ x. p x ≡ true) (sym eq) pq in cc

      sweep :
          (r r' : RequestRow)
          → (In r db0.requests
              × In r' db.requests
              × IsSwept S from target edge db0 (request_ids p db0) r r')
          → (p r ≡ true → r'.status ≡ target) × (p r ≡ false → r' ≡ r)
      sweep r r' (m, m', w) = (ended r r' m m' w.moved.id, λ e. w.kept (absent r m e))
