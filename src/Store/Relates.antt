-- ===== src/Store/Relates.antt =====
-- Rules for transactions by a relation between the tables before and after, on failures too: every
-- statement keeps it, whatever statements the driver fails.
use budge.Base.{
  ◌≡◌, refl, Bool, true, false, Option, none, some, List, [], ◌∷◌, ◌++◌, All, All-of_every,
}
use budge.Requests.Types.{Code, Outcome, ok, err}
use budge.Store.Tables.{Db, Event}
use budge.Store.Transaction.{
  Conn, Reply, done, fail, Tx, bind_reply, ◌>>=◌, return, throw, lift, guard, try_query, query,
  exec, exec_checked, try_exec, or_throw, catch, audit, begin, commit, for_each, faults_from,
  required, written, checked, attempted, replaced, caught, settle, transact,
}

abbrev pub left {ℓ} : {A : Type ℓ} → Reply A → Db
left (done a c) = c.db
left (fail e c) = c.db

-- A reflexive and transitive relation on the tables that satisfy `K`, which it keeps.
pub record IsPreorder (K : Db → Type 0) (R : Db → Db → Type 0) : Type 0 where
  pub reflexive : (db : Db) → K db → R db db
  pub transitive : (a b c : Db) → R a b → R b c → R a c
  pub keeps : (a b : Db) → R a b → K b

-- `m` relates the tables that it is given to those that it leaves.
pub record Relates {ℓ} (K : Db → Type 0) (R : Db → Db → Type 0) {A : Type ℓ} (m : Tx A)
    : Type 0 where
  pub relate : (c : Conn) → K c.db → R c.db (left (m c))

module _ {K : Db → Type 0} {R : Db → Db → Type 0} (o : IsPreorder K R) where
  module _ {ℓ κ} {A : Type ℓ} {B : Type κ} where
    bind_reply-relates :
        (db : Db) (f : A → Tx B) (r : Reply A)
        → R db (left r)
        → ((a : A) → Relates K R (f a))
        → R db (left (bind_reply f r))
    bind_reply-relates db f (done a c) h k =
        o.transitive db c.db _ h ((k a).relate c (o.keeps db c.db h))
    bind_reply-relates db f (fail e c) h k = h

    pub bind-Relates :
        (m : Tx A) (f : A → Tx B)
        → Relates K R m
        → ((a : A) → Relates K R (f a))
        → Relates K R (m >>= f)
    bind-Relates m f h k = record {
      relate = λ c p. bind_reply-relates c.db f (m c) (h.relate c p) k;
    }

  module _ {ℓ} {A : Type ℓ} where
    pub return-Relates : (a : A) → Relates K R (return a)
    return-Relates a = record { relate = λ c p. o.reflexive c.db p }

    pub throw-Relates : (e : Code) → Relates K R (throw {A = A} e)
    throw-Relates e = record { relate = λ c p. o.reflexive c.db p }

    pub lift-Relates : (r : Outcome A) → Relates K R (lift r)
    lift-Relates r = record { relate = go r }
      where
        go : (r : Outcome A) (c : Conn) → K c.db → R c.db (left (lift r c))
        go (ok a) c p = o.reflexive c.db p
        go (err e) c p = o.reflexive c.db p

    polled : (db : Db) (f : Db → A) (fs : List Bool) → K db → R db (left (faults_from db f fs))
    polled db f [] p = o.reflexive db p
    polled db f (true ∷ fs) p = o.reflexive db p
    polled db f (false ∷ fs) p = o.reflexive db p

    pub try_query-Relates : (f : Db → A) → Relates K R (try_query f)
    unfolding try_query
    try_query-Relates f = record { relate = λ c p. polled c.db f c.faults p }

    pub query-Relates : (e : Code) (f : Db → A) → Relates K R (query e f)
    unfolding query try_query
    query-Relates e f = record { relate = λ c p. go c.db c.faults p }
      where
        go : (db : Db) (fs : List Bool) → K db → R db (left (required e (faults_from db f fs)))
        go db [] p = o.reflexive db p
        go db (true ∷ fs) p = o.reflexive db p
        go db (false ∷ fs) p = o.reflexive db p

    pub or_throw-Relates : (e : Code) (m : Tx A) → Relates K R m → Relates K R (or_throw e m)
    unfolding or_throw
    or_throw-Relates e m h = record { relate = λ c p. go c.db (m c) (h.relate c p) }
      where
        go : (db : Db) (r : Reply A) → R db (left r) → R db (left (replaced e r))
        go db (done a c) h' = h'
        go db (fail e' c) h' = h'

    pub catch-Relates : (m : Tx A) → Relates K R m → Relates K R (catch m)
    unfolding catch
    catch-Relates m h = record { relate = λ c p. go c.db (m c) (h.relate c p) }
      where
        go : (db : Db) (r : Reply A) → R db (left r) → R db (left (caught r))
        go db (done a c) h' = h'
        go db (fail e' c) h' = h'

  pub guard-Relates : (b : Bool) (e : Code) → Relates K R (guard b e)
  guard-Relates b e = record { relate = go b }
    where
      go : (b : Bool) (c : Conn) → K c.db → R c.db (left (guard b e c))
      go true c p = o.reflexive c.db p
      go false c p = o.reflexive c.db p

  pub exec-Relates :
      (e : Code) (f : Db → Db) → ((db : Db) → K db → R db (f db)) → Relates K R (exec e f)
  unfolding exec query try_query
  exec-Relates e f h = record { relate = λ c p. go c.db c.faults p }
    where
      go :
          (db : Db) (fs : List Bool)
          → K db
          → R db (left (written (required e (faults_from db f fs))))
      go db [] p = h db p
      go db (true ∷ fs) p = o.reflexive db p
      go db (false ∷ fs) p = h db p

  pub exec_checked-Relates :
      (e : Code) (f : Db → Option Db)
      → ((db db' : Db) → K db → f db ≡ some db' → R db db')
      → Relates K R (exec_checked e f)
  unfolding exec_checked query try_query
  exec_checked-Relates e f h = record { relate = λ c p. go c.db c.faults p }
    where
      accept :
          (db : Db) (found : Option Db) (fs : List Bool)
          → f db ≡ found
          → K db
          → R db (left (checked e (done found (record { db = db; faults = fs }))))
      accept db none fs q p = o.reflexive db p
      accept db (some db') fs q p = h db db' p q

      go :
          (db : Db) (fs : List Bool)
          → K db
          → R db (left (checked e (required e (faults_from db f fs))))
      go db [] p = accept db (f db) [] refl p
      go db (true ∷ fs) p = o.reflexive db p
      go db (false ∷ fs) p = accept db (f db) fs refl p

  pub try_exec-Relates : (f : Db → Db) → ((db : Db) → K db → R db (f db)) → Relates K R (try_exec f)
  unfolding try_exec try_query
  try_exec-Relates f h = record { relate = λ c p. go c c.faults p }
    where
      go :
          (c : Conn) (fs : List Bool) → K c.db → R c.db (left (attempted c (faults_from c.db f fs)))
      go c [] p = h c.db p
      go c (true ∷ fs) p = o.reflexive c.db p
      go c (false ∷ fs) p = h c.db p

  pub for_each-Relates {ℓ} :
      {A : Type ℓ} (xs : List A) (f : A → Tx (Unit {0}))
      → All (λ x. Relates K R (f x)) xs
      → Relates K R (for_each xs f)
  unfolding for_each
  for_each-Relates [] f h = return-Relates tt
  for_each-Relates (x ∷ xs) f (h, hs) =
      bind-Relates (f x) (λ _. for_each xs f) h (λ _. for_each-Relates xs f hs)

  pub for_each_all-Relates {ℓ} :
      {A : Type ℓ} (xs : List A) (f : A → Tx (Unit {0}))
      → ((x : A) → Relates K R (f x))
      → Relates K R (for_each xs f)
  for_each_all-Relates xs f h = for_each-Relates xs f (All-of_every _ h xs)

  -- A whole transaction.
  pub transact-relates {ℓ} :
      {A : Type ℓ} (m : Tx A) (faults : List Bool) (db : Db)
      → Relates K R m
      → K db
      → R db (transact m faults db).1
  unfolding transact
  transact-relates {A} m faults db h p =
      go (m (record { db = db; faults = faults }))
        (h.relate (record { db = db; faults = faults }) p)
    where
      go : (r : Reply A) → R db (left r) → R db (settle db r).1
      go (done a c) q = q
      go (fail e c) q = o.reflexive db p

  pub audit-Relates :
      (e : Code) (event : Event)
      → ((db : Db) → K db → R db (record db { audit = db.audit ++ (event ∷ []) }))
      → Relates K R (audit e event)
  unfolding audit
  audit-Relates e event h = exec-Relates e _ h

  pub begin-Relates : (e : Code) → Relates K R (begin e)
  unfolding begin
  begin-Relates e = exec-Relates e _ o.reflexive

  pub commit-Relates : (e : Code) → Relates K R (commit e)
  unfolding commit
  commit-Relates e = exec-Relates e _ o.reflexive

-- An invariant is such a relation.
pub invariant : (P : Db → Type 0) → IsPreorder P (λ a b. P b)
invariant P = record { reflexive = λ db p. p; transitive = λ a b c p q. q; keeps = λ a b p. p }

-- What follows a query runs on the value that it found, or not at all.
pub query-cases {ℓ κ} :
    {A : Type ℓ} {B : Type κ} (Q : Reply B → Type 0) (e : Code) (f : Db → A) (g : A → Tx B)
    (c : Conn)
    → ((fs : List Bool) → Q (g (f c.db) (record { db = c.db; faults = fs })))
    → ((fs : List Bool) → Q (fail e (record { db = c.db; faults = fs })))
    → Q ((query e f >>= g) c)
unfolding query try_query
query-cases Q e f g c good bad = go c.faults
  where
    go : (fs : List Bool) → Q (bind_reply g (required e (faults_from c.db f fs)))
    go [] = good []
    go (true ∷ fs) = bad fs
    go (false ∷ fs) = good fs
