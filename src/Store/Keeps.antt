-- ===== src/Store/Keeps.antt =====
-- Rules for transactions: what holds of the tables after each statement and each sequence of them.
use budge.Base.{
  ◌≡◌, refl, Bool, true, false, Option, none, some, List, [], ◌∷◌, ◌++◌, All, All-of_every,
}
use budge.Requests.Types.{Code, Outcome, ok, err}
use budge.Store.Tables.{Db, Event}
use budge.Store.Transaction.{
  Conn, Reply, done, fail, Tx, bind_reply, ◌>>=◌, return, throw, lift, guard, try_query, query,
  exec, audit, begin, commit, faults_from, required, written, settle, checked, exec_checked,
  attempted, try_exec, replaced, or_throw, for_each, transact,
}

-- What a reply leaves; nothing is asked of a failure, which rolls back.
abbrev pub Post {ℓ} : {A : Type ℓ} → (A → Db → Type 0) → Reply A → Type 0
Post Q (done a c) = Q a c.db
Post Q (fail e c) = Unit

-- From tables with `P`, whatever statements fail, `m` fails or ends in a value and tables with `Q`.
abbrev pub Triple {ℓ} : {A : Type ℓ} → (Db → Type 0) → Tx A → (A → Db → Type 0) → Type 0
Triple P m Q = (c : Conn) → P c.db → Post Q (m c)

module _ {ℓ κ} {A : Type ℓ} {B : Type κ} where
  bind_reply_rule :
      (Q : A → Db → Type 0) (R : B → Db → Type 0) (f : A → Tx B) (r : Reply A)
      → Post Q r
      → ((a : A) → Triple (Q a) (f a) R)
      → Post R (bind_reply f r)
  bind_reply_rule Q R f (done a c) h k = k a c h
  bind_reply_rule Q R f (fail e c) h k = tt

  pub bind_rule :
      (P : Db → Type 0) (Q : A → Db → Type 0) (R : B → Db → Type 0) (m : Tx A) (f : A → Tx B)
      → Triple P m Q
      → ((a : A) → Triple (Q a) (f a) R)
      → Triple P (m >>= f) R
  bind_rule P Q R m f h k c p = bind_reply_rule Q R f (m c) (h c p) k

module _ {ℓ} {A : Type ℓ} (P : Db → Type 0) (Q : A → Db → Type 0) where
  pub return_rule : (a : A) → ((db : Db) → P db → Q a db) → Triple P (return a) Q
  return_rule a h c p = h c.db p

  pub throw_rule : (e : Code) → Triple P (throw e) Q
  throw_rule e c p = tt

  pub query_rule :
      (e : Code) (f : Db → A) → ((db : Db) → P db → Q (f db) db) → Triple P (query e f) Q
  unfolding query try_query
  query_rule e f h c p = go c.faults
    where
      go : (fs : List Bool) → Post Q (required e (faults_from c.db f fs))
      go [] = h c.db p
      go (true ∷ fs) = tt
      go (false ∷ fs) = h c.db p

module _ {ℓ} {A : Type ℓ} (P : Db → Type 0) (Q : Option A → Db → Type 0) where
  pub try_query_rule :
      (f : Db → A) → ((db : Db) → P db → Q none db × Q (some (f db)) db) → Triple P (try_query f) Q
  unfolding try_query
  try_query_rule f h c p = go c.faults
    where
      go : (fs : List Bool) → Post Q (faults_from c.db f fs)
      go [] = (h c.db p).1
      go (true ∷ fs) = (h c.db p).0
      go (false ∷ fs) = (h c.db p).1

module _ (P Q : Db → Type 0) where
  pub exec_rule :
      (e : Code) (f : Db → Db) → ((db : Db) → P db → Q (f db)) → Triple P (exec e f) (λ _. Q)
  unfolding exec query try_query
  exec_rule e f h c p = go c.faults
    where
      go : (fs : List Bool) → Post (λ _. Q) (written (required e (faults_from c.db f fs)))
      go [] = h c.db p
      go (true ∷ fs) = tt
      go (false ∷ fs) = h c.db p

  pub guard_rule :
      (b : Bool) (e : Code) → ((db : Db) → P db → b ≡ true → Q db) → Triple P (guard b e) (λ _. Q)
  guard_rule true e h c p = h c.db p refl
  guard_rule false e h c p = tt

  pub exec_checked_rule :
      (e : Code) (f : Db → Option Db)
      → ((db db' : Db) → P db → f db ≡ some db' → Q db')
      → Triple P (exec_checked e f) (λ _. Q)
  unfolding exec_checked query try_query
  exec_checked_rule e f h c p = go c.faults
    where
      accept :
          (o : Option Db)
          → f c.db ≡ o
          → (fs : List Bool)
          → Post (λ _. Q) (checked e (done o (record { db = c.db; faults = fs })))
      accept none q fs = tt
      accept (some db') q fs = h c.db db' p q

      go : (fs : List Bool) → Post (λ _. Q) (checked e (required e (faults_from c.db f fs)))
      go [] = accept (f c.db) refl []
      go (true ∷ fs) = tt
      go (false ∷ fs) = accept (f c.db) refl fs

  pub try_exec_rule :
      (f : Db → Db) → ((db : Db) → P db → Q db × Q (f db)) → Triple P (try_exec f) (λ _. Q)
  unfolding try_exec try_query
  try_exec_rule f h c p = go c.faults
    where
      go : (fs : List Bool) → Post (λ _. Q) (attempted c (faults_from c.db f fs))
      go [] = (h c.db p).1
      go (true ∷ fs) = (h c.db p).0
      go (false ∷ fs) = (h c.db p).1

  pub audit_rule :
      (e : Code) (event : Event)
      → ((db : Db) → P db → Q (record db { audit = db.audit ++ (event ∷ []) }))
      → Triple P (audit e event) (λ _. Q)
  unfolding audit
  audit_rule e event h = exec_rule e _ h

  pub begin_rule : (e : Code) → ((db : Db) → P db → Q db) → Triple P (begin e) (λ _. Q)
  unfolding begin
  begin_rule e h = exec_rule e _ h

  pub commit_rule : (e : Code) → ((db : Db) → P db → Q db) → Triple P (commit e) (λ _. Q)
  unfolding commit
  commit_rule e h = exec_rule e _ h

pub or_throw_rule {ℓ} :
    {A : Type ℓ} (P : Db → Type 0) (Q : A → Db → Type 0) (e : Code) (m : Tx A)
    → Triple P m Q
    → Triple P (or_throw e m) Q
unfolding or_throw
or_throw_rule P Q e m h c p = go (m c) (h c p)
  where
    go : (r : Reply _) → Post Q r → Post Q (replaced e r)
    go (done a c') q = q
    go (fail e' c') q = tt

pub lift_rule {ℓ} :
    {A : Type ℓ} (P : Db → Type 0) (Q : A → Db → Type 0) (o : Outcome A)
    → ((a : A) (db : Db) → o ≡ ok a → P db → Q a db)
    → Triple P (lift o) Q
lift_rule P Q (ok a) h c p = h a c.db refl p
lift_rule P Q (err e) h c p = tt

-- A loop keeps what each of its rounds keeps.
pub for_each_rule {ℓ} :
    {A : Type ℓ} (P : Db → Type 0) (xs : List A) (f : A → Tx (Unit {0}))
    → All (λ x. Triple P (f x) (λ _. P)) xs
    → Triple P (for_each xs f) (λ _. P)
unfolding for_each
for_each_rule P [] f h c p = p
for_each_rule P (x ∷ xs) f (k, h) c p =
    bind_rule P (λ _. P) (λ _. P) (f x) (λ _. for_each xs f) k (λ _. for_each_rule P xs f h) c p

-- A whole transaction leaves what its body leaves, or the tables as they were.
pub transact_rule {ℓ} :
    {A : Type ℓ} (P : Db → Type 0) (Q : A → Db → Type 0) (R : Outcome A → Db → Type 0) (m : Tx A)
    (faults : List Bool) (db : Db)
    → Triple P m Q
    → P db
    → ((a : A) (db' : Db) → Q a db' → R (ok a) db')
    → ((e : Code) → R (err e) db)
    → R (transact m faults db).0 (transact m faults db).1
unfolding transact
transact_rule P Q R m faults db h p good bad =
    go (m (record { db = db; faults = faults })) (h (record { db = db; faults = faults }) p)
  where
    go : (r : Reply _) → Post Q r → R (settle db r).0 (settle db r).1
    go (done a c) q = good a c.db q
    go (fail e c) q = bad e

-- Two triples of one transaction are a triple.
pub and_rule {ℓ} :
    {A : Type ℓ} (P P' : Db → Type 0) (Q Q' : A → Db → Type 0) (m : Tx A)
    → Triple P m Q
    → Triple P' m Q'
    → Triple (λ db. P db × P' db) m (λ a db. Q a db × Q' a db)
and_rule P P' Q Q' m h k c (p, p') = go (m c) (h c p) (k c p')
  where
    go : (r : Reply _) → Post Q r → Post Q' r → Post (λ a db. Q a db × Q' a db) r
    go (done a c') q q' = (q, q')
    go (fail e c') q q' = tt

-- A loop whose round for `x` establishes `D x` and keeps every `D y`.
pub for_each_done {ℓ} :
    {A : Type ℓ} (P : Db → Type 0) (D : A → Db → Type 0) (xs : List A) (f : A → Tx (Unit {0}))
    → All (λ x. Triple P (f x) (λ _ db. P db × D x db)) xs
    → ((x y : A) → Triple (D y) (f x) (λ _. D y))
    → Triple P (for_each xs f) (λ _ db. P db × All (λ x. D x db) xs)
unfolding for_each
for_each_done P D [] f h k c p = (p, tt)
for_each_done P D (x ∷ xs) f (h, hs) k c p =
    bind_rule P (λ _ db. P db × D x db) (λ _ db. P db × (D x db × All (λ y. D y db) xs)) (f x)
      (λ _. for_each xs f) h
      (λ _ c' (q, d). regroup (for_each xs f c') (
        and_rule P (D x) (λ _ db. P db × All (λ y. D y db) xs) (λ _. D x) (for_each xs f)
          (for_each_done P D xs f hs k)
          (for_each_rule (D x) xs f
            (All-of_every (λ y. Triple (D x) (f y) (λ _. D x)) (λ y. k y x) xs))
          c' (q, d)))
      c p
  where
    regroup :
        (r : Reply (Unit {0}))
        → Post (λ _ db. (P db × All (λ y. D y db) xs) × D x db) r
        → Post (λ _ db. P db × (D x db × All (λ y. D y db) xs)) r
    regroup (done a c') ((p', ds), d) = (p', (d, ds))
    regroup (fail e c') q = tt
