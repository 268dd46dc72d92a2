-- ===== src/Store/Inversion.antt =====
-- What a transaction that came through says of its parts.
use budge.Base.{
  ◌≡◌, refl, ◌⊎◌, inl, inr, Bool, true, false, Option, none, some, List, [], ◌∷◌, ◌++◌, arith,
}
use budge.Requests.Types.{Code, Outcome, ok, err}
use budge.Store.Tables.{Db, Event}
use budge.Store.Transaction.{
  Conn, Reply, done, fail, Tx, bind_reply, ◌>>=◌, lift, guard, try_query, query, exec, exec_checked,
  or_throw, catch, audit, begin, commit, faults_from, required, written, checked, replaced, caught,
  settle, transact,
}

module _ {ℓ} {A : Type ℓ} where
  pub done_inj : {a b : A} {c d : Conn} → done a c ≡ done b d → (a ≡ b) × (c ≡ d)
  done_inj e = ground arith

  pub lift-done :
      (o : Outcome A) (c : Conn) {a : A} {d : Conn} → lift o c ≡ done a d → (o ≡ ok a) × (d ≡ c)
  lift-done (ok a) c e = ground arith
  lift-done (err x) c e = cc

  pub query-done :
      (e : Code) (f : Db → A) (c : Conn) {a : A} {d : Conn}
      → query e f c ≡ done a d
      → (a ≡ f c.db) × (d.db ≡ c.db)
  unfolding query try_query
  query-done e f c {a} {d} = go c.faults
    where
      go :
          (fs : List Bool)
          → required e (faults_from c.db f fs) ≡ done a d
          → (a ≡ f c.db) × (d.db ≡ c.db)
      go [] h = ground arith
      go (true ∷ fs) h = cc
      go (false ∷ fs) h = ground arith

  pub try_query-done :
      (f : Db → A) (c : Conn) {a : Option A} {d : Conn}
      → try_query f c ≡ done a d
      → ((a ≡ none) ⊎ (a ≡ some (f c.db))) × (d.db ≡ c.db)
  unfolding try_query
  try_query-done f c {a} {d} = go c.faults
    where
      go :
          (fs : List Bool)
          → faults_from c.db f fs ≡ done a d
          → ((a ≡ none) ⊎ (a ≡ some (f c.db))) × (d.db ≡ c.db)
      go [] h = ground arith
      go (true ∷ fs) h = ground arith
      go (false ∷ fs) h = ground arith

  pub or_throw-done :
      (e : Code) (m : Tx A) (c : Conn) {a : A} {d : Conn}
      → or_throw e m c ≡ done a d
      → m c ≡ done a d
  unfolding or_throw
  or_throw-done e m c {a} {d} = go (m c)
    where
      go : (r : Reply A) → replaced e r ≡ done a d → r ≡ done a d
      go (done b c') h = h
      go (fail x c') h = cc

  pub catch-done :
      (m : Tx A) (c : Conn) {a : Option A} {d : Conn}
      → catch m c ≡ done a d
      → ((x : A) × (a ≡ some x) × (m c ≡ done x d)) ⊎ ((e : Code) × (a ≡ none) × (m c ≡ fail e d))
  unfolding catch
  catch-done m c {a} {d} = go (m c)
    where
      go :
          (r : Reply A)
          → caught r ≡ done a d
          → ((x : A) × (a ≡ some x) × (r ≡ done x d)) ⊎ ((e : Code) × (a ≡ none) × (r ≡ fail e d))
      go (done b c') h = inl (b, ground arith, ground arith)
      go (fail x c') h = inr (x, ground arith, ground arith)

  pub transact-ok :
      (m : Tx A) (faults : List Bool) (db : Db) {a : A} {db' : Db}
      → transact m faults db ≡ (ok a, db')
      → (d : Conn) × (m (record { db = db; faults = faults }) ≡ done a d) × (d.db ≡ db')
  unfolding transact
  transact-ok m faults db {a} {db'} = go (m (record { db = db; faults = faults }))
    where
      go : (r : Reply A) → settle db r ≡ (ok a, db') → (d : Conn) × (r ≡ done a d) × (d.db ≡ db')
      go (done b c) h = (c, ground arith, ground arith)
      go (fail x c) h = cc

  -- Every other outcome leaves the tables alone.
  pub transact-err :
      (m : Tx A) (faults : List Bool) (db : Db) {e : Code} {db' : Db}
      → transact m faults db ≡ (err e, db')
      → db' ≡ db
  unfolding transact
  transact-err m faults db {e} {db'} = go (m (record { db = db; faults = faults }))
    where
      go : (r : Reply A) → settle db r ≡ (err e, db') → db' ≡ db
      go (done b c) h = cc
      go (fail x c) h = ground arith

module _ {ℓ κ} {A : Type ℓ} {B : Type κ} where
  pub bind-done :
      (m : Tx A) (f : A → Tx B) (c : Conn) {b : B} {d : Conn}
      → (m >>= f) c ≡ done b d
      → (a : A) × (c' : Conn) × (m c ≡ done a c') × (f a c' ≡ done b d)
  bind-done m f c {b} {d} = go (m c)
    where
      go :
          (r : Reply A)
          → bind_reply f r ≡ done b d
          → (a : A) × (c' : Conn) × (r ≡ done a c') × (f a c' ≡ done b d)
      go (done a c') h = (a, c', refl, h)
      go (fail x c') h = cc

pub guard-done :
    (b : Bool) (e : Code) (c : Conn) {u : Unit {0}} {d : Conn}
    → guard b e c ≡ done u d
    → (b ≡ true) × (d ≡ c)
guard-done true e c h = ground arith
guard-done false e c h = cc

pub exec-done :
    (e : Code) (f : Db → Db) (c : Conn) {u : Unit {0}} {d : Conn}
    → exec e f c ≡ done u d
    → d.db ≡ f c.db
unfolding exec query try_query
exec-done e f c {u} {d} = go c.faults
  where
    go : (fs : List Bool) → written (required e (faults_from c.db f fs)) ≡ done u d → d.db ≡ f c.db
    go [] h = ground arith
    go (true ∷ fs) h = cc
    go (false ∷ fs) h = ground arith

pub exec_checked-done :
    (e : Code) (f : Db → Option Db) (c : Conn) {u : Unit {0}} {d : Conn}
    → exec_checked e f c ≡ done u d
    → f c.db ≡ some d.db
unfolding exec_checked query try_query
exec_checked-done e f c {u} {d} = go c.faults
  where
    accept :
        (o : Option Db) (fs : List Bool)
        → checked e (done o (record { db = c.db; faults = fs })) ≡ done u d
        → o ≡ some d.db
    accept none fs h = cc
    accept (some x) fs h = ground arith

    go :
        (fs : List Bool)
        → checked e (required e (faults_from c.db f fs)) ≡ done u d
        → f c.db ≡ some d.db
    go [] h = accept (f c.db) [] h
    go (true ∷ fs) h = cc
    go (false ∷ fs) h = accept (f c.db) fs h

pub audit-done :
    (e : Code) (event : Event) (c : Conn) {u : Unit {0}} {d : Conn}
    → audit e event c ≡ done u d
    → d.db ≡ record c.db { audit = c.db.audit ++ (event ∷ []) }
unfolding audit
audit-done e event c h = exec-done e (λ db. record db { audit = db.audit ++ (event ∷ []) }) c h

pub begin-done :
    (e : Code) (c : Conn) {u : Unit {0}} {d : Conn} → begin e c ≡ done u d → d.db ≡ c.db
unfolding begin
begin-done e c h = exec-done e (λ db. db) c h

pub commit-done :
    (e : Code) (c : Conn) {u : Unit {0}} {d : Conn} → commit e c ≡ done u d → d.db ≡ c.db
unfolding commit
commit-done e c h = exec-done e (λ db. db) c h
