-- ===== src/Store/Transaction.antt =====
-- Transactions of database/sql on the tables, as internal/store/store.go and its callers use them.
-- A transaction runs on a connection: the tables as its statements have left them, and for each
-- statement to come whether the driver fails it. An error returned before the commit rolls back.
use budge.Base.{Bool, true, false, Option, none, some, List, [], ◌∷◌, ◌++◌}
use budge.Requests.Types.{Code, Outcome, ok, err}
use budge.Store.Tables.{Db, Event}

pub record Conn : Type 0 where
  pub db : Db
  pub faults : List Bool

pub data Reply {ℓ} (A : Type ℓ) : Type ℓ where
  done : A → Conn → Reply A
  fail : Code → Conn → Reply A

abbrev pub Tx {ℓ} : Type ℓ → Type ℓ
Tx A = Conn → Reply A

abbrev pub bind_reply {ℓ κ} : {A : Type ℓ} {B : Type κ} → (A → Tx B) → Reply A → Reply B
bind_reply f (done a c) = f a c
bind_reply f (fail e c) = fail e c

infixl 5 ◌>>=◌ ◌>>◌
abbrev pub ◌>>=◌ {ℓ κ} : {A : Type ℓ} {B : Type κ} → Tx A → (A → Tx B) → Tx B
◌>>=◌ m f c = bind_reply f (m c)

abbrev pub ◌>>◌ {ℓ} : {B : Type ℓ} → Tx (Unit {0}) → Tx B → Tx B
m >> k = m >>= λ _. k

abbrev pub return {ℓ} : {A : Type ℓ} → A → Tx A
return a c = done a c

abbrev pub throw {ℓ} : {A : Type ℓ} → Code → Tx A
throw e c = fail e c

abbrev pub lift {ℓ} : {A : Type ℓ} → Outcome A → Tx A
lift (ok a) c = done a c
lift (err e) c = fail e c

-- `if !test { return e }`.
abbrev pub guard : Bool → Code → Tx (Unit {0})
guard true e c = done tt c
guard false e c = fail e c

abbrev pub faults_from {ℓ} : {A : Type ℓ} → Db → (Db → A) → List Bool → Reply (Option A)
faults_from db f [] = done (some (f db)) (record { db = db; faults = [] })
faults_from db f (true ∷ fs) = done none (record { db = db; faults = fs })
faults_from db f (false ∷ fs) = done (some (f db)) (record { db = db; faults = fs })

-- A query whose error the caller handles: `none`.
unfoldable pub try_query {ℓ} : {A : Type ℓ} → (Db → A) → Tx (Option A)
try_query f c = faults_from c.db f c.faults

abbrev pub required {ℓ} : {A : Type ℓ} → Code → Reply (Option A) → Reply A
required e (done none c) = fail e c
required e (done (some a) c) = done a c
required e (fail e' c) = fail e' c

-- A query whose error ends the transaction with `e`.
unfoldable pub query {ℓ} : {A : Type ℓ} → Code → (Db → A) → Tx A
unfolding try_query
query e f c = required e (try_query f c)

abbrev pub written : Reply Db → Reply (Unit {0})
written (done db c) = done tt (record c { db = db })
written (fail e c) = fail e c

-- A statement that changes the tables.
unfoldable pub exec : Code → (Db → Db) → Tx (Unit {0})
unfolding query
exec e f c = written (query e f c)

abbrev pub checked : Code → Reply (Option Db) → Reply (Unit {0})
checked e (done none c) = fail e c
checked e (done (some db) c) = done tt (record c { db = db })
checked e (fail e' c) = fail e' c

-- A statement that a constraint of the schema may refuse: `none`.
unfoldable pub exec_checked : Code → (Db → Option Db) → Tx (Unit {0})
unfolding query
exec_checked e f c = checked e (query e f c)

abbrev pub attempted : Conn → Reply (Option Db) → Reply (Unit {0})
attempted c (done none c') = done tt c'
attempted c (done (some db) c') = done tt (record c' { db = db })
attempted c (fail e c') = done tt c'

-- A statement whose error the caller drops.
unfoldable pub try_exec : (Db → Db) → Tx (Unit {0})
unfolding try_query
try_exec f c = attempted c (try_query f c)

abbrev pub replaced {ℓ} : {A : Type ℓ} → Code → Reply A → Reply A
replaced e (done a c) = done a c
replaced e (fail e' c) = fail e c

abbrev pub caught {ℓ} : {A : Type ℓ} → Reply A → Reply (Option A)
caught (done a c) = done (some a) c
caught (fail e c) = done none c

-- A call whose error the caller handles, in the same transaction.
unfoldable pub catch {ℓ} : {A : Type ℓ} → Tx A → Tx (Option A)
catch m c = caught (m c)

-- `if e != nil { return errors.New(…) }` after a call of several statements.
unfoldable pub or_throw {ℓ} : {A : Type ℓ} → Code → Tx A → Tx A
or_throw e m c = replaced e (m c)

-- `for _, x := range xs { … }`.
unfoldable pub for_each {ℓ} : {A : Type ℓ} → List A → (A → Tx (Unit {0})) → Tx (Unit {0})
for_each [] f = return tt
for_each (x ∷ xs) f = f x >> for_each xs f

-- `store.Audit`.
unfoldable pub audit : Code → Event → Tx (Unit {0})
unfolding exec
audit e event = exec e (λ db. record db { audit = db.audit ++ (event ∷ []) })

-- `DB.Begin` and `tx.Commit`: either may fail.
unfoldable pub begin : Code → Tx (Unit {0})
unfolding exec
begin e = exec e (λ db. db)

unfoldable pub commit : Code → Tx (Unit {0})
unfolding exec
commit e = exec e (λ db. db)

abbrev pub settle {ℓ} : {A : Type ℓ} → Db → Reply A → Outcome A × Db
settle db (done a c) = (ok a, c.db)
settle db (fail e c) = (err e, db)

-- A whole transaction: `defer tx.Rollback()` restores the tables on every error.
unfoldable pub transact {ℓ} : {A : Type ℓ} → Tx A → List Bool → Db → Outcome A × Db
transact m faults db = settle db (m (record { db = db; faults = faults }))
