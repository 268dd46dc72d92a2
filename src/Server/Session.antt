-- ===== src/Server/Session.antt =====
-- internal/server/owner.go: the sessions of the owner, `login` and `/logout`; `Password` and
-- `CheckPassword` of internal/store/crypto.go.
use budge.Base.{
  ℕ, ◌+◌, ◌*◌, Bool, false, not, ◌&&◌, ◌==◌, Option, none, some, List, [], ◌∷◌, ◌++◌, ltb,
  if◌then◌else◌, any, find, select, length,
}
use budge.Base.Text.{Text, codes, text_eq, split}
use budge.Requests.Types.{http, sql_error, Outcome, err}
use budge.Requests.Environment.{Environment}
use budge.Store.Tables.{Owner, Session, Db}
use budge.Store.Transaction.{
  Tx, ◌>>=◌, ◌>>◌, return, lift, guard, query, exec, exec_checked, transact,
}
use budge.Server.Authorize.{or_else}
use budge.Server.Handler.{unavailable, Throttles, throttle_key}

-- `encoding/base64` without padding, and Argon2.
pub record Passwords : Type 0 where
  pub encode : Text → Text
  pub decode : Text → Option Text
  pub key : Text → Text → Text

-- `Password`, with the salt that it drew.
unfoldable pub hash_password : Passwords → Text → Text → Text
hash_password w salt password = w.encode salt ++ (b'.' ∷ w.encode (w.key password salt))

abbrev same_key : Passwords → Text → Text → Option Text → Bool
same_key w password salt none = false
same_key w password salt (some h) = text_eq h (w.key password salt)

abbrev check_salt : Passwords → Text → Text → Option Text → Bool
check_salt w password encoded none = false
check_salt w password encoded (some salt) =
    length salt == 16 && same_key w password salt (w.decode encoded)

abbrev check_parts : Passwords → Text → List Text → Bool
check_parts w password (salt ∷ h ∷ []) = check_salt w password h (w.decode salt)
check_parts w password _ = false

-- `CheckPassword`.
unfoldable pub check_password : Passwords → Text → Text → Bool
unfolding split
check_password w encoded password = check_parts w password (split b'.' encoded)

-- `SELECT owner_id,csrf FROM sessions WHERE hash=? AND expires>?`.
unfoldable pub live_session : ℕ → Text → Db → Option Session
live_session now hash db =
    find (λ (s : Session). text_eq s.hash hash && ltb now s.expires) db.sessions

-- `SELECT id,password_hash FROM owners LIMIT 1`.
unfoldable pub first_owner : Db → Option Owner
first_owner db = elim db.owners [ [] ↦ none | o ∷ os ↦ some o ]

-- `INSERT INTO sessions`, whose primary key is the hash.
unfoldable pub insert_session : Session → Db → Option Db
insert_session s db =
    if any (λ (t : Session). text_eq t.hash s.hash) db.sessions
    then none
    else some (record db { sessions = db.sessions ++ (s ∷ []) })

-- A session of eight hours.
unfoldable pub new_session : Environment → Text → Text → Owner → Session
new_session env token csrf owner = record {
  hash = env.hash token;
  owner_id = owner.id;
  csrf = csrf;
  expires = env.now + 8 * 3600;
}

-- The statements of `login`, each committed by itself: the one that changes the tables is the last.
-- `token` and `csrf` are drawn.
unfoldable pub login_tx : Environment → Passwords → Text → Text → Text → Tx Text
unfolding first_owner insert_session check_password new_session
login_tx env w token csrf password = do
  found ← query (http 401 (codes "invalid_login")) first_owner
  owner ← lift (or_else (http 401 (codes "invalid_login")) found)
  guard (check_password w owner.password_hash password) (http 401 (codes "invalid_login"))
  exec_checked unavailable (
      insert_session (record {
        hash = env.hash token;
        owner_id = owner.id;
        csrf = csrf;
        expires = env.now + 8 * 3600;
      }))
  return token

-- `login`.
unfoldable pub handle_login :
    Environment
    → Passwords
    → ℕ
    → Text
    → Text
    → Text
    → List Bool
    → Throttles × Db
    → Outcome Text × (Throttles × Db)
unfolding throttle_key login_tx
handle_login env w clock token csrf password faults (times, db) =
    let (free, times') = throttle_key clock (codes "login") 10 times in
    let (answer, db') = transact (login_tx env w token csrf password) faults db in
    if free then (answer, (times', db')) else (err (http 429 (codes "throttled")), (times', db))

-- `DELETE FROM sessions WHERE hash=?`.
unfoldable pub drop_session : Text → Db → Db
drop_session hash db = record db {
  sessions = select (λ (s : Session). not (text_eq s.hash hash)) db.sessions;
}

-- `/logout`.
unfoldable pub logout_tx : Environment → Text → Tx (Unit {0})
unfolding drop_session
logout_tx env token = exec sql_error (drop_session (env.hash token))
