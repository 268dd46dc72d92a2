-- ===== src/Store/Vault.antt =====
-- internal/store: `Seal` and `Unseal` of crypto.go, and the part of `Open` of store.go that unlocks the
-- database: the salt and the check in the table `metadata`.
use budge.Base.{
  ℕ, zero, suc, Bool, true, false, Option, none, some, List, [], ◌∷◌, ◌++◌, ltb, find, length, take,
  if◌then◌else◌,
}
use budge.Base.Text.{Text, codes, text_eq}
use budge.Store.Tables.{Db}

-- Argon2 and AES-GCM: the key of a password and a salt, and sealing with a key and a nonce.
pub record Aead : Type 0 where
  pub nonce_size : ℕ
  pub key : Text → Text → Text
  pub lock : Text → Text → Text → Text → Text
  pub unlock : Text → Text → Text → Text → Option Text

-- `b[n:]`.
abbrev pub drop : ℕ → Text → Text
drop zero b = b
drop (suc n) [] = []
drop (suc n) (c ∷ b) = drop n b

-- `Seal`, with the nonce that it drew.
unfoldable pub seal : Aead → Text → Text → Text → Text → Text
seal a key nonce purpose b = nonce ++ a.lock key nonce purpose b

-- `Unseal`.
unfoldable pub unseal : Aead → Text → Text → Text → Option Text
unseal a key purpose b =
    if ltb (length b) a.nonce_size
    then none
    else a.unlock key (take a.nonce_size b) purpose (drop a.nonce_size b)

abbrev value_of : Option (Text × Text) → Option Text
value_of none = none
value_of (some e) = some e.1

-- `SELECT value FROM metadata WHERE key=?`.
unfoldable pub metadata_value : Text → List (Text × Text) → Option Text
metadata_value key rows = value_of (find (λ (e : Text × Text). text_eq e.0 key) rows)

-- The two rows of a new database.
unfoldable pub new_metadata : Aead → Text → Text → Text → List (Text × Text)
unfolding seal
new_metadata a unlock salt nonce =
    (codes "salt", salt)
    ∷ (codes "check", seal a (a.key unlock salt) nonce (codes "unlock-check") (codes "budge-v1"))
    ∷ []

abbrev pub is_check : Option Text → Bool
is_check none = false
is_check (some b) = text_eq b (codes "budge-v1")

abbrev pub check_vault : Aead → Text → Option Text → Option Text
check_vault a key none = none
check_vault a key (some check) =
    if is_check (unseal a key (codes "unlock-check") check) then some key else none

-- After the query for the salt; `failed` is whether the transaction that writes the rows fails.
abbrev pub unlock_with : Aead → Text → Text → Text → Bool → Db → Option Text → Option Text × Db
unlock_with a unlock salt nonce true db none = (none, db)
unlock_with a unlock salt nonce false db none = (
  some (a.key unlock salt),
  record db { metadata = db.metadata ++ new_metadata a unlock salt nonce },
)
unlock_with a unlock salt nonce failed db (some old) =
    (check_vault a (a.key unlock old) (metadata_value (codes "check") db.metadata), db)

-- `Open`, after the migrations: the key of the vault, or an error. `salt` and `nonce` are drawn.
unfoldable pub open_vault : Aead → Text → Text → Text → Bool → Db → Option Text × Db
unfolding unseal metadata_value new_metadata
open_vault a unlock salt nonce failed db =
    if ltb (length unlock) 12
    then (none, db)
    else unlock_with a unlock salt nonce failed db (metadata_value (codes "salt") db.metadata)
