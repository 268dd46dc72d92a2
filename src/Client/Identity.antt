-- ===== src/Client/Identity.antt =====
-- internal/client/client.go: `Save` and `Load`, on a file system. What they take from encoding/json are
-- parameters.
use budge.Base.{
  ℕ, Bool, true, false, ◌&&◌, ◌==◌, Option, none, some, List, [], ◌∷◌, ltb, find, any, length,
  if◌then◌else◌,
}
use budge.Base.Text.{Text, codes, text_eq}
use budge.Store.Vault.{Aead, seal, unseal}

pub record Identity : Type 0 where
  pub url : Text
  pub root : Text
  pub certificate : Text
  pub private_key : Text
  pub device_id : Text

-- `encryptedIdentity`.
pub record Encrypted : Type 0 where
  pub version : ℕ
  pub salt : Text
  pub sealed : Text

pub record Json : Type 0 where
  pub marshal_identity : Identity → Text
  pub unmarshal_identity : Text → Option Identity
  pub marshal_encrypted : Encrypted → Text
  pub unmarshal_encrypted : Text → Option Encrypted

-- The files, each with its path.
abbrev pub Files : Type 0
Files = List (Text × Text)

abbrev pub content : Option (Text × Text) → Option Text
content none = none
content (some f) = some f.1

-- `os.ReadFile`.
unfoldable pub read_file : Text → Files → Option Text
read_file path files = content (find (λ (f : Text × Text). text_eq f.0 path) files)

-- `O_CREATE|O_EXCL`: the path must be free. A failed write leaves the file behind.
unfoldable pub create_file : Text → Text → Bool → Files → Bool × Files
create_file path b failed files =
    if any (λ (f : Text × Text). text_eq f.0 path) files
    then (false, files)
    else if failed
    then (false, (path, []) ∷ files)
    else (true, (path, b) ∷ files)

abbrev pub purpose : Text
purpose = codes "budge-client-identity-v1"

-- The contents of an identity's file.
unfoldable pub sealed_identity : Aead → Json → Text → Text → Text → Identity → Text
unfolding seal
sealed_identity a json pass salt nonce id = json.marshal_encrypted (record {
  version = 1;
  salt = salt;
  sealed = seal a (a.key pass salt) nonce purpose (json.marshal_identity id);
})

-- `Save`: whether it succeeds, and the files. `failed` is whether the write or the sync fails.
unfoldable pub save :
    Aead → Json → Text → Text → Bool → Text → Text → Identity → Files → Bool × Files
unfolding sealed_identity create_file
save a json salt nonce failed path pass id files =
    if ltb (length pass) 12
    then (false, files)
    else create_file path (sealed_identity a json pass salt nonce id) failed files

abbrev pub opened : Json → Option Text → Option Identity
opened json none = none
opened json (some b) = json.unmarshal_identity b

abbrev pub decrypted : Aead → Json → Text → Option Encrypted → Option Identity
decrypted a json pass none = none
decrypted a json pass (some v) =
    if v.version == 1 && length v.salt == 16
    then opened json (unseal a (a.key pass v.salt) purpose v.sealed)
    else none

abbrev pub decoded : Aead → Json → Text → Option Text → Option Identity
decoded a json pass none = none
decoded a json pass (some b) = decrypted a json pass (json.unmarshal_encrypted b)

-- `Load`.
unfoldable pub load : Aead → Json → Text → Text → Files → Option Identity
unfolding read_file unseal
load a json path pass files = decoded a json pass (read_file path files)
