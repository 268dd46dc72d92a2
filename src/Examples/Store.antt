-- ===== src/Examples/Store.antt =====
-- Examples of the migrations, of the vault, and of a device's identity.
use budge.Examples.Encode.{wrap, unwrap, unwrap-wrap}
use budge.Store.Tables.{Db}
use budge.Base.{
  ℕ, ◌+◌, arith, ◌≡◌, refl, ◌↔◌, ◌⊎◌, Bool, true, false, Option, none, some, List, [], ◌∷◌, ◌++◌,
  length, ltb, if◌then◌else◌,
}
use budge.Base.Text.{Text, codes, text_eq, text_eq_iff}
use budge.Store.Migrate.{Schema, migrate}
use budge.Store.Migrated.{IsAt, Leaves, run_all, migrate-Leaves}
use budge.Store.Vault.{Aead, open_vault}
use budge.Store.Unlocked.{IsInvertible, open_vault-again}
use budge.Client.Identity.{read_file, Identity, Encrypted, Json, Files, load, save}
use budge.Client.Saved.{IsReadable, load-save}
use budge.Client.Refresh.{Checks, Device, none_fails, refresh}
use budge.Client.Refreshed.{Kept, Renews, refresh-Renews}
use budge.Examples.Running.{running}
use budge.Examples.Data.{queued_db}

-- Each file adds its number to the contents.
abbrev add_number : ℕ → ℕ → Option ℕ
add_number f d = some (f + d)

abbrev first_done : Schema add_number
first_done = record { content = 1; version = 1 }

first-IsAt : IsAt add_number (1 ∷ 2 ∷ 3 ∷ []) 0 first_done
unfolding running run_all
first-IsAt = record {
  past = 1 ∷ [];
  rest = 2 ∷ 3 ∷ [];
  split = refl;
  counted = refl;
  contents = refl;
}

migrate-Leaves_example :
    ((faults : List Bool)
      → Leaves add_number
          (1 ∷ 2 ∷ 3 ∷ [])
          0
          (migrate add_number (1 ∷ 2 ∷ 3 ∷ []) faults first_done))
    × ((past rest : List ℕ) (e : ℕ)
        → 1 ∷ 2 ∷ 3 ∷ [] ≡ past ++ rest
        → length past ≡ 1
        → run_all add_number rest 1 ≡ some e
        → migrate add_number (1 ∷ 2 ∷ 3 ∷ []) [] first_done
          ≡ (true, record { content = e; version = 3 }))
migrate-Leaves_example = migrate-Leaves add_number (1 ∷ 2 ∷ 3 ∷ []) 0 first_done first-IsAt

migrate_tests :
    migrate add_number (1 ∷ 2 ∷ 3 ∷ []) [] first_done ≡ (true, record { content = 6; version = 3 })
unfolding running
migrate_tests = refl

-- A sealed text has its key in front.
abbrev with_key : Text → Option (Text × Text) → Option Text
with_key key none = none
with_key key (some (k, b)) = if text_eq key k then some b else none

abbrev locked : Aead
locked = record {
  nonce_size = 2;
  key = λ password salt. password;
  lock = λ key nonce purpose b. wrap key b;
  unlock = λ key nonce purpose b. with_key key (unwrap b);
}

locked-IsInvertible : IsInvertible locked
locked-IsInvertible = record {
  unlock-lock = λ key nonce purpose b. rw (unwrap-wrap key b, (text_eq_iff key key).1 refl) refl;
}

abbrev secret : Text
secret = codes "a long secret"

abbrev wrong_secret : Text
wrong_secret = codes "another secret"

-- The database after its first unlocking.
abbrev vault_db : Db
vault_db = (open_vault locked secret (codes "s1") (codes "n1") false queued_db).1

open_vault-again_example :
    ((open_vault locked secret (codes "s1") (codes "n1") false queued_db).0 ≡ some secret)
    × ((open_vault locked secret (codes "s2") (codes "n2") false vault_db).0 ≡ some secret)
    × ((open_vault locked wrong_secret (codes "s2") (codes "n2") false vault_db).1 ≡ vault_db)
    × (((open_vault locked wrong_secret (codes "s2") (codes "n2") false vault_db).0
          ≡ some wrong_secret)
        ↔ ((ltb (length wrong_secret) 12 ≡ false)
            × (wrong_secret ≡ wrong_secret)
            × (locked.unlock wrong_secret
                  (codes "n1")
                  (codes "unlock-check")
                  (locked.lock secret (codes "n1") (codes "unlock-check") (codes "budge-v1"))
                ≡ some (codes "budge-v1"))))
open_vault-again_example =
    open_vault-again locked secret (codes "s1") (codes "n1") wrong_secret (codes "s2") (codes "n2")
      wrong_secret false queued_db locked-IsInvertible refl refl refl

abbrev identity : Identity
identity = record {
  url = codes "https://budge.test";
  root = codes "root";
  certificate = codes "old";
  private_key = codes "key";
  device_id = codes "d1";
}

-- The fields one after the other.
abbrev marshal : Identity → Text
marshal id =
    wrap id.url (wrap id.root (wrap id.certificate (wrap id.private_key (wrap id.device_id []))))

abbrev field {ℓ} : {A : Type ℓ} → Option (Text × Text) → (Text → Text → Option A) → Option A
field none k = none
field (some (t, b)) k = k t b

abbrev unmarshal : Text → Option Identity
unmarshal b = field (unwrap b) λ url b1. field (unwrap b1) λ root b2.
    field (unwrap b2) λ certificate b3. field (unwrap b3) λ private_key b4.
      field (unwrap b4) λ device_id b5. some (record {
        url = url;
        root = root;
        certificate = certificate;
        private_key = private_key;
        device_id = device_id;
      })

abbrev read_encrypted : Text → Option Encrypted
read_encrypted [] = none
read_encrypted (v ∷ b) =
    field (unwrap b) λ salt sealed. some (record { version = v; salt = salt; sealed = sealed })

abbrev json : Json
json = record {
  marshal_identity = marshal;
  unmarshal_identity = unmarshal;
  marshal_encrypted = λ v. v.version ∷ wrap v.salt v.sealed;
  unmarshal_encrypted = read_encrypted;
}

json-IsReadable : (id : Identity) → IsReadable json id
json-IsReadable id = record {
  identity =
      rw
        (
          unwrap-wrap id.url
              (wrap id.root (wrap id.certificate (wrap id.private_key (wrap id.device_id [])))),
          unwrap-wrap id.root (wrap id.certificate (wrap id.private_key (wrap id.device_id []))),
          unwrap-wrap id.certificate (wrap id.private_key (wrap id.device_id [])),
          unwrap-wrap id.private_key (wrap id.device_id []),
          unwrap-wrap id.device_id [],
        )
        refl;
  encrypted = λ v. rw (unwrap-wrap v.salt v.sealed) refl;
}

abbrev salt : Text
salt = codes "abcdefghijklmnop"

abbrev saved : Files
saved = (save locked json salt (codes "n1") false (codes "id") secret identity []).1

load-save_example :
    (ltb (length secret) 12 ≡ false)
    × (read_file (codes "id") [] ≡ none)
    × (load locked json (codes "id") secret saved ≡ some identity)
    × ((other : Text) → ¬ (codes "id" ≡ other) → read_file other saved ≡ read_file other [])
unfolding running
load-save_example =
    load-save locked json salt (codes "n1") (codes "id") secret false identity [] saved
      locked-IsInvertible (json-IsReadable identity) refl refl refl

-- A server that answers with a new certificate, and checks that it passes.
abbrev checks : Checks
checks = record {
  not_after = λ c. some 1000;
  signs = λ k. true;
  ask = λ id. some (record { device_id = id.device_id; certificate = codes "new" });
  pairs = λ c k. true;
  verifies = λ root c. true;
  common_name = λ c. codes "d1";
}

abbrev process : Device
process = record { live = identity; files = saved }

refresh_tests :
    (refresh locked json checks 900 salt
      (codes "n3")
      (codes "tmp")
      (codes "id")
      secret
      none_fails
      process).1.live.certificate
    ≡ codes "new"
unfolding running
refresh_tests = refl

refresh-Renews_example :
    Kept locked json checks salt
      (codes "n3")
      (codes "tmp")
      (codes "id")
      secret
      process
      (refresh locked json checks 900 salt
        (codes "n3")
        (codes "tmp")
        (codes "id")
        secret
        none_fails
        process).1
    ⊎ Renews locked json checks salt (codes "n3") (codes "tmp") (codes "id") secret process (
        refresh locked json checks 900 salt
          (codes "n3")
          (codes "tmp")
          (codes "id")
          secret
          none_fails
          process)
refresh-Renews_example =
    refresh-Renews locked json checks 900 salt (codes "n3") (codes "tmp") (codes "id") secret
      none_fails process (λ e. ground (arith, e))
