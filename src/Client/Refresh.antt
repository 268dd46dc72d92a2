-- ===== src/Client/Refresh.antt =====
-- internal/client/renewal.go: `Refresh`. The exchange with the server and the checks of crypto/x509 are
-- parameters.
use budge.Base.{
  ℕ, ◌+◌, Bool, true, false, not, ◌&&◌, ◌||◌, Option, none, some, ◌∷◌, ltb, select, if◌then◌else◌,
}
use budge.Base.Text.{Text, text_eq}
use budge.Store.Vault.{Aead}
use budge.Server.Enroll.{seven_days}
use budge.Client.Identity.{Identity, Json, Files, read_file, save}

-- What the server answers: the device and a new certificate.
pub record Renewed : Type 0 where
  pub device_id : Text
  pub certificate : Text

pub record Checks : Type 0 where
  -- The end of a certificate's validity, of PEM that can be parsed.
  pub not_after : Text → Option ℕ
  -- Whether a request can be made with the private key.
  pub signs : Text → Bool
  -- The answer to `/device/renew`: `none` is a failed connection, a status that is not 200, or an
  -- answer that cannot be decoded.
  pub ask : Identity → Option Renewed
  -- Whether a certificate goes with a private key, and verifies for clients under a root.
  pub pairs : Text → Text → Bool
  pub verifies : Text → Text → Bool
  pub common_name : Text → Text

abbrev pub renamed : Text → Text → Files → Option Text → Files
renamed from to files none = files
renamed from to files (some b) =
    (to, b) ∷ select (λ (f : Text × Text). not (text_eq f.0 to) && not (text_eq f.0 from)) files

-- `os.Rename`: the file takes the place of the one at the path.
unfoldable pub rename : Text → Text → Files → Files
unfolding read_file
rename from to files = renamed from to files (read_file from files)

-- Which of the system calls after the checks fails, if any; a crash of the process is not modelled.
pub data Stop : Type 0 where
  none_fails write_fails rename_fails sync_fails : Stop

abbrev pub fails_write : Stop → Bool
fails_write write_fails = true
fails_write _ = false

-- The state of a device's process: the identity in memory, and the files.
pub record Device : Type 0 where
  pub live : Identity
  pub files : Files

-- The end of `Refresh`, once the renewed identity is in the temporary file.
abbrev pub installed : Stop → Text → Text → Identity → Device → Files → Bool × Device
installed rename_fails temp path id d files =
    (false, record d { files = select (λ (f : Text × Text). not (text_eq f.0 temp)) files })
installed sync_fails temp path id d files = (false, record d { files = rename temp path files })
installed _ temp path id d files = (true, record { live = id; files = rename temp path files })

abbrev pub after_save : Stop → Text → Text → Identity → Device → Bool × Files → Bool × Device
after_save stop temp path id d (false, files) = (false, record d { files = files })
after_save stop temp path id d (true, files) = installed stop temp path id d files

-- The checks of the answer.
unfoldable pub accepted : Checks → Identity → Renewed → Bool
accepted x id r =
    text_eq r.device_id id.device_id
    && x.pairs r.certificate id.private_key
    && x.verifies id.root r.certificate
    && text_eq (x.common_name r.certificate) id.device_id

abbrev pub after_answer :
    Aead
    → Json
    → Checks
    → Text
    → Text
    → Text
    → Text
    → Text
    → Stop
    → Device
    → Option Renewed
    → Bool × Device
after_answer a json x salt nonce temp path pass stop d none = (false, d)
after_answer a json x salt nonce temp path pass stop d (some r) =
    let id = record d.live { certificate = r.certificate } in
    if accepted x d.live r
    then after_save stop temp path id d
        (save a json salt nonce (fails_write stop) temp pass id d.files)
    else (false, d)

abbrev pub when_due :
    Aead
    → Json
    → Checks
    → ℕ
    → Text
    → Text
    → Text
    → Text
    → Text
    → Stop
    → Device
    → Option ℕ
    → Bool × Device
when_due a json x now salt nonce temp path pass stop d none = (false, d)
when_due a json x now salt nonce temp path pass stop d (some end) =
    if ltb (now + seven_days) end
    then (true, d)
    else if ltb end now || not (x.signs d.live.private_key)
    then (false, d)
    else after_answer a json x salt nonce temp path pass stop d (x.ask d.live)

-- `Refresh`: whether its error is nil, and the process afterwards. `temp` is the path of the
-- temporary file, in the directory of `path`.
unfoldable pub refresh :
    Aead → Json → Checks → ℕ → Text → Text → Text → Text → Text → Stop → Device → Bool × Device
unfolding accepted rename save
refresh a json x now salt nonce temp path pass stop d =
    when_due a json x now salt nonce temp path pass stop d (x.not_after d.live.certificate)
