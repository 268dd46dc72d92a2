-- ===== src/Requests/Environment.antt =====
-- What the program takes from the libraries that it calls: the clock, random identifiers, the
-- hash, authenticated encryption, JSON, URL parsing and base64. A handler's several readings of the
-- clock are one reading, and each call gets identifiers of its own.
use budge.Base.{ℕ, Bool, Option, some, ◌≡◌, ◌++◌}
use budge.Base.Text.{Text, codes}
use budge.Access.Syntax.{Url}
use budge.Requests.Types.{Submission, Snapshot, Result}

-- What `netip.ParsePrefix` returns, as far as the program reads it.
pub record AddressPrefix : Type 0 where
  pub private : Bool
  pub bits : ℕ

pub record Environment : Type 0 where
  pub now : ℕ
  pub new_id : Text
  pub nonce : Text
  pub hash : Text → Text
  -- `Seal(vault, purpose, b)` with the nonce that it drew, and `Unseal`.
  pub seal : Text → Text → Text → Text
  pub unseal : Text → Text → Option Text
  pub marshal_snapshot : Snapshot → Text
  pub unmarshal_snapshot : Text → Option Snapshot
  pub marshal_submission : Submission → Text
  pub marshal_result : Result → Text
  pub unmarshal_result : Text → Option Result
  pub parse_url : Text → Option Url
  pub parse_prefix : Text → Option AddressPrefix
  pub valid_utf8 : Text → Bool
  pub parse_time : Text → Option ℕ
  pub base64 : Text → Text
  pub quoted_length : Text → ℕ

-- What opening and decoding return for a snapshot that was encoded and sealed.
pub record IsFaithful (env : Environment) (purpose : Text) (s : Snapshot) : Type 0 where
  pub unseal-seal :
      env.unseal purpose (env.seal env.nonce purpose (env.marshal_snapshot s))
      ≡ some (env.marshal_snapshot s)
  pub unmarshal-marshal : env.unmarshal_snapshot (env.marshal_snapshot s) ≡ some s

-- `Digest`.
unfoldable pub digest : Environment → Text → Text
digest env b = codes "sha256-v1:" ++ env.hash b

-- `SubmissionDigest`: the key is left out.
unfoldable pub submission_digest : Environment → Submission → Text
unfolding digest
submission_digest env s =
    digest env (env.marshal_submission (record s { idempotency_key = codes "" }))
