-- ===== src/Server/Stored.antt =====
-- The snapshot that `Submit` stores is the one that `snapshot` opens.
use budge.Base.{◌+◌, ℕ, ◌≡◌, refl, true, List, ◌==◌, ==_iff}
use budge.Base.Text.{Text, text_eq_refl}
use budge.Access.Syntax.{Url}
use budge.Access.Scope.{Permission}
use budge.Upstream.Header.{Field}
use budge.Requests.Types.{Submission, Snapshot, Service, ok}
use budge.Requests.Environment.{Environment, IsFaithful, digest}
use budge.Server.Snapshot.{request_purpose, credential_ref, same_columns, open_snapshot}
use budge.Server.Submit.{lifetime, new_snapshot, new_request}

pub ==_refl : (n : ℕ) → (n == n) ≡ true
==_refl n = (==_iff n n).1 refl

module _ (env : Environment) (device : Text) (s : Submission) (svc : Service) (p : Permission)
    (headers : List Field) (url : Url) where
  abbrev stored : Snapshot
  stored = new_snapshot env device s svc p headers url

  same_columns-new : same_columns stored (new_request env device s svc p stored) ≡ true
  unfolding same_columns new_snapshot new_request
  same_columns-new =
      rw
        (
          text_eq_refl device,
          text_eq_refl svc.id,
          text_eq_refl p.id,
          ==_refl svc.revision,
          ==_refl (env.now + lifetime p.mode),
          text_eq_refl (credential_ref svc.id svc.revision),
        )
        refl

  -- Where opening returns what was sealed and decoding what was encoded, the row that `Submit`
  -- inserts opens to the snapshot that it stored.
  pub open_snapshot-new_request :
      IsFaithful env (request_purpose env.new_id) (new_snapshot env device s svc p headers url)
      → open_snapshot env
          (new_request env device s svc p (new_snapshot env device s svc p headers url))
        ≡ ok (new_snapshot env device s svc p headers url)
  unfolding open_snapshot new_request
  open_snapshot-new_request f =
      rw
        (
          f.unseal-seal,
          text_eq_refl (digest env (env.marshal_snapshot stored)),
          f.unmarshal-marshal,
          same_columns-new,
        )
        refl
