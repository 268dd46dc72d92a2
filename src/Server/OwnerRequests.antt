-- ===== src/Server/OwnerRequests.antt =====
-- internal/server/owner.go: what `OwnerHandler` reads and answers, its first tests, and the forms of its
-- posts; `review` of review.go.
use budge.Base.{
  Bool, true, false, not, ◌&&◌, ◌||◌, Option, none, some, List, [], ◌∷◌, ◌++◌, if◌then◌else◌,
}
use budge.Base.Text.{Text, codes, text_eq}
use budge.Access.Syntax.{is_empty}
use budge.Requests.Types.{Snapshot, Code, http, Outcome, ok, err}
use budge.Requests.Environment.{Environment}
use budge.Store.Tables.{Session, Db}
use budge.Store.Transaction.{Tx, ◌>>=◌, ◌>>◌, return, or_throw, begin}
use budge.Server.Snapshot.{snapshot}
use budge.Server.Status.{StatusView, status_tx}
use budge.Server.Owner.{PermissionForm}
use budge.Server.Services.{ServiceForm}
use budge.Server.Handler.{unavailable}
use budge.Server.Session.{live_session}

-- A posted form: `Get` is the first value of a name, or the empty text.
abbrev pub Form : Type 0
Form = List (Text × Text)

unfoldable pub get : Form → Text → Text
get [] name = []
get ((n, v) ∷ form) name = let rest = get form name in if text_eq n name then v else rest

-- What the handler reads of an `http.Request`; `form` is what `ParseForm` makes of the body, or its
-- error, and the cookies are absent or have a value.
pub record OwnerRequest : Type 0 where
  pub tls : Bool
  pub host : Text
  pub origin : Text
  pub fetch_site : Text
  pub method : Text
  pub path : Text
  pub query_id : Text
  pub session : Option Text
  pub login_csrf : Option Text
  pub form : Option Form

-- What is drawn at random: the login token, its CSRF value, the secret of an invitation.
pub record Drawn : Type 0 where
  pub token : Text
  pub csrf : Text
  pub secret : Text

pub data Response : Type 0 where
  static : Response
  -- The page of the owner who is not logged in, and the cookie with its CSRF value.
  login_page : (csrf : Text) → Response
  -- The owner's page, with the error of a change that failed.
  owner_page : (csrf : Text) (message : Option Code) → Response
  invitation_page : (csrf secret : Text) → Response
  review_page : (csrf : Text) (view : StatusView) (snapshot : Option Snapshot) → Response
  -- A redirect to `/`, with the session's cookie after a login.
  redirect : (token : Option Text) → Response
  error : Code → Response

-- The first test of the handler.
unfoldable pub origin_rejected : Text → OwnerRequest → Bool
origin_rejected owner_host r =
    let origin = (if r.tls then codes "https://" else codes "http://") ++ owner_host in
    not (text_eq r.host owner_host)
    || (not (is_empty r.origin) && not (text_eq r.origin origin))
    || text_eq r.fetch_site (codes "cross-site")

abbrev pub session_of : Environment → Db → Option Text → Option Session
session_of env db none = none
session_of env db (some token) = live_session env.now (env.hash token) db

abbrev review_snapshot : Environment → Text → Bool → Tx (Option Snapshot)
review_snapshot env id true = return none
review_snapshot env id false = do
  begin unavailable
  snap ← or_throw (http 409 (codes "snapshot_integrity_failed")) (snapshot env id)
  return (some snap)

-- `review`: its transactions only read.
unfoldable pub review_tx : Environment → Text → Tx (StatusView × Option Snapshot)
review_tx env id = do
  view ← or_throw (http 404 (codes "request_not_found")) (status_tx env [] id)
  snap ← review_snapshot env id view.payload_purged
  return (view, snap)

abbrev pub reviewed : Text → Outcome (StatusView × Option Snapshot) → Response
reviewed csrf (ok (view, snap)) = review_page csrf view snap
reviewed csrf (err e) = error e

unfoldable pub permission_form : Form → PermissionForm
unfolding get
permission_form f = record {
  device = get f (codes "device");
  service = get f (codes "service");
  method = get f (codes "method");
  path = get f (codes "path");
  path_kind = get f (codes "path_kind");
  mode = get f (codes "mode");
  expires = get f (codes "expires");
}

unfoldable pub service_form : Bool → Form → ServiceForm
unfolding get
service_form revise f = record {
  revise = revise;
  id = get f (codes "id");
  label = get f (codes "label");
  base_url = get f (codes "base_url");
  auth = get f (codes "auth");
  credential = get f (codes "credential");
  auth_header = get f (codes "auth_header");
  request_headers = get f (codes "request_headers");
  response_headers = get f (codes "response_headers");
  private_cidr = get f (codes "private_cidr");
}
