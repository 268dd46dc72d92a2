-- ===== src/Server/OwnerPages.antt =====
-- internal/server/owner.go: `OwnerHandler`, its posts and pages.
use budge.Base.{
  ℕ, Bool, true, false, not, ◌&&◌, ◌||◌, Option, none, some, List, [], ltb, if◌then◌else◌, length,
}
use budge.Base.Text.{Text, codes, text_eq}
use budge.Access.Syntax.{is_empty}
use budge.Requests.Types.{http, Outcome, ok, err}
use budge.Requests.Environment.{Environment}
use budge.Store.Tables.{Session, Db}
use budge.Store.Transaction.{transact}
use budge.Server.Decide.{decide_tx}
use budge.Server.Owner.{add_permission_tx, revoke_permission_tx, disable_service_tx, revoke_tx}
use budge.Server.Services.{add_service_tx}
use budge.Server.Handler.{Throttles}
use budge.Server.Enroll.{invitation_tx}
use budge.Server.Session.{Passwords, live_session, handle_login, logout_tx}
use budge.Server.OwnerRequests.{
  Form, get, OwnerRequest, Drawn, Response, static, login_page, owner_page, invitation_page,
  redirect, error, origin_rejected, session_of, review_tx, reviewed, permission_form, service_form,
}

-- The answer to a change: its error is shown on the owner's page.
abbrev pub changed : Text → Outcome (Unit {0}) × Db → Response × Db
changed csrf (ok u, db) = (redirect none, db)
changed csrf (err e, db) = (owner_page csrf (some e), db)

abbrev pub invited : Text → Outcome Text × Db → Response × Db
invited csrf (ok secret, db) = (invitation_page csrf secret, db)
invited csrf (err e, db) = (owner_page csrf (some e), db)

abbrev pub label_rejected : Text → Bool
label_rejected label = ltb (length label) 1 || ltb 100 (length label)

-- The `switch` of the handler: the changes that an owner who is logged in may ask for.
unfoldable pub act :
    Environment → Drawn → Session → Text → Text → Form → List Bool → Db → Response × Db
unfolding get permission_form service_form
act env drawn s token path f faults db =
    if text_eq path (codes "/decision")
    then changed s.csrf (
        transact
          (decide_tx env s.owner_id (get f (codes "id")) (get f (codes "digest"))
            (get f (codes "decision")))
          faults db)
    else if text_eq path (codes "/service")
    then changed s.csrf (transact (add_service_tx env s.owner_id (service_form false f)) faults db)
    else if text_eq path (codes "/service-revise")
    then changed s.csrf (transact (add_service_tx env s.owner_id (service_form true f)) faults db)
    else if text_eq path (codes "/permission")
    then changed s.csrf (transact (add_permission_tx env s.owner_id (permission_form f)) faults db)
    else if text_eq path (codes "/invite")
    then (if label_rejected (get f (codes "label"))
        then (owner_page s.csrf (some (http 400 (codes "invalid device label"))), db)
        else invited s.csrf (
            transact (invitation_tx env drawn.secret s.owner_id (get f (codes "label"))) faults db))
    else if text_eq path (codes "/revoke-device")
    then changed s.csrf (transact (revoke_tx env s.owner_id (get f (codes "id"))) faults db)
    else if text_eq path (codes "/revoke-permission")
    then changed s.csrf
        (transact (revoke_permission_tx env s.owner_id (get f (codes "id"))) faults db)
    else if text_eq path (codes "/disable-service")
    then changed s.csrf
        (transact (disable_service_tx env s.owner_id (get f (codes "id"))) faults db)
    else if text_eq path (codes "/logout")
    then changed s.csrf (transact (logout_tx env token) faults db)
    else (error (http 404 (codes "not_found")), db)

-- A value that was sent, not empty, and equal to the form's field `csrf`.
abbrev pub same_csrf : Text → Form → Bool
same_csrf value f = not (is_empty value) && text_eq value (get f (codes "csrf"))

abbrev pub cookie : Option Text → Text
cookie none = []
cookie (some value) = value

abbrev pub logged_in : Outcome Text × (Throttles × Db) → Response × (Throttles × Db)
logged_in (ok token, s) = (redirect (some token), s)
logged_in (err e, s) = (error e, s)

-- `/login`, after the form was parsed.
abbrev pub post_login :
    Environment
    → Passwords
    → ℕ
    → Drawn
    → OwnerRequest
    → Form
    → List Bool
    → Throttles × Db
    → Response × (Throttles × Db)
post_login env w clock drawn r f faults s =
    if same_csrf (cookie r.login_csrf) f
    then logged_in
        (handle_login env w clock drawn.token drawn.csrf (get f (codes "password")) faults s)
    else (error (http 403 (codes "csrf_rejected")), s)

-- A session whose owner is the empty text counts as none.
abbrev pub known : Option Session → Option Session
known none = none
known (some s) = if is_empty s.owner_id then none else some s

abbrev pub with_times : Throttles → Response × Db → Response × (Throttles × Db)
with_times times (answer, db) = (answer, (times, db))

-- The other posts.
abbrev pub post_action :
    Environment
    → Drawn
    → OwnerRequest
    → Form
    → Option Session
    → List Bool
    → Throttles × Db
    → Response × (Throttles × Db)
post_action env drawn r f none faults s = (error (http 401 (codes "owner_login_required")), s)
post_action env drawn r f (some session) faults (times, db) =
    if same_csrf session.csrf f
    then with_times times (act env drawn session (cookie r.session) r.path f faults db)
    else (error (http 403 (codes "csrf_rejected")), (times, db))

abbrev pub post :
    Environment
    → Passwords
    → ℕ
    → Drawn
    → OwnerRequest
    → Option Form
    → Option Session
    → List Bool
    → Throttles × Db
    → Response × (Throttles × Db)
post env w clock drawn r none session faults s = (error (http 400 (codes "invalid_form")), s)
post env w clock drawn r (some f) session faults s =
    if text_eq r.path (codes "/login")
    then post_login env w clock drawn r f faults s
    else post_action env drawn r f session faults s

-- The pages: `/request`, and `/` or `/inbox`.
abbrev request_page : Environment → OwnerRequest → Option Session → List Bool → Db → Response
request_page env r none faults db = error (http 401 (codes "owner_login_required"))
request_page env r (some s) faults db =
    reviewed s.csrf (transact (review_tx env r.query_id) faults db).0

abbrev home_page : Drawn → Option Session → Response
home_page drawn none = login_page drawn.csrf
home_page drawn (some s) = owner_page s.csrf none

abbrev pub is_static : OwnerRequest → Bool
is_static r =
    text_eq r.method (codes "GET")
    && (text_eq r.path (codes "/static/style.css") || text_eq r.path (codes "/static/poll.js"))

abbrev pub is_home : OwnerRequest → Bool
is_home r = text_eq r.path (codes "/") || text_eq r.path (codes "/inbox")

abbrev pub after_session :
    Environment
    → Passwords
    → ℕ
    → Drawn
    → OwnerRequest
    → Option Session
    → List Bool
    → Throttles × Db
    → Response × (Throttles × Db)
after_session env w clock drawn r session faults s =
    if text_eq r.method (codes "GET") && text_eq r.path (codes "/request")
    then (request_page env r session faults s.1, s)
    else if text_eq r.method (codes "GET") && is_home r
    then (home_page drawn session, s)
    else if not (text_eq r.method (codes "POST"))
    then (error (http 404 (codes "not_found")), s)
    else post env w clock drawn r r.form session faults s

-- `OwnerHandler`. `lost` is whether the query for the session fails: its error is dropped.
unfoldable pub handle_owner :
    Environment
    → Passwords
    → ℕ
    → Drawn
    → Text
    → OwnerRequest
    → Bool
    → List Bool
    → Throttles × Db
    → Response × (Throttles × Db)
unfolding origin_rejected live_session review_tx act handle_login get
handle_owner env w clock drawn owner_host r lost faults s =
    if origin_rejected owner_host r
    then (error (http 403 (codes "owner_origin_rejected")), s)
    else if is_static r
    then (static, s)
    else after_session env w clock drawn r
        (known (if lost then none else session_of env s.1 r.session)) faults s
