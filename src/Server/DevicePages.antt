-- ===== src/Server/DevicePages.antt =====
-- internal/server: the pages of the devices: `services` of server.go, `submit` and `status` of
-- requests.go.
use budge.Base.{
  ℕ, ◌*◌, ◌==◌, Bool, true, false, ◌&&◌, ◌||◌, Option, none, some, List, [], ◌∷◌, ◌++◌, map, select,
  ltb, if◌then◌else◌,
}
use budge.Base.Text.{Text, codes, text_eq, split}
use budge.Access.Scope.{Kind, Mode}
use budge.Requests.Types.{Submission, http, Outcome, ok, err}
use budge.Requests.Environment.{Environment}
use budge.Requests.Normalize.{normalize}
use budge.Store.Tables.{terminal, ServiceRow, PermissionRow, Db}
use budge.Store.Transaction.{transact}
use budge.Server.Authorize.{in_force}
use budge.Server.Submit.{submit_tx}
use budge.Server.Status.{StatusView, status_tx}
use budge.Server.Handler.{unavailable, decode, Throttles, throttle_key}

-- The pages of `DeviceHandler`; all but the first are for a device that `device` has found.
pub data Page : Type 0 where
  enroll_page renew_page services_page submit_page status_page forward_page : Page

-- The tests of the handler, in order.
unfoldable pub page_of : Text → Text → Page
page_of path method =
    if text_eq path (codes "/enroll") && text_eq method (codes "POST")
    then enroll_page
    else if text_eq path (codes "/device/renew") && text_eq method (codes "POST")
    then renew_page
    else if text_eq path (codes "/device/services") && text_eq method (codes "GET")
    then services_page
    else if text_eq path (codes "/device/request") && text_eq method (codes "POST")
    then submit_page
    else if text_eq path (codes "/device/status") && text_eq method (codes "POST")
    then status_page
    else forward_page

-- One entry of the answer of `services`; the expiry is printed as a time.
pub record Scope : Type 0 where
  pub service : Text
  pub label : Text
  pub permission_id : Text
  pub methods : List Text
  pub path : Text
  pub path_kind : Kind
  pub mode : Mode
  pub expires : Option ℕ

-- `s.enabled=1 AND p.service_id=s.id AND` the tests of the permission.
unfoldable pub is_listed : ℕ → Text → ServiceRow → PermissionRow → Bool
unfolding in_force
is_listed now device s p = s.enabled && in_force now device s.id s.revision p

-- Texts in the order of their bytes.
unfoldable pub before : Text → Text → Bool
before [] t = true
before (c ∷ s) [] = false
before (c ∷ s) (d ∷ t) = let rest = before s t in ltb c d || (c == d && rest)

-- The rows of the `JOIN`, and their `ORDER BY s.id,p.id`.
abbrev pub Row : Type 0
Row = ServiceRow × PermissionRow

abbrev pub row_before : Row → Row → Bool
row_before (s, p) (t, q) = if text_eq s.id t.id then before p.id q.id else before s.id t.id

unfoldable pub insert_row : Row → List Row → List Row
unfolding before
insert_row r [] = r ∷ []
insert_row r (q ∷ rows) =
    let rest = insert_row r rows in if row_before r q then r ∷ q ∷ rows else q ∷ rest

unfoldable pub sort_rows : List Row → List Row
unfolding insert_row
sort_rows [] = []
sort_rows (r ∷ rows) = insert_row r (sort_rows rows)

unfoldable pub join_rows : ℕ → Text → List ServiceRow → List PermissionRow → List Row
unfolding is_listed
join_rows now device [] ps = []
join_rows now device (s ∷ ss) ps =
    map (λ p. (s, p)) (select (is_listed now device s) ps) ++ join_rows now device ss ps

abbrev pub scope_of : Row → Scope
scope_of (s, p) = record {
  service = s.id;
  label = s.label;
  permission_id = p.id;
  methods = split b',' p.method;
  path = p.path;
  path_kind = p.kind;
  mode = p.mode;
  expires = p.expires;
}

-- `services`: what the device may do.
unfoldable pub listed_rows : ℕ → Text → Db → List Row
unfolding sort_rows join_rows
listed_rows now device db = sort_rows (join_rows now device db.services db.permissions)

unfoldable pub services : ℕ → Text → Db → List Scope
unfolding listed_rows
services now device db = map scope_of (listed_rows now device db)

abbrev after_submit : Environment → Text → List Bool → Outcome Text × Db → Outcome StatusView × Db
after_submit env device faults (err e, db) = (err e, db)
after_submit env device faults (ok id, db) =
    (answer (transact (status_tx env device id) faults db).0, db)
  where
    answer : Outcome StatusView → Outcome StatusView
    answer (ok view) = ok view
    answer (err e) = err unavailable

abbrev after_normalize :
    Environment → Text → List Bool → List Bool → Db → Outcome Submission → Outcome StatusView × Db
after_normalize env device faults faults' db (err e) = (err e, db)
after_normalize env device faults faults' db (ok s) =
    after_submit env device faults' (transact (submit_tx env device s) faults db)

abbrev after_decode :
    Environment → Text → List Bool → List Bool → Db → Option Submission → Outcome StatusView × Db
after_decode env device faults faults' db none = (err (http 400 (codes "invalid_submission")), db)
after_decode env device faults faults' db (some s) =
    after_normalize env device faults faults' db (normalize env s)

-- `submit`: the error of `Submit` is answered as it is, with the status that `submit_status` of
-- Submit.antt gives it.
unfoldable pub handle_submit :
    Environment
    → (Text → Option (Submission × Text))
    → ℕ
    → Text
    → Text
    → List Bool
    → List Bool
    → Throttles × Db
    → Outcome StatusView × (Throttles × Db)
unfolding throttle_key decode normalize submit_tx status_tx
handle_submit env parse clock device body faults faults' (times, db) =
    let (free, times') = throttle_key clock (codes "submit:" ++ device) 30 times in
    let (answer, db') =
      after_decode env device faults faults' db (decode parse (512 * 1024) body) in
    if free then (answer, (times', db')) else (err (http 429 (codes "throttled")), (times', db))

-- One turn of the loop of `status`: the tables and the environment then, whether the deadline is
-- over, and whether the client has gone.
pub record Poll : Type 0 where
  pub env : Environment
  pub db : Db
  pub faults : List Bool
  pub late : Bool
  pub gone : Bool

abbrev polled :
    Bool → Bool → Outcome StatusView → Option (Outcome StatusView) → Option (Outcome StatusView)
polled stop gone (err e) rest = some (err (http 404 (codes "request_not_found")))
polled stop gone (ok view) rest =
    if stop || terminal view.status then some (ok view) else if gone then none else rest

-- The loop of `status`; `none` is no answer, of a client that has gone or waits still.
unfoldable pub poll_status : Text → Text → ℕ → List Poll → Option (Outcome StatusView)
unfolding status_tx
poll_status device id wait [] = none
poll_status device id wait (p ∷ ps) =
    polled (wait == 0 || p.late) p.gone (transact (status_tx p.env device id) p.faults p.db).0
      (poll_status device id wait ps)

abbrev waited : Text → List Poll → Option (Text × ℕ) → Option (Outcome StatusView)
waited device polls none = some (err (http 400 (codes "invalid_status_request")))
waited device polls (some (id, wait)) =
    if ltb 15 wait
    then some (err (http 400 (codes "invalid_status_request")))
    else poll_status device id wait polls

-- `status`; `parse` gives the identifier and the seconds to wait, and refuses negative ones.
unfoldable pub handle_status :
    (Text → Option ((Text × ℕ) × Text)) → Text → Text → List Poll → Option (Outcome StatusView)
unfolding decode poll_status
handle_status parse device body polls = waited device polls (decode parse 4096 body)
