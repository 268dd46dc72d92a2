-- ===== src/Server/Worker.antt =====
-- internal/server/requests.go: one turn of the loop of `RunWorker`.
use budge.Base.{Bool, List, [], ◌∷◌, map, select, take, if◌then◌else◌}
use budge.Base.Text.{Text}
use budge.Requests.Environment.{Environment}
use budge.Store.Tables.{is_queued, RequestRow, Db}
use budge.Store.Transaction.{transact}
use budge.Server.Maintenance.{maintenance_tx}
use budge.Server.Slots.{Slots, acquire}

-- A queued request: its identifier and its device.
abbrev pub candidate_of : RequestRow → Text × Text
candidate_of r = (r.id, r.device_id)

-- `SELECT id,device_id FROM requests WHERE status='queued' ORDER BY created,id LIMIT 32`. The time of
-- creation is no column of the model's: `order` puts rows in that order.
unfoldable pub candidates : (List RequestRow → List RequestRow) → Db → List (Text × Text)
candidates order db =
    map candidate_of (take 32 (order (select (λ (r : RequestRow). is_queued r.status) db.requests)))

-- The loop over the candidates: the dispatches that it starts, and the slots that they hold. No
-- dispatch ends while the loop runs.
unfoldable pub launch : List (Text × Text) → Slots → List Text × Slots
unfolding acquire
launch [] s = ([], s)
launch ((id, device) ∷ cs) s =
    let (free, s') = acquire s device in
    let (started, s'') = launch cs s' in (if free then id ∷ started else started, s'')

-- A turn: the maintenance, whose error is dropped, and the dispatches; `lost` is whether the query
-- for the candidates fails.
unfoldable pub worker_turn :
    Environment
    → (List RequestRow → List RequestRow)
    → List Bool
    → Bool
    → Slots × Db
    → List Text × (Slots × Db)
unfolding maintenance_tx candidates launch
worker_turn env order faults lost (s, db) =
    let db' = (transact (maintenance_tx env) faults db).1 in
    let (started, s') = launch (candidates order db') s in
    if lost then ([], (s, db')) else (started, (s', db'))
