-- ===== src/Server/Started.antt =====
-- Which dispatches a turn of the worker starts.
use budge.Base.{
  ℕ, suc, ◌≤◌, arith, ◌≡◌, sym, ap, subst, ◌⊎◌, inl, inr, Bool, true, false, ◌||◌, List, [], ◌∷◌,
  map, select, take, leb, leb_iff, In, Bool-cases,
}
use budge.Base.Text.{Text, text_eq_iff}
use budge.Requests.Environment.{Environment}
use budge.Store.Tables.{is_queued, RequestRow, Db}
use budge.Store.Transaction.{transact}
use budge.Server.Maintenance.{maintenance_tx}
use budge.Server.Slots.{Slots, active_of, set_active, acquire}
use budge.Server.SlotBounds.{IsBounded, acquire-IsBounded}
use budge.Server.SlotBalance.{active_of-set_active}
use budge.Server.Worker.{candidate_of, candidates, launch, worker_turn}

-- No slot is free for the device.
abbrev pub Full : Slots → Text → Type 0
Full s device = (leb 32 s.global || leb 4 (active_of s.active device)) ≡ true

-- `acquire` frees no slot.
acquire-Full : (s : Slots) (device t : Text) → Full s t → Full (acquire s device).1 t
unfolding acquire
acquire-Full s device t h =
    elim (Bool-cases (leb 32 s.global || leb 4 (active_of s.active device))) [
      | inl e ↦ rw e h
      | inr e ↦
          rw e
            (raised s.global (suc s.global) (active_of s.active t) _ (ground arith) (counted t) h)
    ]
  where
    raised :
        (a b x y : ℕ) → a ≤ b → x ≤ y → (leb 32 a || leb 4 x) ≡ true → (leb 32 b || leb 4 y) ≡ true
    raised a b x y p q h =
        ground (arith, p, q, h, leb_iff 32 a, leb_iff 4 x, leb_iff 32 b, leb_iff 4 y)

    counted :
        (t : Text)
        → active_of s.active t
          ≤ active_of (set_active s.active device (suc (active_of s.active device))) t
    counted t = ground (
      arith,
      active_of-set_active s.active device t (suc (active_of s.active device)),
      text_eq_iff t device,
    )

launch-Full : (cs : List (Text × Text)) (s : Slots) (t : Text) → Full s t → Full (launch cs s).1 t
unfolding launch
launch-Full [] s t h = h
launch-Full ((id, device) ∷ cs) s t h =
    launch-Full cs (acquire s device).1 t (acquire-Full s device t h)

refused-Full : (s : Slots) (device : Text) → (acquire s device).0 ≡ false → Full s device
unfolding acquire
refused-Full s device h = elim (Bool-cases (leb 32 s.global || leb 4 (active_of s.active device))) [
  | inl e ↦ e
  | inr e ↦ let q : true ≡ false = rw e at h in cc
]

launch-starts :
    (cs : List (Text × Text)) (s : Slots) (c : Text × Text)
    → In c cs
    → In c.0 (launch cs s).0 ⊎ Full (launch cs s).1 c.1
unfolding launch
launch-starts [] s c m = elim m [ ]
launch-starts ((id, device) ∷ cs) s c m = elim (Bool-cases (acquire s device).0) [
  | inl e ↦ elim m [
    | inl same ↦ rw e (inl (inl (ap (λ (x : Text × Text). x.0) same)))
    | inr later ↦ rw e (elim (launch-starts cs (acquire s device).1 c later) [
      | inl there ↦ inl (inr there)
      | inr full ↦ inr full
    ])
  ]
  | inr e ↦ elim m [
    | inl same ↦ inr (
        subst (Full (launch cs (acquire s device).1).1) (ap (λ (x : Text × Text). x.1) (sym same)) (
          launch-Full cs (acquire s device).1 device
            (acquire-Full s device device (refused-Full s device e))))
    | inr later ↦ rw e (launch-starts cs (acquire s device).1 c later)
  ]
]

launch-IsBounded : (cs : List (Text × Text)) (s : Slots) → IsBounded s → IsBounded (launch cs s).1
unfolding launch
launch-IsBounded [] s h = h
launch-IsBounded ((id, device) ∷ cs) s h =
    launch-IsBounded cs (acquire s device).1 (acquire-IsBounded s device h)

map-In :
    (r : RequestRow) (rows : List RequestRow)
    → In r rows
    → In (candidate_of r) (map candidate_of rows)
map-In r [] m = m
map-In r (x ∷ rows) (inl e) = inl (ap candidate_of e)
map-In r (x ∷ rows) (inr m) = inr (map-In r rows m)

-- A turn of the worker whose query comes through starts a dispatch for each queued request among
-- the first 32, in the order of the query, unless no slot is left for its device: after the turn 32
-- slots are taken, or 4 by the device. The bounds of the slots are kept. No dispatch ends during
-- the turn.
pub worker_turn-starts :
    (env : Environment) (order : List RequestRow → List RequestRow) (faults : List Bool) (s : Slots)
    (db : Db) (r : RequestRow)
    → IsBounded s
    → In r (
        take 32 (
          order (
            select
              (λ (x : RequestRow). is_queued x.status)
              (transact (maintenance_tx env) faults db).1.requests)))
    → (In r.id (worker_turn env order faults false (s, db)).0
        ⊎ Full (worker_turn env order faults false (s, db)).1.0 r.device_id)
      × IsBounded (worker_turn env order faults false (s, db)).1.0
unfolding worker_turn candidates
worker_turn-starts env order faults s db r bounded m = (
  launch-starts (candidates order (transact (maintenance_tx env) faults db).1) s (candidate_of r)
      (map-In r _ m),
  launch-IsBounded (candidates order (transact (maintenance_tx env) faults db).1) s bounded,
)
