-- ===== src/Server/Claims.antt =====
-- What a claim does to the rows of the requests that were sent or are in flight.
use budge.Base.{
  arith, ◌≡◌, refl, sym, ap, subst, ◌∙◌, inl, inr, true, false, ◌&&◌, none, some, List, [], ◌∷◌, In,
  All-In, All-of_In, In-update, find, Bool-cases,
}
use mathlib.Core.Option.{some-injective}
use budge.Base.Text.{Text, text_eq, text_eq_iff}
use budge.Requests.Environment.{Environment}
use budge.Store.Tables.{Status, dispatching, is_queued, RequestRow, has_id, Db}
use budge.Server.Snapshot.{request_row}
use budge.Server.Lifecycle.{ids_of, In-ids_of, Distinct-In}
use budge.Server.Growth.{HasKeys}
use budge.Server.Left.{IsKept, IsKept_update, update-ids}
use budge.Server.Dispatch.{mark_dispatching, mark_finished, finish_row}

find_row :
    (id : Text) (rows : List RequestRow) (row : RequestRow)
    → find (has_id id) rows ≡ some row
    → In row rows × (row.id ≡ id)
find_row id [] row h = cc
find_row id (r ∷ rows) row h = elim (Bool-cases (text_eq r.id id)) [
  | inl e ↦
      let q : r ≡ row = some-injective _ _ (rw e at h) in
      (inl (sym q), ap (λ (x : RequestRow). x.id) (sym q) ∙ (text_eq_iff r.id id).0 e)
  | inr e ↦
      let k : find (has_id id) rows ≡ some row = rw e at h in
      let (m, same) = find_row id rows row k in (inr m, same)
]

-- The row that `WHERE id=?` finds.
pub request_row-In :
    (id : Text) (db : Db) (row : RequestRow)
    → request_row id db ≡ some row
    → In row db.requests × (row.id ≡ id)
unfolding request_row
request_row-In id db row h = find_row id db.requests row h

-- The row of the identifier is the only one.
pub only_row :
    (id : Text) (db : Db) (row r : RequestRow)
    → HasKeys db
    → request_row id db ≡ some row
    → In r db.requests
    → r.id ≡ id
    → r ≡ row
only_row id db row r k f m e =
    let (there, same) = request_row-In id db row f in
    Distinct-In db.requests r row k m there (e ∙ sym same)

-- A queued request is none of those whose rows are known not to be queued.
pub queued_apart :
    (Q : Status → Type 0) (ids : List Text) (id : Text) (db : Db) (row : RequestRow)
    → ((s : Status) → Q s → is_queued s ≡ false)
    → IsKept Q ids db
    → request_row id db ≡ some row
    → is_queued row.status ≡ true
    → ¬ In id ids
queued_apart Q ids id db row rest k f q m =
    let (there, same) = request_row-In id db row f in
    let h =
      rest row.status (All-In _ db.requests k.rows there (subst (λ t. In t ids) (sym same) m)) in
    cc

-- A successful claim: the request joins the others.
pub IsKept_claimed :
    (Q : Status → Type 0) (ids : List Text) (id : Text) (a b : Db) (row : RequestRow)
    → Q dispatching
    → IsKept Q ids a
    → request_row id a ≡ some row
    → is_queued row.status ≡ true
    → b.requests ≡ (mark_dispatching id a).requests
    → IsKept Q (id ∷ ids) b
unfolding mark_dispatching
IsKept_claimed Q ids id a b row good k f q e = record {
  keys = old.keys;
  known = (
    subst (λ l. In id l)
        (sym (
          ap ids_of e
          ∙ update-ids _ (λ r. record r { status = dispatching }) (λ r. refl) a.requests))
        (subst (λ t. In t (ids_of a.requests)) same (In-ids_of a.requests row there)),
    old.known,
  );
  rows = All-of_In _ b.requests λ y m. joined y m;
}
  where
    there : In row a.requests
    there = (request_row-In id a row f).0

    same : row.id ≡ id
    same = (request_row-In id a row f).1

    old : IsKept Q ids b
    old =
        IsKept_update Q ids _ (λ r. record r { status = dispatching }) (λ r. refl) a b e k
          (λ r m p i. good)

    joined : (y : RequestRow) → In y b.requests → In y.id (id ∷ ids) → Q y.status
    joined y m (inr i) = All-In _ b.requests old.rows m i
    joined y m (inl i) =
        let (x, mx, how) =
          In-update (λ (r : RequestRow). has_id id r && is_queued r.status)
            (λ r. record r { status = dispatching }) a.requests y (subst (In y) e m) in
        elim how [
          | inl (px, s) ↦ subst (λ (r : RequestRow). Q r.status) (sym s) good
          | inr (px, s) ↦
              let one : x ≡ row =
                only_row id a row x k.keys f mx (ap (λ (r : RequestRow). r.id) (sym s) ∙ i) in
              absurd (miss x one px)
        ]
      where
        miss : (x : RequestRow) → x ≡ row → (has_id id x && is_queued x.status) ≡ false → ⊥
        miss x one px =
            let t : text_eq x.id id ≡ true =
              (text_eq_iff x.id id).1 (ap (λ (r : RequestRow). r.id) one ∙ same) in
            let u : is_queued x.status ≡ true =
              ap (λ (r : RequestRow). is_queued r.status) one ∙ q in
            ground arith

-- A dropped claim leaves the rows of the others.
pub IsKept_dropped :
    (Q : Status → Type 0) (ids : List Text) (env : Environment) (id : Text) (t : Status)
    (reason : Text) (a b : Db) (row : RequestRow)
    → ((s : Status) → Q s → is_queued s ≡ false)
    → IsKept Q ids a
    → request_row id a ≡ some row
    → is_queued row.status ≡ true
    → b.requests ≡ (mark_finished env id t reason none a).requests
    → IsKept Q ids b
unfolding mark_finished
IsKept_dropped Q ids env id t reason a b row rest k f q e =
    IsKept_update Q ids (has_id id) (finish_row env id t reason none) (λ r. refl) a b e k
      λ r m p i. absurd (
        queued_apart Q ids id a row rest k f q
          (subst (λ x. In x ids) ((text_eq_iff r.id id).0 p) i))
