-- ===== src/Server/Apart.antt =====
-- Permissions in force that do not overlap, and a new one among them.
use budge.Base.{
  some, arith, ℕ, ◌≡◌, refl, sym, subst, ◌∙◌, inl, inr, Bool, true, false, List, [], ◌∷◌, ◌++◌,
  ==_iff, All, In, All-In, any, select, Bool-cases, Bool-ext, if◌then◌else◌,
}
use budge.Base.Text.{Text, text_eq_iff}
use budge.Access.Scope.{Permission, matches, overlap}
use budge.Access.Overlap.{overlap_iff}
use budge.Store.Tables.{PermissionRow, Db}
use budge.Server.Authorize.{in_force, permissions_in_force}
use budge.Server.Owner.{insert_permission}

abbrev pub Apart : List PermissionRow → Type 0
Apart [] = Unit
Apart (p ∷ ps) =
    All (λ (q : PermissionRow). overlap p.permission q.permission ≡ false) ps × Apart ps

-- No two permissions of the device, the service and the revision that are in force overlap.
abbrev pub IsApart : ℕ → Text → Text → ℕ → Db → Type 0
IsApart now device service revision db = Apart (permissions_in_force now device service revision db)

-- Overlap is symmetric.
overlap_comm : (a b : Permission) → overlap a b ≡ overlap b a
overlap_comm a b = Bool-ext (overlap a b) (overlap b a) (turn a b) (turn b a)
  where
    turn : (a b : Permission) → overlap a b ≡ true → overlap b a ≡ true
    turn a b h = let (m, t, ma, mb) = (overlap_iff a b).0 h in (overlap_iff b a).1 (m, t, mb, ma)

-- Permissions that do not overlap do not both match.
overlap-false :
    (a b : Permission) (m t : Text)
    → overlap a b ≡ false
    → matches a m t ≡ true
    → matches b m t ≡ true
    → ⊥
overlap-false a b m t h ma mb = let k = (overlap_iff a b).1 (m, t, ma, mb) in cc

-- Where the permissions in force do not overlap, two of them that match one request are one row.
pub Apart-matches :
    (rows : List PermissionRow) (p q : PermissionRow) (m t : Text)
    → Apart rows
    → In p rows
    → In q rows
    → matches p.permission m t ≡ true
    → matches q.permission m t ≡ true
    → p ≡ q
Apart-matches [] p q m t d i j mp mq = elim i [ ]
Apart-matches (r ∷ rows) p q m t (o, d) (inl e) (inl e') mp mq = e ∙ sym e'
Apart-matches (r ∷ rows) p q m t (o, d) (inl e) (inr j) mp mq = absurd (
    overlap-false r.permission q.permission m t (All-In _ rows o j)
      (subst (λ (x : PermissionRow). matches x.permission m t ≡ true) e mp) mq)
Apart-matches (r ∷ rows) p q m t (o, d) (inr i) (inl e') mp mq = absurd (
    overlap-false r.permission p.permission m t (All-In _ rows o i)
      (subst (λ (x : PermissionRow). matches x.permission m t ≡ true) e' mq) mp)
Apart-matches (r ∷ rows) p q m t (o, d) (inr i) (inr j) mp mq =
    Apart-matches rows p q m t d i j mp mq

Apart-append :
    (rows : List PermissionRow) (c : PermissionRow)
    → Apart rows
    → any (λ (r : PermissionRow). overlap c.permission r.permission) rows ≡ false
    → Apart (rows ++ (c ∷ []))
Apart-append [] c d h = (tt, tt)
Apart-append (r ∷ rows) c (o, d) h = (All-append rows o, Apart-append rows c d (ground (arith, h)))
  where
    first : overlap r.permission c.permission ≡ false
    first = overlap_comm r.permission c.permission ∙ ground (arith, h)

    All-append :
        (l : List PermissionRow)
        → All (λ (q : PermissionRow). overlap r.permission q.permission ≡ false) l
        → All (λ (q : PermissionRow). overlap r.permission q.permission ≡ false) (l ++ (c ∷ []))
    All-append [] a = (first, tt)
    All-append (q ∷ l) (a, rest) = (a, All-append l rest)

select-append :
    (p : PermissionRow → Bool) (rows : List PermissionRow) (c : PermissionRow)
    → select p (rows ++ (c ∷ [])) ≡ (if p c then select p rows ++ (c ∷ []) else select p rows)
select-append p [] c = elim (Bool-cases (p c)) [ inl e ↦ rw e refl | inr e ↦ rw e refl ]
select-append p (r ∷ rows) c = elim (Bool-cases (p c)) [
  | inl e ↦ elim (Bool-cases (p r)) [
    | inl f ↦ rw (f, select-append p rows c, e) refl
    | inr f ↦ rw (f, select-append p rows c, e) refl
  ]
  | inr e ↦ elim (Bool-cases (p r)) [
    | inl f ↦ rw (f, select-append p rows c, e) refl
    | inr f ↦ rw (f, select-append p rows c, e) refl
  ]
]

-- A permission in force belongs to its own device, service and revision.
in_force_own :
    (now : ℕ) (device service : Text) (revision : ℕ) (c : PermissionRow)
    → in_force now device service revision c ≡ true
    → (c.device_id ≡ device) × (c.service_id ≡ service) × (c.revision ≡ revision)
unfolding in_force
in_force_own now device service revision c h = ground (
  arith,
  h,
  text_eq_iff c.device_id device,
  text_eq_iff c.service_id service,
  ==_iff c.revision revision,
)

insert_permission-some :
    (c : Permission) (db db' : Db)
    → insert_permission c db ≡ some db'
    → db'.permissions ≡ db.permissions ++ (record { permission = c; revoked = false } ∷ [])
unfolding insert_permission
insert_permission-some c db db' h = ground (arith, h)

-- The table with a permission that overlaps no other of its kind.
pub insert-Apart :
    (now : ℕ) (device service : Text) (revision : ℕ) (c : Permission) (db : Db)
    → any
        (λ (r : PermissionRow). overlap c r.permission)
        (permissions_in_force now c.device_id c.service_id c.revision db)
      ≡ false
    → IsApart now device service revision db
    → (db' : Db) → insert_permission c db ≡ some db'
    → IsApart now device service revision db'
unfolding permissions_in_force
insert-Apart now device service revision c db free d db' h =
    rw (insert_permission-some c db db' h)
      (elim (Bool-cases (in_force now device service revision row)) [
        | inl e ↦
            rw (select-append (in_force now device service revision) db.permissions row, e)
              (Apart-append _ row d (own (in_force_own now device service revision row e)))
        | inr e ↦ rw (select-append (in_force now device service revision) db.permissions row, e) d
      ])
  where
    row : PermissionRow
    row = record { permission = c; revoked = false }

    own :
        (c.device_id ≡ device) × (c.service_id ≡ service) × (c.revision ≡ revision)
        → any
            (λ (r : PermissionRow). overlap c r.permission)
            (select (in_force now device service revision) db.permissions)
          ≡ false
    own (a, b, e) = rw (sym a, sym b, sym e) free
