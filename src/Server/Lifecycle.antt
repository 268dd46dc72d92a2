-- ===== src/Server/Lifecycle.antt =====
-- The life of a request row: which statuses follow which, and which columns never change.
use budge.Base.{
  ℕ, ◌≡◌, refl, sym, ap, subst, ◌∙◌, ◌⊎◌, inl, inr, Bool, true, false, Option, List, [], ◌∷◌, map,
  arith, All, In, update, select, Bool-cases,
}
use budge.Base.Text.{Text}
use budge.Store.Tables.{
  Status, pending_approval, queued, dispatching, completed, failed, outcome_unknown, denied,
  expired, cancelled, is_waiting, is_dispatching, RequestRow,
}

-- The moves of all operations but a claim, its end and a restart.
pub data Quiet : Status → Status → Type 0 where
  approve : Quiet pending_approval queued
  deny : Quiet pending_approval denied
  refuse : Quiet queued failed
  lapse : {s : Status} → is_waiting s ≡ true → Quiet s expired
  cancel : {s : Status} → is_waiting s ≡ true → Quiet s cancelled

-- The moves from a claim on.
pub data Sending : Status → Status → Type 0 where
  claim : Sending queued dispatching
  complete : Sending dispatching completed
  fail : Sending dispatching failed
  lose : Sending dispatching outcome_unknown

pub loses : (s : Status) → is_dispatching s ≡ true → Sending s outcome_unknown
loses dispatching h = lose
loses _ h = cc

module _ (S : Status → Status → Type 0) where
  pub data Star (s : Status) : Status → Type 0 where
    here : Star s s
    next : {t u : Status} → Star s t → S t u → Star s u

  -- A row after moves of its status; the columns that identify it stay.
  pub record IsMoved (r r' : RequestRow) : Type 0 where
    pub id : r'.id ≡ r.id
    pub device_id : r'.device_id ≡ r.device_id
    pub service_id : r'.service_id ≡ r.service_id
    pub revision : r'.revision ≡ r.revision
    pub permission_id : r'.permission_id ≡ r.permission_id
    pub key_hash : r'.key_hash ≡ r.key_hash
    pub submission_digest : r'.submission_digest ≡ r.submission_digest
    pub snapshot_digest : r'.snapshot_digest ≡ r.snapshot_digest
    pub expires : r'.expires ≡ r.expires
    pub status : Star r.status r'.status

abbrev pub Pointwise {ℓ} : {A : Type ℓ} → (A → A → Type 0) → List A → List A → Type 0
Pointwise R [] [] = Unit
Pointwise R [] (y ∷ ys) = ⊥
Pointwise R (x ∷ xs) [] = ⊥
Pointwise R (x ∷ xs) (y ∷ ys) = R x y × Pointwise R xs ys

pub Pointwise-update {ℓ} :
    {A : Type ℓ} (R : A → A → Type 0) (Q : A → Type 0) (p : A → Bool) (f : A → A) (xs ys : List A)
    → ((x y : A) → R x y → Q y → p y ≡ true → R x (f y))
    → Pointwise R xs ys
    → All Q ys
    → Pointwise R xs (update p f ys)
Pointwise-update R Q p f [] [] k h q = tt
Pointwise-update R Q p f [] (y ∷ ys) k h q = elim h [ ]
Pointwise-update R Q p f (x ∷ xs) [] k h q = elim h [ ]
Pointwise-update R Q p f (x ∷ xs) (y ∷ ys) k (r, h) (qy, q) = (
  elim (Bool-cases (p y)) [ inl e ↦ rw e (k x y r qy e) | inr e ↦ rw e r ],
  Pointwise-update R Q p f xs ys k h q,
)

-- The rows of an UPDATE and the rows before.
pub Pointwise-updated {ℓ} :
    {A : Type ℓ} (R : A → A → Type 0) (p : A → Bool) (f : A → A) (xs : List A)
    → ((x : A) → p x ≡ true → R x (f x))
    → ((x : A) → p x ≡ false → R x x)
    → Pointwise R xs (update p f xs)
Pointwise-updated R p f [] k l = tt
Pointwise-updated R p f (x ∷ xs) k l = (
  elim (Bool-cases (p x)) [ inl e ↦ rw e (k x e) | inr e ↦ rw e (l x e) ],
  Pointwise-updated R p f xs k l,
)

pub Pointwise-map {ℓ} :
    {A : Type ℓ} {R R' : A → A → Type 0}
    → ((x y : A) → R x y → R' x y)
    → (xs ys : List A) → Pointwise R xs ys
    → Pointwise R' xs ys
Pointwise-map f [] [] h = tt
Pointwise-map f [] (y ∷ ys) h = h
Pointwise-map f (x ∷ xs) [] h = h
Pointwise-map f (x ∷ xs) (y ∷ ys) (r, h) = (f x y r, Pointwise-map f xs ys h)

-- What holds of every element on either side may be used on each pair.
pub Pointwise-All {ℓ} :
    {A : Type ℓ} (R : A → A → Type 0) (P Q : A → Type 0) (xs ys : List A)
    → All P xs
    → All Q ys
    → Pointwise R xs ys
    → Pointwise (λ x y. P x × Q y × R x y) xs ys
Pointwise-All R P Q [] [] p q h = tt
Pointwise-All R P Q [] (y ∷ ys) p q h = h
Pointwise-All R P Q (x ∷ xs) [] p q h = h
Pointwise-All R P Q (x ∷ xs) (y ∷ ys) (p, ps) (q, qs) (r, h) =
    ((p, q, r), Pointwise-All R P Q xs ys ps qs h)

module _ {S : Status → Status → Type 0} where
  pub Star-trans : {s t u : Status} → Star S s t → Star S t u → Star S s u
  Star-trans p here = p
  Star-trans p (next q m) = next (Star-trans p q) m

  pub IsMoved-trans : {q r s : RequestRow} → IsMoved S q r → IsMoved S r s → IsMoved S q s
  IsMoved-trans a b = record {
    id = b.id ∙ a.id;
    device_id = b.device_id ∙ a.device_id;
    service_id = b.service_id ∙ a.service_id;
    revision = b.revision ∙ a.revision;
    permission_id = b.permission_id ∙ a.permission_id;
    key_hash = b.key_hash ∙ a.key_hash;
    submission_digest = b.submission_digest ∙ a.submission_digest;
    snapshot_digest = b.snapshot_digest ∙ a.snapshot_digest;
    expires = b.expires ∙ a.expires;
    status = Star-trans a.status b.status;
  }

  pub IsMoved_refl : (r : RequestRow) → IsMoved S r r
  IsMoved_refl r = record {
    id = refl;
    device_id = refl;
    service_id = refl;
    revision = refl;
    permission_id = refl;
    key_hash = refl;
    submission_digest = refl;
    snapshot_digest = refl;
    expires = refl;
    status = here;
  }

module _ {S : Status → Status → Type 0} where
  -- A row whose other columns are given anew.
  pub moved_to :
      (r : RequestRow) (t : Status) (snapshot : Option Text) (finished : Option ℕ)
      (result : Option Text) (reason : Text)
      → Star S r.status t
      → IsMoved S r (record r {
        snapshot = snapshot;
        status = t;
        finished = finished;
        result = result;
        reason = reason;
      })
  moved_to r t snapshot finished result reason h = record {
    id = refl;
    device_id = refl;
    service_id = refl;
    revision = refl;
    permission_id = refl;
    key_hash = refl;
    submission_digest = refl;
    snapshot_digest = refl;
    expires = refl;
    status = h;
  }

module _ (S : Status → Status → Type 0) where
  pub Moved_refl : (rows : List RequestRow) → Pointwise (IsMoved S) rows rows
  Moved_refl [] = tt
  Moved_refl (r ∷ rows) = (IsMoved_refl r, Moved_refl rows)

  -- An UPDATE that moves the rows that it finds.
  pub Moved-update :
      (p : RequestRow → Bool) (f : RequestRow → RequestRow) (xs ys : List RequestRow)
      → Pointwise (IsMoved S) xs ys
      → All (λ y. p y ≡ true → IsMoved S y (f y)) ys
      → Pointwise (IsMoved S) xs (update p f ys)
  Moved-update p f xs ys =
      Pointwise-update (IsMoved S) (λ y. p y ≡ true → IsMoved S y (f y)) p f xs ys
        (λ x y m k e. IsMoved-trans m (k e))

  pub Moved-ids :
      (xs ys : List RequestRow)
      → Pointwise (IsMoved S) xs ys
      → map (λ (r : RequestRow). r.id) ys ≡ map (λ (r : RequestRow). r.id) xs
  Moved-ids [] [] h = refl
  Moved-ids [] (y ∷ ys) h = elim h [ ]
  Moved-ids (x ∷ xs) [] h = elim h [ ]
  Moved-ids (x ∷ xs) (y ∷ ys) (m, h) = cc (m.id, Moved-ids xs ys h)

-- The identifiers of the rows are distinct, as the primary key has it.
abbrev pub Distinct : List Text → Type 0
Distinct [] = Unit
Distinct (x ∷ xs) = (¬ In x xs) × Distinct xs

abbrev pub ids_of : List RequestRow → List Text
ids_of rows = map (λ (r : RequestRow). r.id) rows

pub In-ids_of : (rows : List RequestRow) (r : RequestRow) → In r rows → In r.id (ids_of rows)
In-ids_of [] r h = h
In-ids_of (x ∷ rows) r (inl e) = inl (ap (λ (q : RequestRow). q.id) e)
In-ids_of (x ∷ rows) r (inr h) = inr (In-ids_of rows r h)

-- Rows of one identifier are one row.
pub Distinct-In :
    (rows : List RequestRow) (q r : RequestRow)
    → Distinct (ids_of rows)
    → In q rows
    → In r rows
    → q.id ≡ r.id
    → q ≡ r
Distinct-In [] q r d h k e = elim h [ ]
Distinct-In (x ∷ rows) q r (d, ds) (inl a) (inl b) e = a ∙ sym b
Distinct-In (x ∷ rows) q r (d, ds) (inl a) (inr k) e = absurd (
    d (
      subst (λ t. In t (ids_of rows)) (sym e ∙ ap (λ (s : RequestRow). s.id) a)
        (In-ids_of rows r k)))
Distinct-In (x ∷ rows) q r (d, ds) (inr h) (inl b) e =
    absurd (
      d (
        subst (λ t. In t (ids_of rows)) (e ∙ ap (λ (s : RequestRow). s.id) b) (In-ids_of rows q h)))
Distinct-In (x ∷ rows) q r (d, ds) (inr h) (inr k) e = Distinct-In rows q r ds h k e

-- The rows that `SELECT id FROM requests WHERE p` found.
pub In-select_ids :
    (p : RequestRow → Bool) (rows : List RequestRow) (t : Text)
    → In t (ids_of (select p rows))
    → (r : RequestRow) × In r rows × (p r ≡ true) × (t ≡ r.id)
In-select_ids p [] t h = elim h [ ]
In-select_ids p (r ∷ rows) t h = elim (Bool-cases (p r)) [
  | inl e ↦
      let h' : (t ≡ r.id) ⊎ In t (ids_of (select p rows)) = rw e at h in
      elim h' [ inl q ↦ (r, inl refl, e, q) | inr m ↦ later (In-select_ids p rows t m) ]
  | inr e ↦ let h' : In t (ids_of (select p rows)) = rw e at h in later (In-select_ids p rows t h')
]
  where
    later :
        ((q : RequestRow) × In q rows × (p q ≡ true) × (t ≡ q.id))
        → (q : RequestRow) × In q (r ∷ rows) × (p q ≡ true) × (t ≡ q.id)
    later (q, m, e, same) = (q, inr m, e, same)

-- Quiet moves leave what does not wait.
Quiet-waits : {s t : Status} → Quiet s t → is_waiting s ≡ true
Quiet-waits approve = refl
Quiet-waits deny = refl
Quiet-waits refuse = refl
Quiet-waits (lapse h) = h
Quiet-waits (cancel h) = h

pub Quiet-still : {s t : Status} → Star Quiet s t → is_waiting s ≡ false → t ≡ s
Quiet-still here h = refl
Quiet-still (next p m) h = ground (arith, Quiet-still p h, Quiet-waits m)

-- A claim is the only way to be dispatching, and quiet moves do not lead there.
pub Quiet-dispatching : {s t : Status} → Star Quiet s t → t ≡ dispatching → s ≡ dispatching
Quiet-dispatching here h = h
Quiet-dispatching (next p approve) h = cc
Quiet-dispatching (next p deny) h = cc
Quiet-dispatching (next p refuse) h = cc
Quiet-dispatching (next p (lapse w)) h = cc
Quiet-dispatching (next p (cancel w)) h = cc
