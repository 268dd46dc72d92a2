-- ===== src/Store/Migrate.antt =====
-- internal/store/store.go: `migrate`. A migration's SQL is a function on the database's contents that
-- may fail; each one runs in a transaction of its own with the new `PRAGMA user_version`.
use budge.Base.{
  ℕ, suc, Bool, true, false, Option, none, some, List, [], ◌∷◌, leb, ltb, length, if◌then◌else◌,
}

module _ {F D : Type 0} (run : F → D → Option D) where
  pub record Schema : Type 0 where
    pub content : D
    pub version : ℕ

  abbrev pub installed : ℕ → Option D → Option Schema
  installed i none = none
  installed i (some d) = some (record { content = d; version = suc i })

  -- The transaction of one file, `failed` being whether one of its other statements fails.
  abbrev pub migrate_file : Bool → ℕ → F → Schema → Option Schema
  migrate_file true i f s = none
  migrate_file false i f s = installed i (run f s.content)

  -- What follows a file's transaction: its error ends the loop.
  abbrev pub after_file : Schema → Option Schema → (Schema → Bool × Schema) → Bool × Schema
  after_file s none rest = (false, s)
  after_file s (some s') rest = rest s'

  abbrev pub first_fault : List Bool → Bool
  first_fault [] = false
  first_fault (b ∷ bs) = b

  abbrev pub later_faults : List Bool → List Bool
  later_faults [] = []
  later_faults (b ∷ bs) = bs

  -- The loop over the files from the index on; `version` is the one that was read before it.
  unfoldable pub migrate_from : ℕ → List F → ℕ → List Bool → Schema → Bool × Schema
  migrate_from i [] version faults s = (true, s)
  migrate_from i (f ∷ files) version faults s =
      let skip = migrate_from (suc i) files version faults s in
      if leb (suc i) version
      then skip
      else after_file s (migrate_file (first_fault faults) i f s)
          (migrate_from (suc i) files version (later_faults faults))

  -- `migrate`: whether it succeeds, and the database that it leaves.
  unfoldable pub migrate : List F → List Bool → Schema → Bool × Schema
  unfolding migrate_from
  migrate files faults s =
      if ltb (length files) s.version then (false, s) else migrate_from 0 files s.version faults s
