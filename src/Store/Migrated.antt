-- ===== src/Store/Migrated.antt =====
-- `migrate` leaves a database at the version that it says, and comes to the last one.
use budge.Base.{
  ℕ, suc, ◌+◌, ◌≤◌, arith, ◌≡◌, refl, sym, ap, ap₂, subst, ◌∙◌, inl, inr, Bool, true, false, Option,
  none, some, List, [], ◌∷◌, ◌++◌, leb, leb_iff, ltb, ltb_iff, length, Option-cases,
}
use mathlib.Core.Option.{some-injective}
use budge.Store.Migrate.{
  Schema, installed, migrate_file, after_file, first_fault, later_faults, migrate_from, migrate,
}

module _ {F D : Type 0} (run : F → D → Option D) where
  abbrev pub then_run : List F → Option D → (D → Option D) → Option D
  then_run fs none k = none
  then_run fs (some d) k = k d

  -- Some files, one after the other.
  unfoldable pub run_all : List F → D → Option D
  run_all [] d = some d
  run_all (f ∷ fs) d = then_run fs (run f d) (run_all fs)

  -- The contents are those of the first files, as many as the version says.
  pub record IsAt (files : List F) (base : D) (s : Schema run) : Type 0 where
    pub past : List F
    pub rest : List F
    pub split : files ≡ past ++ rest
    pub counted : length past ≡ s.version
    pub contents : run_all past base ≡ some s.content

  run_all-append :
      (fs gs : List F) (d e : D) → run_all fs d ≡ some e → run_all (fs ++ gs) d ≡ run_all gs e
  unfolding run_all
  run_all-append [] gs d e h = ap (run_all gs) (some-injective _ _ h)
  run_all-append (f ∷ fs) gs d e h = elim (Option-cases (run f d)) [
    | inl n ↦ let q : ◌≡◌ {A = Option D} none (some e) = rw (n, run_all) at h in cc
    | inr (x, n) ↦
        let q : run_all fs x ≡ some e = rw (n, run_all) at h in rw n (run_all-append fs gs x e q)
  ]

  single : (f : F) (d e : D) → run f d ≡ some e → run_all (f ∷ []) d ≡ some e
  unfolding run_all
  single f d e n = rw n refl

  length-snoc : (fs : List F) (f : F) → length (fs ++ (f ∷ [])) ≡ suc (length fs)
  length-snoc [] f = ground arith
  length-snoc (x ∷ fs) f = ground (arith, length-snoc fs f)

  length-append : (fs gs : List F) → length (fs ++ gs) ≡ length fs + length gs
  length-append [] gs = ground arith
  length-append (x ∷ fs) gs = ground (arith, length-append fs gs)

  snoc-append : (fs gs : List F) (f : F) → (fs ++ (f ∷ [])) ++ gs ≡ fs ++ (f ∷ gs)
  snoc-append [] gs f = refl
  snoc-append (x ∷ fs) gs f = ap (λ l. x ∷ l) (snoc-append fs gs f)

  -- The files up to the version are passed over.
  skipped :
      (past rest : List F) (i version : ℕ) (faults : List Bool) (s : Schema run)
      → i + length past ≤ version
      → migrate_from run i (past ++ rest) version faults s
        ≡ migrate_from run (i + length past) rest version faults s
  unfolding migrate_from
  skipped [] rest i version faults s h =
      ap (λ n. migrate_from run n rest version faults s) (ground arith)
  skipped (f ∷ past) rest i version faults s h =
      let e : leb (suc i) version ≡ true = (leb_iff (suc i) version).1 (ground (arith, h)) in
      rw e (
        skipped past rest (suc i) version faults s (ground (arith, h))
        ∙ ap (λ n. migrate_from run n rest version faults s) (ground arith))

  -- What a call leaves, of files with the ones that were run before it.
  abbrev pub Leaves : List F → D → Bool × Schema run → Type 0
  Leaves files base r = IsAt files base r.1 × (r.0 ≡ true → r.1.version ≡ length files)

  module _ (base : D) where
    -- One file that is not passed over.
    attempt :
        (past rest : List F) (f : F) (b : Bool) (s : Schema run)
        (k : Schema run → Bool × Schema run)
        → length past ≡ s.version
        → run_all past base ≡ some s.content
        → ((d : D)
            → run f s.content ≡ some d
            → Leaves
                (past ++ (f ∷ rest))
                base
                (k (record { content = d; version = suc (length past) })))
        → Leaves
            (past ++ (f ∷ rest))
            base
            (after_file run s (migrate_file run b (length past) f s) k)
    attempt past rest f true s k c h next =
        (record { past = past; rest = f ∷ rest; split = refl; counted = c; contents = h }, λ t. cc)
    attempt past rest f false s k c h next = go (run f s.content) refl
      where
        go :
            (o : Option D)
            → run f s.content ≡ o
            → Leaves (past ++ (f ∷ rest)) base (after_file run s (installed run (length past) o) k)
        go none n = (
          record { past = past; rest = f ∷ rest; split = refl; counted = c; contents = h },
          λ t. cc,
        )
        go (some d) n = next d n

    resumed :
        (past rest : List F) (version : ℕ) (faults : List Bool) (s : Schema run)
        → version ≤ length past
        → length past ≡ s.version
        → run_all past base ≡ some s.content
        → Leaves (past ++ rest) base (migrate_from run (length past) rest version faults s)
    unfolding migrate_from
    resumed past [] version faults s v c h = (
      record { past = past; rest = []; split = refl; counted = c; contents = h },
      λ _. ground (arith, c, length-append past []),
    )
    resumed past (f ∷ rest) version faults s v c h =
        let e : leb (suc (length past)) version ≡ false =
          ground (arith, v, leb_iff (suc (length past)) version) in
        rw e (
          attempt past rest f (first_fault run faults) s
            (migrate_from run (suc (length past)) rest version (later_faults run faults)) c h
            λ d n.
              subst
                (λ (l : List F). Leaves l base (
                  migrate_from run (suc (length past)) rest version (later_faults run faults)
                    (record { content = d; version = suc (length past) })))
                (snoc-append past rest f)
                (subst
                  (λ (i : ℕ). Leaves ((past ++ (f ∷ [])) ++ rest) base (
                    migrate_from run i rest version (later_faults run faults)
                      (record { content = d; version = suc (length past) })))
                  (length-snoc past f)
                  (resumed (past ++ (f ∷ [])) rest version (later_faults run faults)
                    (record { content = d; version = suc (length past) })
                    (ground (arith, v, length-snoc past f)) (length-snoc past f)
                    (run_all-append past (f ∷ []) base s.content h ∙ single f s.content d n))))

  -- Where every file from the version on runs and nothing fails.
  finished :
      (i : ℕ) (rest : List F) (version : ℕ) (s : Schema run) (e : D)
      → version ≤ i
      → run_all rest s.content ≡ some e
      → i ≡ s.version
      → migrate_from run i rest version [] s
        ≡ (true, record { content = e; version = i + length rest })
  unfolding migrate_from run_all
  finished i [] version s e v h c =
      ap₂ (λ x n. (true, record { content = x; version = n })) (some-injective s.content e h)
        (ground (arith, c))
  finished i (f ∷ rest) version s e v h c = elim (Option-cases (run f s.content)) [
    | inl n ↦ let q : ◌≡◌ {A = Option D} none (some e) = rw n at h in cc
    | inr (d, n) ↦
        let q : run_all rest d ≡ some e = rw n at h in
        let no_skip : leb (suc i) version ≡ false = ground (arith, v, leb_iff (suc i) version) in
        rw (no_skip, n)
          (finished (suc i) rest version (record { content = d; version = suc i }) e
              (ground (arith, v)) q refl
            ∙ ap (λ m. (true, record { content = e; version = m })) (ground arith))
  ]

  -- The version is that of a prefix of the files.
  within :
      (past rest : List F) (faults : List Bool) (s : Schema run)
      → length past ≡ s.version
      → migrate run (past ++ rest) faults s ≡ migrate_from run (length past) rest s.version faults s
  unfolding migrate
  within past rest faults s c =
      let old : ltb (length (past ++ rest)) s.version ≡ false =
        ground (arith, c, length-append past rest, ltb_iff (length (past ++ rest)) s.version) in
      rw old (
        skipped past rest 0 s.version faults s (ground (arith, c))
        ∙ ap (λ n. migrate_from run n rest s.version faults s) (ground arith))

-- `migrate` on a database whose contents are those of the first files, as many as its version says:
-- whatever fails, the database that it leaves is again such a one, so that the next call goes on
-- from there, and at the last version where the call succeeds. Where no statement fails and the
-- files from the version on run, it succeeds, with what they make of the contents.
pub migrate-Leaves :
    {F D : Type 0} (run : F → D → Option D) (files : List F) (base : D) (s : Schema run)
    → IsAt run files base s
    → ((faults : List Bool) → Leaves run files base (migrate run files faults s))
      × ((past rest : List F) (e : D)
          → files ≡ past ++ rest
          → length past ≡ s.version
          → run_all run rest s.content ≡ some e
          → migrate run files [] s ≡ (true, record { content = e; version = length files }))
migrate-Leaves {F} {D} run files base s at = (
  λ faults.
      subst (λ l. Leaves run l base (migrate run l faults s)) (sym at.split)
        (subst (Leaves run (at.past ++ at.rest) base)
          (sym (within run at.past at.rest faults s at.counted))
          (resumed run base at.past at.rest s.version faults s (ground (arith, at.counted))
            at.counted at.contents)),
  λ past rest e split c h.
      ap (λ l. migrate run l [] s) split
      ∙ within run past rest [] s c
      ∙ finished run (length past) rest s.version s e (ground (arith, c)) h c
      ∙ ap (λ n. (true, record { content = e; version = n }))
          (sym (length-append run past rest) ∙ ap length (sym split)),
)
