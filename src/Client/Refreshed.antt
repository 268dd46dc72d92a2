-- ===== src/Client/Refreshed.antt =====
-- A renewal leaves a whole identity in the file, the old one or the renewed one.
use budge.Base.{
  ℕ, ◌+◌, arith, ◌≡◌, refl, ap, ◌∙◌, ◌⊎◌, inl, inr, Bool, true, false, not, ◌||◌, Option, none,
  some, [], ◌∷◌, ltb, select, length, Bool-cases, if_rule,
}
use budge.Base.Text.{Text, text_eq, text_eq_iff}
use budge.Store.Vault.{Aead}
use budge.Server.Enroll.{seven_days}
use budge.Client.Identity.{Identity, Json, Files, read_file, create_file, sealed_identity, save}
use budge.Client.Saved.{created, read-create}
use budge.Client.Refresh.{
  Renewed, Checks, rename, Stop, none_fails, write_fails, rename_fails, sync_fails, fails_write,
  Device, installed, after_save, accepted, after_answer, when_due, refresh,
}

-- Dropping other files leaves a file alone.
read-select :
    (path : Text) (p : Text × Text → Bool) (files : Files)
    → ((f : Text × Text) → f.0 ≡ path → p f ≡ true)
    → read_file path (select p files) ≡ read_file path files
unfolding read_file
read-select path p [] keep = refl
read-select path p (f ∷ files) keep = elim (Bool-cases (p f)) [
  | inl e ↦ rw e (elim (Bool-cases (text_eq f.0 path)) [
    | inl q ↦ rw q refl
    | inr q ↦ rw q (read-select path p files keep)
  ])
  | inr e ↦
      let other : text_eq f.0 path ≡ false = elim (Bool-cases (text_eq f.0 path)) [
        | inl q ↦ let kept = keep f ((text_eq_iff f.0 path).0 q) in cc
        | inr q ↦ q
      ] in
      rw (e, other) (read-select path p files keep)
]

-- The file that a renaming has put at the path.
read-rename :
    (temp path b : Text) (files : Files)
    → read_file temp files ≡ some b
    → read_file path (rename temp path files) ≡ some b
unfolding rename read_file
read-rename temp path b files e = rw (e, (text_eq_iff path path).1 refl) refl

module _ (a : Aead) (json : Json) (x : Checks) (salt nonce temp path pass : Text) (d : Device) where
  -- The identity with the certificate of the answer.
  abbrev pub renewed : Renewed → Identity
  renewed r = record d.live { certificate = r.certificate }

  -- The file at the path, and the identity in memory, as they were.
  abbrev pub Kept : Device → Type 0
  Kept d' = (d'.live ≡ d.live) × (read_file path d'.files ≡ read_file path d.files)

  -- What the answer was checked for: it is for the device, and its certificate goes with the device's
  -- key, verifies for clients under the device's root, and names the device.
  abbrev pub IsVerified : Renewed → Type 0
  IsVerified r =
      (r.device_id ≡ d.live.device_id)
      × (x.pairs r.certificate d.live.private_key ≡ true)
      × (x.verifies d.live.root r.certificate ≡ true)
      × (x.common_name r.certificate ≡ d.live.device_id)

  accepted-IsVerified : (r : Renewed) → accepted x d.live r ≡ true → IsVerified r
  unfolding accepted
  accepted-IsVerified r h = ground (
    arith,
    h,
    text_eq_iff r.device_id d.live.device_id,
    text_eq_iff (x.common_name r.certificate) d.live.device_id,
  )

  -- The renewed identity is in the file; a call without error has it in memory too.
  abbrev pub Renews : Bool × Device → Type 0
  Renews o =
      (r : Renewed) × (x.ask d.live ≡ some r)
      × IsVerified r
      × (read_file path o.1.files ≡ some (sealed_identity a json pass salt nonce (renewed r)))
      × ((o.1.live ≡ d.live) ⊎ (o.1.live ≡ renewed r))
      × (o.0 ≡ true → o.1.live ≡ renewed r)

  module _ (ne : ¬ (temp ≡ path)) (r : Renewed) (asked : x.ask d.live ≡ some r)
      (good : IsVerified r) where
    saved-Renews :
        (stop : Stop) (files : Files)
        → read_file temp files ≡ some (sealed_identity a json pass salt nonce (renewed r))
        → read_file path files ≡ read_file path d.files
        → Kept (installed stop temp path (renewed r) d files).1
          ⊎ Renews (installed stop temp path (renewed r) d files)
    saved-Renews rename_fails files t p =
        inl (refl, read-select path _ files (λ f e. other f e) ∙ p)
      where
        other : (f : Text × Text) → f.0 ≡ path → not (text_eq f.0 temp) ≡ true
        other f e =
            ground (arith, text_eq_iff f.0 temp, e, ne, ap not {x = text_eq f.0 temp} {y = false})
    saved-Renews sync_fails files t p =
        inr (r, asked, good, read-rename temp path _ files t, inl refl, λ h. cc)
    saved-Renews none_fails files t p =
        inr (r, asked, good, read-rename temp path _ files t, inr refl, λ h. refl)
    saved-Renews write_fails files t p =
        inr (r, asked, good, read-rename temp path _ files t, inr refl, λ h. refl)

    after_save-Renews :
        (stop : Stop) (o : Bool × Files)
        → (o.0 ≡ true
            → read_file temp o.1 ≡ some (sealed_identity a json pass salt nonce (renewed r)))
        → read_file path o.1 ≡ read_file path d.files
        → Kept (after_save stop temp path (renewed r) d o).1
          ⊎ Renews (after_save stop temp path (renewed r) d o)
    after_save-Renews stop (false, files) t p = inl (refl, p)
    after_save-Renews stop (true, files) t p = saved-Renews stop files (t refl) p

  save-read :
      (failed : Bool) (id : Identity)
      → ¬ (temp ≡ path)
      → ((save a json salt nonce failed temp pass id d.files).0 ≡ true
          → read_file temp (save a json salt nonce failed temp pass id d.files).1
            ≡ some (sealed_identity a json pass salt nonce id))
        × (read_file path (save a json salt nonce failed temp pass id d.files).1
            ≡ read_file path d.files)
  unfolding save
  save-read failed id ne =
      if_rule P (ltb (length pass) 12) (false, d.files) _ (λ _. (λ (h : false ≡ true). cc, refl))
        (λ _. (λ h. made h, read-create path temp _ failed d.files ne))
    where
      P : Bool × Files → Type 0
      P o =
          (o.0 ≡ true → read_file temp o.1 ≡ some (sealed_identity a json pass salt nonce id))
          × (read_file path o.1 ≡ read_file path d.files)

      made :
          (create_file temp (sealed_identity a json pass salt nonce id) failed d.files).0 ≡ true
          → read_file temp
              (create_file temp (sealed_identity a json pass salt nonce id) failed d.files).1
            ≡ some (sealed_identity a json pass salt nonce id)
      made h = created temp (sealed_identity a json pass salt nonce id) failed d.files _ (
          ap
            (λ b.
              (b, (create_file temp (sealed_identity a json pass salt nonce id) failed d.files).1))
            h)

-- Whichever call fails in `Refresh`, the file at the path holds what it held before, and the
-- identity in memory is the same; or it holds the whole identity with the certificate of the
-- server's answer, which is for the same device, goes with its key, verifies under its root and
-- names it. A call without error that has renewed has the renewed identity in memory.
pub refresh-Renews :
    (a : Aead) (json : Json) (x : Checks) (now : ℕ) (salt nonce temp path pass : Text) (stop : Stop)
    (d : Device)
    → ¬ (temp ≡ path)
    → Kept a json x salt nonce temp path pass d
        (refresh a json x now salt nonce temp path pass stop d).1
      ⊎ Renews a json x salt nonce temp path pass d
          (refresh a json x now salt nonce temp path pass stop d)
unfolding refresh
refresh-Renews a json x now salt nonce temp path pass stop d ne =
    due (x.not_after d.live.certificate)
  where
    P : Bool × Device → Type 0
    P o =
        Kept a json x salt nonce temp path pass d o.1
        ⊎ Renews a json x salt nonce temp path pass d o

    answered :
        (o : Option Renewed)
        → x.ask d.live ≡ o
        → P (after_answer a json x salt nonce temp path pass stop d o)
    answered none e = inl (refl, refl)
    answered (some r) e =
        if_rule P (accepted x d.live r) _ _
          (λ good.
            let (t, p) =
              save-read a json x salt nonce temp path pass d (fails_write stop)
                (record d.live { certificate = r.certificate }) ne in
            after_save-Renews a json x salt nonce temp path pass d ne r e
              (accepted-IsVerified a json x salt nonce temp path pass d r good) stop _ t p)
          (λ _. inl (refl, refl))

    due : (o : Option ℕ) → P (when_due a json x now salt nonce temp path pass stop d o)
    due none = inl (refl, refl)
    due (some end) =
        if_rule P (ltb (now + seven_days) end) _ _ (λ _. inl (refl, refl))
          λ _.
            if_rule P (ltb end now || not (x.signs d.live.private_key)) _ _ (λ _. inl (refl, refl))
              λ _. answered (x.ask d.live) refl
