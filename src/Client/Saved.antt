-- ===== src/Client/Saved.antt =====
-- A saved identity can be loaded.
use budge.Base.{
  arith, false, [], ◌∷◌, ◌≡◌, refl, sym, ap, subst, ◌∙◌, Bool, true, none, some, ltb, any, length,
  if_rule,
}
use budge.Base.Text.{Text, text_eq, text_eq_iff}
use budge.Store.Vault.{Aead, seal}
use budge.Store.Unlocked.{IsInvertible, unseal_seal}
use budge.Client.Identity.{
  Identity, Encrypted, Json, Files, read_file, create_file, purpose, sealed_identity, save, decoded,
  opened, load,
}

-- What is used of encoding/json: it reads the identity that it wrote, and the bytes of a sealed one.
pub record IsReadable (json : Json) (id : Identity) : Type 0 where
  pub identity : json.unmarshal_identity (json.marshal_identity id) ≡ some id
  pub encrypted : (v : Encrypted) → json.unmarshal_encrypted (json.marshal_encrypted v) ≡ some v

-- The contents of an identity's file, read with its passphrase.
decoded-sealed :
    (a : Aead) (json : Json) (pass salt nonce : Text) (id : Identity)
    → IsInvertible a
    → IsReadable json id
    → length nonce ≡ a.nonce_size
    → length salt ≡ 16
    → decoded a json pass (some (sealed_identity a json pass salt nonce id)) ≡ some id
unfolding sealed_identity
decoded-sealed a json pass salt nonce id g j n s =
    let sealed : Encrypted = record {
      version = 1;
      salt = salt;
      sealed = seal a (a.key pass salt) nonce purpose (json.marshal_identity id);
    } in
    rw (j.encrypted sealed, s)
      (ap (opened json) (
          unseal_seal a (a.key pass salt) (a.key pass salt) nonce purpose (json.marshal_identity id)
            n
          ∙ g.unlock-lock (a.key pass salt) nonce purpose (json.marshal_identity id))
        ∙ j.identity)

pub created :
    (path b : Text) (failed : Bool) (files files' : Files)
    → create_file path b failed files ≡ (true, files')
    → read_file path files' ≡ some b
unfolding create_file read_file
created path b failed files files' =
    if_rule P (any (λ (f : Text × Text). text_eq f.0 path) files) _ _ (λ _ h. cc)
      λ _.
        if_rule P failed _ _ (λ _ h. cc)
          λ _ h.
            subst (λ l. read_file path l ≡ some b) (ap (λ (o : Bool × Files). o.1) h)
              (rw ((text_eq_iff path path).1 refl) refl)
  where
    P : Bool × Files → Type 0
    P o = o ≡ (true, files') → read_file path files' ≡ some b

-- Creating another file leaves a file alone.
pub read-create :
    (path temp b : Text) (failed : Bool) (files : Files)
    → ¬ (temp ≡ path)
    → read_file path (create_file temp b failed files).1 ≡ read_file path files
unfolding read_file create_file
read-create path temp b failed files ne =
    let other : text_eq temp path ≡ false = ground (arith, text_eq_iff temp path, ne) in
    if_rule (λ (o : Bool × Files). read_file path o.1 ≡ read_file path files)
      (any (λ (f : Text × Text). text_eq f.0 temp) files) _ _ (λ _. refl)
      λ _.
        if_rule (λ (o : Bool × Files). read_file path o.1 ≡ read_file path files) failed _ _
          (λ _. rw other refl) (λ _. rw other refl)

read-free :
    (path : Text) (files : Files)
    → any (λ (f : Text × Text). text_eq f.0 path) files ≡ false
    → read_file path files ≡ none
unfolding read_file
read-free path [] h = refl
read-free path (f ∷ files) h =
    let here : text_eq f.0 path ≡ false = ground (arith, h) in
    let later : any (λ (f : Text × Text). text_eq f.0 path) files ≡ false = ground (arith, h) in
    rw here (read-free path files later)

was_free :
    (path b : Text) (failed : Bool) (files : Files)
    → (create_file path b failed files).0 ≡ true
    → read_file path files ≡ none
unfolding create_file
was_free path b failed files =
    if_rule (λ (o : Bool × Files). o.0 ≡ true → read_file path files ≡ none)
      (any (λ (f : Text × Text). text_eq f.0 path) files) _ _ (λ _ h. cc)
      (λ e h. read-free path files e)

-- `Save` that succeeds had a passphrase of twelve bytes at least.
saved-created :
    (a : Aead) (json : Json) (salt nonce path pass : Text) (failed : Bool) (id : Identity)
    (files files' : Files)
    → save a json salt nonce failed path pass id files ≡ (true, files')
    → (ltb (length pass) 12 ≡ false)
      × (create_file path (sealed_identity a json pass salt nonce id) failed files ≡ (true, files'))
unfolding save
saved-created a json salt nonce path pass failed id files files' =
    if_rule P (ltb (length pass) 12) _ _ (λ _ e. cc) (λ long e. (long, e))
  where
    P : Bool × Files → Type 0
    P o =
        o ≡ (true, files')
        → (ltb (length pass) 12 ≡ false)
          × (create_file path (sealed_identity a json pass salt nonce id) failed files
              ≡ (true, files'))

-- Sealed bytes open under their key, and the encoded identity decodes. Where `Save` succeeds, with
-- a salt of 16 bytes and a nonce of the cipher's size, the passphrase has at least twelve bytes and
-- no file stood at the path, `Load` of the path with the passphrase reads the identity back, and
-- each other file is as it was.
pub load-save :
    (a : Aead) (json : Json) (salt nonce path pass : Text) (failed : Bool) (id : Identity)
    (files files' : Files)
    → IsInvertible a
    → IsReadable json id
    → length nonce ≡ a.nonce_size
    → length salt ≡ 16
    → save a json salt nonce failed path pass id files ≡ (true, files')
    → (ltb (length pass) 12 ≡ false)
      × (read_file path files ≡ none)
      × (load a json path pass files' ≡ some id)
      × ((other : Text) → ¬ (path ≡ other) → read_file other files' ≡ read_file other files)
unfolding load
load-save a json salt nonce path pass failed id files files' g j n s h =
    let b : Text = sealed_identity a json pass salt nonce id in
    let (long, made) = saved-created a json salt nonce path pass failed id files files' h in
    (
      long,
      was_free path b failed files (ap (λ (o : Bool × Files). o.0) made),
      ap (decoded a json pass) (created path b failed files files' made)
          ∙ decoded-sealed a json pass salt nonce id g j n s,
      λ other ne.
          ap (λ (o : Bool × Files). read_file other o.1) (sym made)
          ∙ read-create other path b failed files ne,
    )
