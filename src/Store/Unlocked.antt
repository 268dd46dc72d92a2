-- ===== src/Store/Unlocked.antt =====
-- Which secrets unlock a database, and that sealed data can be opened.
use budge.Base.{
  ◌+◌, arith, ◌≡◌, refl, sym, ap, ap₂, subst, ◌∙◌, ◌↔◌, inl, inr, Bool, true, false, Option, none,
  some, [], ◌∷◌, ◌++◌, ltb, ltb_iff, length, take, if◌then◌else◌, Bool-cases,
}
use mathlib.Core.Option.{some-injective}
use budge.Base.Text.{Text, codes, text_eq, text_eq_iff}
use budge.Store.Tables.{Db}
use budge.Store.Vault.{
  Aead, drop, seal, unseal, metadata_value, new_metadata, check_vault, unlock_with, open_vault,
}

-- What is used of AES-GCM: what was sealed opens under its key, nonce and purpose.
pub record IsInvertible (a : Aead) : Type 0 where
  pub unlock-lock :
      (key nonce purpose b : Text)
      → a.unlock key nonce purpose (a.lock key nonce purpose b) ≡ some b

take-append : (s t : Text) → take (length s) (s ++ t) ≡ s
take-append [] t = refl
take-append (c ∷ s) t = ap (λ x. c ∷ x) (take-append s t)

drop-append : (s t : Text) → drop (length s) (s ++ t) ≡ t
drop-append [] t = refl
drop-append (c ∷ s) t = drop-append s t

length-append : (s t : Text) → length (s ++ t) ≡ length s + length t
length-append [] t = ground arith
length-append (c ∷ s) t = ground (arith, length-append s t)

-- `Unseal` reads the nonce that `Seal` has put in front.
pub unseal_seal :
    (a : Aead) (key key' nonce purpose b : Text)
    → length nonce ≡ a.nonce_size
    → unseal a key' purpose (seal a key nonce purpose b)
      ≡ a.unlock key' nonce purpose (a.lock key nonce purpose b)
unfolding seal unseal
unseal_seal a key key' nonce purpose b n =
    let long : ltb (length (nonce ++ a.lock key nonce purpose b)) a.nonce_size ≡ false = ground (
      arith,
      n,
      length-append nonce (a.lock key nonce purpose b),
      ltb_iff (length (nonce ++ a.lock key nonce purpose b)) a.nonce_size,
    ) in
    rw long (
      ap₂ (λ x y. a.unlock key' x purpose y)
        (ap (λ k. take k (nonce ++ a.lock key nonce purpose b)) (sym n)
          ∙ take-append nonce (a.lock key nonce purpose b))
        (ap (λ k. drop k (nonce ++ a.lock key nonce purpose b)) (sym n)
          ∙ drop-append nonce (a.lock key nonce purpose b)))

-- Unlocking a new database writes its two rows.
opened :
    (a : Aead) (secret salt nonce : Text) (db : Db)
    → ltb (length secret) 12 ≡ false
    → db.metadata ≡ []
    → (open_vault a secret salt nonce false db).1.metadata ≡ new_metadata a secret salt nonce
unfolding open_vault metadata_value
opened a secret salt nonce db long fresh = rw (long, fresh) refl

opened-key :
    (a : Aead) (secret salt nonce : Text) (db : Db)
    → ltb (length secret) 12 ≡ false
    → db.metadata ≡ []
    → (open_vault a secret salt nonce false db).0 ≡ some (a.key secret salt)
unfolding open_vault metadata_value
opened-key a secret salt nonce db long fresh = rw (long, fresh) refl

-- Unlocking a database that has the rows.
unlocked :
    (a : Aead) (secret salt nonce later salt' nonce' : Text) (failed : Bool) (db : Db)
    → db.metadata ≡ new_metadata a secret salt nonce
    → (open_vault a later salt' nonce' failed db).0 ≡ (
        if ltb (length later) 12
        then none
        else check_vault a
            (a.key later salt)
            (some (seal a (a.key secret salt) nonce (codes "unlock-check") (codes "budge-v1"))))
unfolding open_vault metadata_value new_metadata text_eq
unlocked a secret salt nonce later salt' nonce' failed db e =
    elim (Bool-cases (ltb (length later) 12)) [
      | inl short ↦ rw short refl
      | inr long ↦
          rw (long, e)
            (with_fault failed (record db { metadata = new_metadata a secret salt nonce }))
    ]
  where
    with_fault :
        (failed : Bool) (x : Db)
        → (unlock_with a later salt' nonce' failed x (some salt)).0
          ≡ check_vault a (a.key later salt) (metadata_value (codes "check") x.metadata)
    with_fault true x = refl
    with_fault false x = refl

-- It leaves them as they are.
unlocked-db :
    (a : Aead) (secret salt nonce later salt' nonce' : Text) (failed : Bool) (db : Db)
    → db.metadata ≡ new_metadata a secret salt nonce
    → (open_vault a later salt' nonce' failed db).1 ≡ db
unfolding open_vault metadata_value new_metadata text_eq
unlocked-db a secret salt nonce later salt' nonce' failed db e =
    elim (Bool-cases (ltb (length later) 12)) [
      | inl short ↦ rw short refl
      | inr long ↦
          rw (long, e)
            (with_fault failed (record db { metadata = new_metadata a secret salt nonce }))
    ]
  where
    with_fault :
        (failed : Bool) (x : Db) → (unlock_with a later salt' nonce' failed x (some salt)).1 ≡ x
    with_fault true x = refl
    with_fault false x = refl

checked :
    (a : Aead) (old new nonce key : Text)
    → length nonce ≡ a.nonce_size
    → (check_vault a new (some (seal a old nonce (codes "unlock-check") (codes "budge-v1")))
        ≡ some key)
      ↔ ((key ≡ new)
          × (a.unlock key nonce
                (codes "unlock-check")
                (a.lock old nonce (codes "unlock-check") (codes "budge-v1"))
              ≡ some (codes "budge-v1")))
checked a old new nonce key n = go (a.unlock new nonce purpose (a.lock old nonce purpose body)) refl
  where
    purpose : Text
    purpose = codes "unlock-check"

    body : Text
    body = codes "budge-v1"

    Opens : Type 0
    Opens = (key ≡ new) × (a.unlock key nonce purpose (a.lock old nonce purpose body) ≡ some body)

    at_new : Opens → a.unlock new nonce purpose (a.lock old nonce purpose body) ≡ some body
    at_new (k, u) =
        subst (λ x. a.unlock x nonce purpose (a.lock old nonce purpose body) ≡ some body) k u

    go :
        (o : Option Text)
        → a.unlock new nonce purpose (a.lock old nonce purpose body) ≡ o
        → (check_vault a new (some (seal a old nonce purpose body)) ≡ some key) ↔ Opens
    go none e =
        let shut : unseal a new purpose (seal a old nonce purpose body) ≡ none =
          unseal_seal a old new nonce purpose body n ∙ e in
        rw shut (λ h. cc, λ o. let u = at_new o in cc)
    go (some b) e =
        let found : unseal a new purpose (seal a old nonce purpose body) ≡ some b =
          unseal_seal a old new nonce purpose body n ∙ e in
        elim (Bool-cases (text_eq b body)) [
          | inl t ↦
              let same : b ≡ body = (text_eq_iff b body).0 t in
              rw (found, t)
                (
                  λ h.
                      let k : key ≡ new = sym (some-injective new key h) in
                      (
                        k,
                        subst
                            (λ x.
                              a.unlock x nonce purpose (a.lock old nonce purpose body) ≡ some body)
                            (sym k) (e ∙ ap some same),
                      ),
                  λ (k, u). ap some (sym k),
                )
          | inr t ↦
              rw (found, t)
                (
                  λ h. cc,
                  λ o.
                      let same : b ≡ body = some-injective b body (sym e ∙ at_new o) in
                      let yes : text_eq b body ≡ true = (text_eq_iff b body).1 same in cc,
                )
        ]

-- Sealed bytes open under their key, and the first nonce is of the cipher's size. A new database
-- that is unlocked with a secret of twelve bytes at least has the key of the secret and its salt as
-- its vault's. At every later opening the same secret gives that key again, whatever salt and nonce
-- are drawn, and the tables stay. Another secret, with twelve bytes at least, opens exactly where
-- its key opens the check that the first opening wrote, and is then the vault's key; it leaves the
-- tables, too.
pub open_vault-again :
    (a : Aead) (secret salt nonce later salt' nonce' key : Text) (failed : Bool) (db : Db)
    → IsInvertible a
    → length nonce ≡ a.nonce_size
    → ltb (length secret) 12 ≡ false
    → db.metadata ≡ []
    → ((open_vault a secret salt nonce false db).0 ≡ some (a.key secret salt))
      × ((open_vault a secret salt' nonce' failed (open_vault a secret salt nonce false db).1).0
          ≡ some (a.key secret salt))
      × ((open_vault a later salt' nonce' failed (open_vault a secret salt nonce false db).1).1
          ≡ (open_vault a secret salt nonce false db).1)
      × (((open_vault a later salt' nonce' failed (open_vault a secret salt nonce false db).1).0
            ≡ some key)
          ↔ ((ltb (length later) 12 ≡ false)
              × (key ≡ a.key later salt)
              × (a.unlock key nonce
                    (codes "unlock-check")
                    (a.lock (a.key secret salt) nonce (codes "unlock-check") (codes "budge-v1"))
                  ≡ some (codes "budge-v1"))))
open_vault-again a secret salt nonce later salt' nonce' key failed db g n long fresh = (
  opened-key a secret salt nonce db long fresh,
  (again secret (a.key secret salt)).1 (long, refl, g.unlock-lock _ _ _ _),
  unlocked-db a secret salt nonce later salt' nonce' failed _
      (opened a secret salt nonce db long fresh),
  again later key,
)
  where
    Opens : Text → Text → Type 0
    Opens later key =
        (ltb (length later) 12 ≡ false)
        × (key ≡ a.key later salt)
        × (a.unlock key nonce (codes "unlock-check")
              (a.lock (a.key secret salt) nonce (codes "unlock-check") (codes "budge-v1"))
            ≡ some (codes "budge-v1"))

    again :
        (later key : Text)
        → ((open_vault a later salt' nonce' failed (open_vault a secret salt nonce false db).1).0
            ≡ some key)
          ↔ Opens later key
    again later key =
        subst (λ o. (o ≡ some key) ↔ Opens later key)
          (sym (
            unlocked a secret salt nonce later salt' nonce' failed _
              (opened a secret salt nonce db long fresh)))
          (elim (Bool-cases (ltb (length later) 12)) [
            | inl short ↦ rw short (λ h. cc, λ (q, r, t). cc)
            | inr enough ↦ rw enough (
              λ h. let (r, t) = (checked a _ _ nonce key n).0 h in (refl, r, t),
              λ (q, r, t). (checked a _ _ nonce key n).1 (r, t),
            )
          ])
