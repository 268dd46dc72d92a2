-- ===== src/Upstream/SentFields.antt =====
-- What `Send` puts into a request, and when its error says that nothing was sent.
use budge.Base.{
  arith, ◌≡◌, refl, sym, subst, ◌∙◌, ◌↔◌, ◌⊎◌, inl, inr, Bool, true, false, not, Option, none, some,
  List, [], ◌∷◌, ◌++◌, In, select, In-select, In-append, Any, if_rule,
}
use mathlib.Core.Option.{some-injective}
use budge.Base.Text.{Text, codes, text_eq, text_eq_iff, contains_byte}
use budge.Upstream.Header.{Field, headers, canonical_key}
use budge.Upstream.Filter.{IsForwarded, headers_iff}
use budge.Upstream.Send.{
  set_header, with_credential, Trip, answered, broken, Sent, received, err_not_sent, err_other,
  classified, sent_with, send,
}

In-set_header :
    (name value : Text) (fields : List Field) (n v : Text)
    → In (n, v) (set_header name value fields) ↔ (
        ((¬ (n ≡ canonical_key name)) × In (n, v) fields)
        ⊎ ((n ≡ canonical_key name) × (v ≡ value)))
unfolding set_header
In-set_header name value fields n v = ground (
  arith,
  In-append (n, v) (select (λ (f : Field). not (text_eq f.0 (canonical_key name))) fields)
      ((canonical_key name, value) ∷ []),
  In-select (λ (f : Field). not (text_eq f.0 (canonical_key name))) fields (n, v),
  text_eq_iff n (canonical_key name),
)

-- The field that carries the credential, by the service's kind of authentication.
pub data IsCredential (base64 : Text → Text) (auth auth_header credential : Text)
    : Text → Text → Type 0 where
  bearer :
      auth ≡ codes "bearer"
      → IsCredential base64 auth auth_header credential
          (canonical_key (codes "Authorization"))
          (codes "Bearer " ++ credential)
  header :
      auth ≡ codes "header"
      → IsCredential base64 auth auth_header credential (canonical_key auth_header) credential
  basic :
      auth ≡ codes "basic"
      → contains_byte credential b':' ≡ true
      → IsCredential base64 auth auth_header credential
          (canonical_key (codes "Authorization"))
          (codes "Basic " ++ base64 credential)

module _ (base64 : Text → Text) (auth auth_header credential : Text) (src : List Field) where
  -- With a credential, its field and the others; without one, the fields as they are.
  abbrev Carries : List Field → Type 0
  Carries fields =
      ((name : Text) × (value : Text) × IsCredential base64 auth auth_header credential
          (canonical_key name) value
        × (fields ≡ set_header name value src))
      ⊎ ((auth ≡ codes "none") × (fields ≡ src))

  with_credential-Carries :
      (fields : List Field)
      → with_credential base64 auth auth_header credential src ≡ some fields
      → Carries fields
  unfolding with_credential
  with_credential-Carries fields =
      if_rule P (text_eq auth (codes "bearer")) _ _
        (λ e q. inl (
          codes "Authorization",
          codes "Bearer " ++ credential,
          bearer ((text_eq_iff auth _).0 e),
          sym (some-injective _ _ q),
        ))
        λ _.
          if_rule P (text_eq auth (codes "header")) _ _
            (λ e q. inl (
              auth_header,
              credential,
              header ((text_eq_iff auth _).0 e),
              sym (some-injective _ _ q),
            ))
            λ _.
              if_rule P (text_eq auth (codes "basic")) _ _
                (λ e.
                  if_rule P (contains_byte credential b':') _ _
                    (λ c q. inl (
                      codes "Authorization",
                      codes "Basic " ++ base64 credential,
                      basic ((text_eq_iff auth _).0 e) c,
                      sym (some-injective _ _ q),
                    ))
                    (λ c q. cc))
                λ _.
                  if_rule P (text_eq auth (codes "none")) _ _
                    (λ e q. inr ((text_eq_iff auth _).0 e, sym (some-injective _ _ q))) (λ _ q. cc)
    where
      P : Option (List Field) → Type 0
      P o = o ≡ some fields → Carries fields

differ : (auth a b : Text) → text_eq a b ≡ false → auth ≡ a → auth ≡ b → ⊥
differ auth a b n p q = let same = (text_eq_iff a b).1 (sym p ∙ q) in cc

module _ {base64 : Text → Text} {auth auth_header credential : Text} where
  -- The credential has one field.
  one_name :
      {n m w v : Text}
      → IsCredential base64 auth auth_header credential n w
      → IsCredential base64 auth auth_header credential m v
      → n ≡ m
  unfolding text_eq
  one_name (bearer a) (bearer b) = refl
  one_name (bearer a) (header b) = absurd (differ auth _ _ refl a b)
  one_name (bearer a) (basic b c) = refl
  one_name (header a) (bearer b) = absurd (differ auth _ _ refl a b)
  one_name (header a) (header b) = refl
  one_name (header a) (basic b c) = absurd (differ auth _ _ refl a b)
  one_name (basic a c) (bearer b) = refl
  one_name (basic a c) (header b) = absurd (differ auth _ _ refl a b)
  one_name (basic a c) (basic b d) = refl

  no_credential :
      {n w : Text} → auth ≡ codes "none" → ¬ IsCredential base64 auth auth_header credential n w
  unfolding text_eq
  no_credential e (bearer a) = differ auth _ _ refl e a
  no_credential e (header a) = differ auth _ _ refl e a
  no_credential e (basic a c) = differ auth _ _ refl e a

-- Each field that `Send` puts into a request is either the credential's, or a field of the caller
-- that the filter lets through, and whose name is not that of the credential's field, if there is
-- one; and unless the service has no authentication, the credential's field is there.
pub sent_fields :
    (base64 : Text → Text) (auth auth_header credential : Text) (allowed : List Text)
    (h fields : List Field)
    → with_credential base64 auth auth_header credential (headers h allowed auth_header)
      ≡ some fields
    → ((n v : Text)
        → In (n, v) fields
        → IsCredential base64 auth auth_header credential n v
          ⊎ (Any (λ a. canonical_key a ≡ n) allowed
              × IsForwarded h auth_header n v
              × ((w : Text) → ¬ IsCredential base64 auth auth_header credential n w)))
      × ((auth ≡ codes "none")
          ⊎ ((n : Text) × (v : Text) × IsCredential base64 auth auth_header credential n v
              × In (n, v) fields))
sent_fields base64 auth auth_header credential allowed h fields e =
    elim (with_credential-Carries base64 auth auth_header credential _ fields e) [
      | inl (name, value, c, q) ↦ (
        λ n v m. elim ((In-set_header name value _ n v).0 (subst (In (n, v)) q m)) [
          | inl (ne, there) ↦
              let (a, f) = (headers_iff h allowed auth_header n v).0 there in
              inr (a, f, λ w d. ne (one_name d c))
          | inr (en, ev) ↦ inl (
              subst (λ k. IsCredential base64 auth auth_header credential k v) (sym en)
                (subst (IsCredential base64 auth auth_header credential (canonical_key name))
                  (sym ev) c))
        ],
        inr (
          canonical_key name,
          value,
          c,
          subst (In (canonical_key name, value)) (sym q)
              ((In-set_header name value _ (canonical_key name) value).1 (inr (refl, refl))),
        ),
      )
      | inr (none_kind, q) ↦ (
        λ n v m.
            let (a, f) = (headers_iff h allowed auth_header n v).0 (subst (In (n, v)) q m) in
            inr (a, f, λ w d. no_credential none_kind d),
        inl none_kind,
      )
    ]

-- What an outcome of `Send` says of the exchange.
abbrev pub Tells {ℓ} :
    {A : Type ℓ} → Bool → Option (List Field) → (List Field → Trip A) → Sent A → Type ℓ
Tells valid fields trip (received a) =
    (valid ≡ true) × (f : List Field) × (fields ≡ some f) × (trip f ≡ answered a)
Tells valid fields trip err_not_sent =
    (f : List Field) → valid ≡ true → fields ≡ some f → trip f ≡ broken false
Tells valid fields trip err_other =
    (valid ≡ true) × (f : List Field) × (fields ≡ some f) × (trip f ≡ broken true)

-- `Send` returns the response of the exchange with its fields. An error of it is `ErrNotSent` only
-- where no exchange took place, or one that had no connection; any other error is that of an
-- exchange that had a connection.
pub send-Tells {ℓ} :
    {A : Type ℓ} (base64 : Text → Text) (auth auth_header : Text) (allowed : List Text)
    (valid : Bool) (h : List Field) (credential : Text) (trip : List Field → Trip A)
    → Tells valid
        (with_credential base64 auth auth_header credential (headers h allowed auth_header))
        trip
        (send base64 auth auth_header allowed valid h credential trip)
unfolding send
send-Tells base64 auth auth_header allowed false h credential trip = λ f v. cc
send-Tells {A} base64 auth auth_header allowed true h credential trip =
    made (with_credential base64 auth auth_header credential (headers h allowed auth_header))
  where
    closed : (f : List Field) (t : Trip A) → trip f ≡ t → Tells true (some f) trip (classified t)
    closed f (answered a) e = (refl, f, refl, e)
    closed f (broken false) e = λ g v q. subst (λ x. trip x ≡ broken false) (some-injective f g q) e
    closed f (broken true) e = (refl, f, refl, e)

    made : (o : Option (List Field)) → Tells true o trip (sent_with trip o)
    made none = λ f v q. cc
    made (some f) = closed f (trip f) refl
