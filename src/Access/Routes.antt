-- ===== src/Access/Routes.antt =====
-- What `Route` and `Target` accept: the texts are put together as the request gave them, and no
-- segment of a path leads out of the service's base path.
use budge.Base.{
  arith, ◌≡◌, refl, sym, ap, subst, ◌∙◌, inl, inr, ◌↔◌, Bool, true, false, not, ◌&&◌, ◌||◌, Option,
  none, some, List, [], ◌∷◌, ◌++◌, all, and-true, ==_iff, ◌==◌, Bool-cases, Option-cases,
  if◌then◌else◌,
}
use mathlib.Core.Option.{some-injective}
use budge.Base.Text.{Text, codes, text_eq, text_eq_iff, has_prefix, trim_slash, split, split-append}
use budge.Base.Prefix.{trim_slash-cases}
use budge.Access.Syntax.{
  path, plain_segment, slug, method, Url, base_ok, base, query_byte, target, Request, cut_slash,
  route, drop_prefix, is_empty,
}

cut_slash-append : (s service p : Text) → cut_slash s ≡ some (service, p) → s ≡ service ++ p
unfolding cut_slash
cut_slash-append [] service p h = cc
cut_slash-append (c ∷ s) service p h = elim (Bool-cases (c == b'/')) [
  | inl e ↦
      let q : some ([], c ∷ s) ≡ some (service, p) = rw e at h in
      let (a, b) = pair ([], c ∷ s) (service, p) (some-injective _ _ q) in
      ap (λ x. x ++ (c ∷ s)) a ∙ ap (λ x. service ++ x) b
  | inr e ↦ elim (Option-cases (cut_slash s)) [
    | inl n ↦ let q : ◌≡◌ {A = Option (Text × Text)} none (some (service, p)) = rw (e, n) at h in cc
    | inr ((a, b), n) ↦
        let q : some (c ∷ a, b) ≡ some (service, p) = rw (e, n) at h in
        let (x, y) = pair (c ∷ a, b) (service, p) (some-injective _ _ q) in
        ap (λ t. c ∷ t) (cut_slash-append s a b n) ∙ ap (λ t. t ++ b) x ∙ ap (λ t. service ++ t) y
  ]
]
  where
    pair : (u v : Text × Text) → u ≡ v → (u.0 ≡ v.0) × (u.1 ≡ v.1)
    pair u v e = (ap (λ (w : Text × Text). w.0) e, ap (λ (w : Text × Text). w.1) e)

drop_prefix-append : (s p : Text) → has_prefix s p ≡ true → s ≡ p ++ drop_prefix s p
unfolding has_prefix
drop_prefix-append [] [] h = refl
drop_prefix-append (x ∷ s) [] h = refl
drop_prefix-append [] (y ∷ p) h = cc
drop_prefix-append (x ∷ s) (y ∷ p) h =
    let (same, rest) = and-true (x == y) (has_prefix s p) h in
    cc ((==_iff x y).0 same, drop_prefix-append s p rest)

-- The last test of `Route`.
abbrev chosen : Text → Text → Option (Text × Text)
chosen a b = if slug a && path b then some (a, b) else none

-- The guards of `Route`.
routed :
    (r : Request) (service p : Text)
    → route r ≡ some (service, p)
    → (has_prefix r.path (codes "/s/") ≡ true)
      × (cut_slash (drop_prefix r.path (codes "/s/")) ≡ some (service, p))
      × (slug service ≡ true)
      × (path p ≡ true)
      × (method r.method ≡ true)
unfolding route
routed r service p h =
    elim (Bool-cases (
      r.absolute
      || not (is_empty r.raw_path)
      || not (has_prefix r.path (codes "/s/"))
      || not (method r.method)
      || not (is_empty r.upgrade))) [
        | inl bad ↦
            let q : ◌≡◌ {A = Option (Text × Text)} none (some (service, p)) =
              rw (route, bad) at h in
            cc
        | inr good ↦ elim (Option-cases (cut_slash (drop_prefix r.path (codes "/s/")))) [
          | inl n ↦
              let q : ◌≡◌ {A = Option (Text × Text)} none (some (service, p)) =
                rw (route, good, n) at h in
              cc
          | inr ((a, b), n) ↦
              let q : chosen a b ≡ some (service, p) = rw (route, good, n) at h in
              found a b n good q
        ]
      ]
  where
    found :
        (a b : Text)
        → cut_slash (drop_prefix r.path (codes "/s/")) ≡ some (a, b)
        → (r.absolute
            || not (is_empty r.raw_path)
            || not (has_prefix r.path (codes "/s/"))
            || not (method r.method)
            || not (is_empty r.upgrade))
          ≡ false
        → chosen a b ≡ some (service, p)
        → (has_prefix r.path (codes "/s/") ≡ true)
          × (cut_slash (drop_prefix r.path (codes "/s/")) ≡ some (service, p))
          × (slug service ≡ true)
          × (path p ≡ true)
          × (method r.method ≡ true)
    found a b n good q = elim (Bool-cases (slug a && path b)) [
      | inl e ↦
          let same : ◌≡◌ {A = Option (Text × Text)} (some (a, b)) (some (service, p)) = rw e at q in
          let pair : ◌≡◌ {A = Text × Text} (a, b) (service, p) = some-injective _ _ same in
          let one : a ≡ service = ap (λ (w : Text × Text). w.0) pair in
          let two : b ≡ p = ap (λ (w : Text × Text). w.1) pair in
          let (x, y) = and-true (slug a) (path b) e in
          (
            ground (arith, good),
            n ∙ same,
            subst (λ t. slug t ≡ true) one x,
            subst (λ t. path t ≡ true) two y,
            ground (arith, good),
          )
      | inr e ↦
          let no_route : ◌≡◌ {A = Option (Text × Text)} none (some (service, p)) = rw e at q in cc
    ]

-- A request that `Route` accepts has the path `/s/`, the service and the path that it returns, put
-- together; the service is a slug, and the path and the method are valid.
pub route-append :
    (r : Request) (service p : Text)
    → route r ≡ some (service, p)
    → (r.path ≡ codes "/s/" ++ service ++ p)
      × (slug service ≡ true)
      × (path p ≡ true)
      × (method r.method ≡ true)
route-append r service p h =
    let (starts, cut, s, q, m) = routed r service p h in
    (
      drop_prefix-append r.path (codes "/s/") starts
          ∙ ap (λ t. codes "/s/" ++ t) (cut_slash-append _ service p cut),
      s,
      q,
      m,
    )

all-append :
    (f : Text → Bool) (xs ys : List Text)
    → (all f (xs ++ ys) ≡ true) ↔ ((all f xs ≡ true) × (all f ys ≡ true))
all-append f [] ys = ground arith
all-append f (x ∷ xs) ys = ground (arith, all-append f xs ys)

path_segments : (p : Text) → path p ≡ true → all plain_segment (split b'/' p) ≡ true
unfolding path
path_segments p h = ground (arith, h)

path_slash : (p : Text) → path p ≡ true → (q : Text) × (p ≡ b'/' ∷ q)
unfolding path
path_slash [] h = cc
path_slash (c ∷ q) h = (q, ap (λ x. x ∷ q) ((==_iff c b'/').0 (ground (arith, h))))

trim_segments :
    (s : Text)
    → all plain_segment (split b'/' s) ≡ true
    → all plain_segment (split b'/' (trim_slash s)) ≡ true
trim_segments s h = elim (trim_slash-cases s) [
  | inl e ↦ subst (λ t. all plain_segment (split b'/' t) ≡ true) e h
  | inr e ↦
      ((all-append plain_segment (split b'/' (trim_slash s)) (split b'/' [])).0 (
        subst (λ l. all plain_segment l ≡ true) (split-append b'/' (trim_slash s) [])
          (subst (λ t. all plain_segment (split b'/' t) ≡ true) e h))).0
]

-- A path after a base path.
joined_segments :
    (s p : Text)
    → all plain_segment (split b'/' s) ≡ true
    → path p ≡ true
    → all plain_segment (split b'/' (trim_slash s ++ p)) ≡ true
unfolding split
joined_segments s p h k =
    let (q, e) = path_slash p k in
    let rest : all plain_segment (split b'/' (b'/' ∷ q)) ≡ true =
      subst (λ t. all plain_segment (split b'/' t) ≡ true) e (path_segments p k) in
    subst (λ t. all plain_segment (split b'/' (trim_slash s ++ t)) ≡ true) (sym e)
      (subst (λ l. all plain_segment l ≡ true) (sym (split-append b'/' (trim_slash s) q))
        ((all-append plain_segment (split b'/' (trim_slash s)) (split b'/' q)).1
          (trim_segments s h, ground (arith, rest))))

base-some :
    (parse : Text → Option Url) (raw : Text) (u : Url) → base parse raw ≡ some u → base_ok u ≡ true
unfolding base
base-some parse raw u h = elim (Option-cases (parse raw)) [
  | inl n ↦ let q : ◌≡◌ {A = Option Url} none (some u) = rw (base, n) at h in cc
  | inr (v, n) ↦ elim (Bool-cases (base_ok v)) [
    | inl e ↦
        let q : some v ≡ some u = rw (base, n, e) at h in
        subst (λ x. base_ok x ≡ true) (some-injective _ _ q) e
    | inr e ↦ let q : ◌≡◌ {A = Option Url} none (some u) = rw (base, n, e) at h in cc
  ]
]

base_segments : (u : Url) → base_ok u ≡ true → all plain_segment (split b'/' u.path) ≡ true
unfolding base_ok plain_segment split text_eq
base_segments u h = go u.path (ground (arith, h))
  where
    go :
        (p : Text)
        → (not (is_empty p) && not (path p)) ≡ false
        → all plain_segment (split b'/' p) ≡ true
    go [] k = refl
    go (c ∷ p) k = path_segments (c ∷ p) (ground (arith, k))

https : (v : Url) → base_ok v ≡ true → (v.scheme ≡ codes "https") × (v.user ≡ false)
unfolding base_ok
https v good =
    ((text_eq_iff v.scheme (codes "https")).0 (ground (arith, good)), ground (arith, good))

-- A target that `Target` accepts is an `https` URL without user information, has the query that was
-- asked for, and has no segment `.` or `..` in its path, the base path included.
pub target-segments :
    (parse : Text → Option Url) (raw p query : Text) (u : Url)
    → target parse raw p query ≡ some u
    → (u.scheme ≡ codes "https")
      × (u.user ≡ false)
      × (u.raw_query ≡ query)
      × (all plain_segment (split b'/' u.path) ≡ true)
      × (all query_byte query ≡ true)
unfolding target
target-segments parse raw p query u h = elim (Option-cases (base parse raw)) [
  | inl n ↦ let q : ◌≡◌ {A = Option Url} none (some u) = rw (target, n) at h in cc
  | inr (v, n) ↦ elim (Bool-cases (path p)) [
    | inl e ↦ elim (Bool-cases (all query_byte query)) [
      | inl f ↦
          let q : some (record v { path = trim_slash v.path ++ p; raw_query = query }) ≡ some u =
            rw (target, n, e, f) at h in
          made v (base-some parse raw v n) e f (some-injective _ _ q)
      | inr f ↦ let q : ◌≡◌ {A = Option Url} none (some u) = rw (target, n, e, f) at h in cc
    ]
    | inr e ↦ let q : ◌≡◌ {A = Option Url} none (some u) = rw (target, n, e) at h in cc
  ]
]
  where
    made :
        (v : Url)
        → base_ok v ≡ true
        → path p ≡ true
        → all query_byte query ≡ true
        → record v { path = trim_slash v.path ++ p; raw_query = query } ≡ u
        → (u.scheme ≡ codes "https")
          × (u.user ≡ false)
          × (u.raw_query ≡ query)
          × (all plain_segment (split b'/' u.path) ≡ true)
          × (all query_byte query ≡ true)
    made v good e f q =
        let (s, n) = https v good in
        (
          ap (λ (x : Url). x.scheme) (sym q) ∙ s,
          ap (λ (x : Url). x.user) (sym q) ∙ n,
          ap (λ (x : Url). x.raw_query) (sym q),
          subst (λ (x : Url). all plain_segment (split b'/' x.path) ≡ true) q
              (joined_segments v.path p (base_segments v good) e),
          f,
        )
