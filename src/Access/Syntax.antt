-- ===== src/Access/Syntax.antt =====
-- internal/access/access.go: the texts that the program accepts as a path, a method, a service
-- identifier, a base URL and a target, and the routing of `/s/{service}/{path}`.
use budge.Base.{
  ℕ, Bool, true, false, not, ◌&&◌, ◌||◌, Option, none, some, [], ◌∷◌, ◌++◌, ltb, leb, ◌==◌,
  if◌then◌else◌, length, any, all,
}
use budge.Base.Text.{
  Text, codes, text_eq, has_prefix, trim_slash, split, contains, contains_byte, equal_fold,
}

abbrev is_lower : ℕ → Bool
is_lower c = leb b'a' c && leb c b'z'

abbrev is_upper : ℕ → Bool
is_upper c = leb b'A' c && leb c b'Z'

abbrev is_digit : ℕ → Bool
is_digit c = leb b'0' c && leb c b'9'

abbrev pub path_punctuation : Text
path_punctuation = codes "/-._~!$&'()*+,;=:@"

-- The byte test of the first loop of `Path`.
unfoldable pub path_byte : ℕ → Bool
path_byte c = is_lower c || is_upper c || is_digit c || contains_byte path_punctuation c

abbrev pub starts_with_slash : Text → Bool
starts_with_slash [] = false
starts_with_slash (c ∷ p) = c == b'/'

-- The segment test of the second loop of `Path`.
unfoldable pub plain_segment : Text → Bool
plain_segment s = not (text_eq s (codes ".") || text_eq s (codes ".."))

-- `strings.ContainsAny(p, "%\\?#")`.
abbrev pub contains_special : Text → Bool
contains_special p = any (λ c. contains_byte (codes "%\\?#") c) p

unfoldable pub path : Text → Bool
unfolding path_byte plain_segment
path p =
    if not (starts_with_slash p) || contains_special p || contains p (codes "//")
    then false
    else all path_byte p && all plain_segment (split b'/' p)

abbrev pub method_punctuation : Text
method_punctuation = codes "!#$%&'*+-.^_`|~"

-- The byte test of `Method` and of `HeaderName`: a token character.
unfoldable pub token_byte : ℕ → Bool
token_byte c = is_upper c || is_lower c || is_digit c || contains_byte method_punctuation c

abbrev pub is_empty : Text → Bool
is_empty [] = true
is_empty (c ∷ s) = false

unfoldable pub method : Text → Bool
unfolding token_byte equal_fold
method m =
    if is_empty m
      || text_eq m (codes "*")
      || ltb 64 (length m)
      || equal_fold m (codes "CONNECT")
      || equal_fold m (codes "TRACE")
    then false
    else all token_byte m

-- `Slug`: `^[a-z][a-z0-9-]{0,47}$`.
unfoldable pub slug : Text → Bool
slug [] = false
slug (c ∷ s) = is_lower c && leb (length s) 47 && all (λ d. is_lower d || is_digit d || d == b'-') s

-- What `url.Parse` returns, as far as the program reads it.
pub record Url : Type 0 where
  pub scheme : Text
  pub hostname : Text
  pub port : Text
  pub user : Bool
  pub path : Text
  pub raw_path : Text
  pub raw_query : Text
  pub force_query : Bool
  pub fragment : Text
  pub opaque : Text

-- The test of `Base` on a parsed URL.
unfoldable pub base_ok : Url → Bool
base_ok u = not (
    not (text_eq u.scheme (codes "https"))
    || is_empty u.hostname
    || u.user
    || not (is_empty u.raw_query)
    || u.force_query
    || not (is_empty u.fragment)
    || not (is_empty u.raw_path)
    || not (is_empty u.opaque)
    || (not (is_empty u.path) && not (path u.path)))

-- `Base`; `parse` stands for `url.Parse`, `none` is its error.
unfoldable pub base : (Text → Option Url) → Text → Option Url
base parse raw = elim (parse raw) [ none ↦ none | some u ↦ if base_ok u then some u else none ]

-- The byte test of the loop of `Target`.
unfoldable pub query_byte : ℕ → Bool
query_byte c = not (ltb c 33 || ltb 126 c || c == b'#')

-- `Target`, before `u.String()`: the base URL with the path appended and the query put in.
unfoldable pub target : (Text → Option Url) → Text → Text → Text → Option Url
target parse raw p query = elim (base parse raw) [
  | none ↦ none
  | some u ↦
      if not (path p)
      then none
      else if all query_byte query
      then some (record u { path = trim_slash u.path ++ p; raw_query = query })
      else none
]

-- The parts of an `http.Request` that `Route` reads.
pub record Request : Type 0 where
  pub absolute : Bool
  pub raw_path : Text
  pub path : Text
  pub method : Text
  pub upgrade : Text

abbrev push_service : ℕ → Option (Text × Text) → Option (Text × Text)
push_service c none = none
push_service c (some (service, rest)) = some (c ∷ service, rest)

-- `strings.IndexByte(rest, '/')` and the two slices at it.
unfoldable pub cut_slash : Text → Option (Text × Text)
cut_slash [] = none
cut_slash (c ∷ s) =
    let rest = cut_slash s in if c == b'/' then some ([], c ∷ s) else push_service c rest

abbrev pub drop_prefix : Text → Text → Text
drop_prefix s [] = s
drop_prefix [] (c ∷ p) = []
drop_prefix (c ∷ s) (d ∷ p) = drop_prefix s p

-- `Route`; `none` is `ok == false`.
unfoldable pub route : Request → Option (Text × Text)
unfolding cut_slash
route r =
    if r.absolute
      || not (is_empty r.raw_path)
      || not (has_prefix r.path (codes "/s/"))
      || not (method r.method)
      || not (is_empty r.upgrade)
    then none
    else elim (cut_slash (drop_prefix r.path (codes "/s/"))) [
      | none ↦ none
      | some (service, p) ↦ if slug service && path p then some (service, p) else none
    ]
