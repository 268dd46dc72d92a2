-- ===== src/Upstream/Header.antt =====
-- internal/upstream/http.go: header names and values, and the filter `Headers`.
-- An `http.Header` is the list of its fields in order, a field repeated for each of its values.
use budge.Base.{
  ℕ, ◌-◌, Bool, true, false, not, ◌&&◌, ◌||◌, List, [], ◌∷◌, ◌++◌, map, ltb, leb, ◌==◌,
  if◌then◌else◌, any, all,
}
use budge.Base.Text.{Text, codes, text_eq, has_prefix, split, to_lower, equal_fold, lower_byte}
use budge.Access.Syntax.{token_byte}

abbrev pub Field : Type 0
Field = Text × Text

-- The names of the `switch` of `Reserved`.
abbrev pub reserved_names : List Text
reserved_names =
    codes "authorization"
    ∷ codes "proxy-authorization"
    ∷ codes "cookie"
    ∷ codes "set-cookie"
    ∷ codes "www-authenticate"
    ∷ codes "proxy-authenticate"
    ∷ codes "host"
    ∷ codes "connection"
    ∷ codes "keep-alive"
    ∷ codes "proxy-connection"
    ∷ codes "te"
    ∷ codes "trailer"
    ∷ codes "transfer-encoding"
    ∷ codes "upgrade"
    ∷ codes "content-length"
    ∷ codes "forwarded"
    ∷ codes "via"
    ∷ codes "x-real-ip"
    ∷ codes "x-http-method-override"
    ∷ codes "x-http-method"
    ∷ codes "x-method-override"
    ∷ []

abbrev pub reserved_prefixes : List Text
reserved_prefixes =
    codes "x-forwarded-"
    ∷ codes "x-budge-"
    ∷ codes "budge-"
    ∷ codes "sec-"
    ∷ codes "x-auth-"
    ∷ codes "x-remote-"
    ∷ codes "x-ssl-"
    ∷ codes "x-client-cert"
    ∷ []

unfoldable pub reserved : Text → Bool
reserved name =
    let n = to_lower name in
    any (λ r. text_eq n r) reserved_names || any (λ p. has_prefix n p) reserved_prefixes

abbrev is_empty : Text → Bool
is_empty [] = true
is_empty (c ∷ s) = false

unfoldable pub header_name : Text → Bool
unfolding token_byte
header_name n = not (is_empty n) && all token_byte n

unfoldable pub value_byte : ℕ → Bool
value_byte c = not (c == 127 || (ltb c 32 && not (c == 9)))

unfoldable pub header_value : Text → Bool
unfolding value_byte
header_value s = all value_byte s

abbrev upper_byte : ℕ → ℕ
upper_byte c = if leb b'a' c && leb c b'z' then c - 32 else c

-- Upper case at the start and after each dash, lower case elsewhere.
canonical_from : Bool → Text → Text
canonical_from up [] = []
canonical_from up (c ∷ s) =
    (if up then upper_byte c else lower_byte c) ∷ canonical_from (c == b'-') s

-- `http.CanonicalHeaderKey`: a name with a byte that is no token character is left alone.
unfoldable pub canonical_key : Text → Text
unfolding canonical_from token_byte
canonical_key s = if all token_byte s then canonical_from true s else s

-- `strings.TrimSpace`, on ASCII.
abbrev is_space : ℕ → Bool
is_space c = c == 32 || (leb 9 c && leb c 13)

trim_left : Text → Text
trim_left [] = []
trim_left (c ∷ s) = let rest = trim_left s in if is_space c then rest else c ∷ s

abbrev keep_unless_space : ℕ → Text → Text
keep_unless_space c [] = if is_space c then [] else c ∷ []
keep_unless_space c (d ∷ s) = c ∷ d ∷ s

trim_right : Text → Text
trim_right [] = []
trim_right (c ∷ s) = keep_unless_space c (trim_right s)

unfoldable pub trim_space : Text → Text
unfolding trim_left trim_right
trim_space s = trim_right (trim_left s)

-- `src.Values(name)`.
unfoldable pub values : List Field → Text → List Text
values [] name = []
values ((n, v) ∷ src) name = let rest = values src name in if text_eq n name then v ∷ rest else rest

concat_map : (Text → List Text) → List Text → List Text
concat_map f [] = []
concat_map f (x ∷ xs) = f x ++ concat_map f xs

-- The keys of the map `connection`: the names that a Connection header nominates.
unfoldable pub nominated : List Field → List Text
unfolding concat_map
nominated src =
    concat_map (λ line. map (λ n. canonical_key (trim_space n)) (split b',' line))
      (values src (codes "Connection"))

-- The guard of the loop of `Headers`, on a canonical name.
unfoldable pub passes : List Field → Text → Text → Bool
passes src credential_header n = not (
    not (header_name n)
    || reserved n
    || equal_fold n credential_header
    || any (λ m. text_eq m n) (nominated src))

abbrev pub add_values : Text → List Text → List Field
add_values n [] = []
add_values n (v ∷ vs) = let rest = add_values n vs in if header_value v then (n, v) ∷ rest else rest

-- The loop of `Headers` over the allowed names.
unfoldable pub headers_from : List Field → Text → List Text → List Field
headers_from src credential_header [] = []
headers_from src credential_header (name ∷ allowed) =
    let n = canonical_key name in
    let rest = headers_from src credential_header allowed in
    if passes src credential_header n then add_values n (values src n) ++ rest else rest

unfoldable pub headers : List Field → List Text → Text → List Field
unfolding headers_from
headers src allowed credential_header = headers_from src credential_header allowed
