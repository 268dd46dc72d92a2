-- ===== src/Access/Methods.antt =====
-- internal/access/access.go: `Methods`, the sorted comma list of the methods of a permission.
use budge.Base.{
  ℕ, Bool, true, false, not, ◌&&◌, ◌||◌, Option, none, some, List, [], ◌∷◌, ◌++◌, ltb, ◌==◌,
  if◌then◌else◌, any, select,
}
use budge.Base.Text.{Text, text_eq, join, push_head}
use budge.Access.Syntax.{method}

abbrev is_separator : ℕ → Bool
is_separator c = c == b',' || c == 32

split_fields : Text → List Text
split_fields [] = [] ∷ []
split_fields (c ∷ s) =
    let rest = split_fields s in if is_separator c then [] ∷ rest else push_head c rest

abbrev nonempty : Text → Bool
nonempty [] = false
nonempty (c ∷ s) = true

-- `strings.FieldsFunc` at commas and spaces.
unfoldable pub fields : Text → List Text
unfolding split_fields
fields raw = select nonempty (split_fields raw)

-- The byte order of Go strings.
text_lt : Text → Text → Bool
text_lt s [] = false
text_lt [] (d ∷ t) = true
text_lt (c ∷ s) (d ∷ t) = ltb c d || (c == d && text_lt s t)

insert : Text → List Text → List Text
insert m [] = m ∷ []
insert m (n ∷ ns) = let rest = insert m ns in if text_lt n m then n ∷ rest else m ∷ n ∷ ns

-- `sort.Strings`.
unfoldable pub sort : List Text → List Text
unfolding insert text_lt
sort [] = []
sort (m ∷ ms) = insert m (sort ms)

-- The loop of `Methods`; `out` holds what the map `seen` holds.
unfoldable pub collect_methods : List Text → List Text → Option (List Text)
collect_methods out [] = some out
collect_methods out (m ∷ ms) =
    let rest = collect_methods (out ++ (m ∷ [])) ms in
    if not (method m) || any (λ n. text_eq n m) out then none else rest

abbrev joined : Option (List Text) → Option Text
joined none = none
joined (some []) = none
joined (some (m ∷ ms)) = some (join b',' (sort (m ∷ ms)))

-- `Methods`; `none` is its error.
unfoldable pub methods : Text → Option Text
unfolding fields collect_methods sort join
methods raw = joined (collect_methods [] (fields raw))
