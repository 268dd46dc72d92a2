-- ===== src/Access/Scope.antt =====
-- internal/access/access.go: permissions, what they match, and when two of them overlap.
use budge.Base.{ℕ, Bool, true, false, not, ◌&&◌, ◌||◌, Option, ◌++◌, any, if◌then◌else◌}
use budge.Base.Text.{Text, codes, text_eq, has_prefix, trim_slash, split}

-- The values of the columns `path_kind` and `mode` that `addPermission` lets in.
pub data Kind : Type 0 where
  exact subtree : Kind

pub data Mode : Type 0 where
  standing approval_required : Mode

pub record Permission : Type 0 where
  pub id : Text
  pub device_id : Text
  pub service_id : Text
  pub revision : ℕ
  pub method : Text
  pub path : Text
  pub kind : Kind
  pub mode : Mode
  pub owner : Text
  pub expires : Option ℕ

abbrev is_subtree : Kind → Bool
is_subtree exact = false
is_subtree subtree = true

-- `HasMethod`: the loop over the methods of a comma list.
unfoldable pub has_method : Text → Text → Bool
has_method methods m = any (λ n. text_eq n m) (split b',' methods)

-- The path half of `Match`.
unfoldable pub match_path : Permission → Text → Bool
match_path p path =
    text_eq path p.path || (is_subtree p.kind && has_prefix path (trim_slash p.path ++ codes "/"))

unfoldable pub matches : Permission → Text → Text → Bool
matches p method path = has_method p.method method && match_path p path

-- The body of the loop of `Overlap`.
unfoldable pub overlap_method : Permission → Permission → Text → Bool
overlap_method a b m =
    if not (has_method b.method m) then false else matches a m b.path || matches b m a.path

unfoldable pub overlap : Permission → Permission → Bool
overlap a b = any (overlap_method a b) (split b',' a.method)
