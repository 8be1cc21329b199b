-- ===== src/Traversal.antt =====
-- `attempted_path_traversal` of src/http.c.
pub mod Laws
use mathlib.Core.Option
use kitserv.Prelude.{
  ℕ, suc, ◌+◌, ◌-◌, Bool, true, false, ◌&&◌, ◌||◌, Option, none, some, List, [], ◌∷◌, ◌==◌,
  if◌then◌else◌, head_or,
}
use kitserv.Cstring.{Bytes, byte_at}

abbrev starts_dots : Bytes → Bool
starts_dots s = (head_or 0 s == b'.') && (byte_at s 1 == b'.')

-- `strstr(path, "..")`, as an offset.
unfoldable pub strstr_dots : Bytes → Option ℕ
strstr_dots [] = none
strstr_dots (x ∷ xs) = if starts_dots (x ∷ xs) then some 0 else Option.map suc (strstr_dots xs)

-- The tests at the place found, on a path without its NUL.
unfoldable pub is_dots_segment : Bytes → ℕ → Bool
is_dots_segment path found =
    (byte_at path (found + 2) == 0 || byte_at path (found + 2) == b'/')
    && (found == 0 || byte_at path (found - 1) == b'/')

unfoldable pub attempted_path_traversal : Bytes → Bool
unfolding strstr_dots is_dots_segment
attempted_path_traversal path = elim (strstr_dots path) [
  | none ↦ false
  | some found ↦ is_dots_segment path found
]
