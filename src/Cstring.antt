-- ===== src/Cstring.antt =====
-- C strings in a byte buffer: what src/http.c uses of <string.h>, <ctype.h> and <stdlib.h>, and its
-- own `strtonum`. A pointer into a buffer is an index.
pub mod Laws
use mathlib.Core.Option
use kitserv.Prelude.{
  ℕ, zero, suc, ◌+◌, ◌-◌, ◌*◌, ◌^◌, Bool, true, false, ◌&&◌, ◌||◌, Option, none, some, List, [],
  ◌∷◌, ◌==◌, leb, if◌then◌else◌, head_or, drop,
}
use kitserv.Prelude.Int.{ℤ, pos, negsuc}

abbrev pub Bytes : Type 0
Bytes = List ℕ

-- `buf[i]`; a read past the known bytes gives NUL.
abbrev pub byte_at : Bytes → ℕ → ℕ
byte_at buf i = head_or 0 (drop i buf)

-- The bytes before the first NUL.
abbrev pub cstr : Bytes → Bytes
cstr [] = []
cstr (x ∷ xs) = if x == 0 then [] else x ∷ cstr xs

abbrev pub string_at : Bytes → ℕ → Bytes
string_at buf p = cstr (drop p buf)

-- `strchr`, as an offset; `c` is never NUL.
unfoldable pub strchr : Bytes → ℕ → Option ℕ
strchr [] c = none
strchr (x ∷ xs) c = if x == c then some 0 else if x == 0 then none else Option.map suc (strchr xs c)

-- `for (; r < end && *r != c; r++);`, as the number of steps.
unfoldable pub steps_to : ℕ → Bytes → ℕ
steps_to c [] = 0
steps_to c (x ∷ xs) = if x == c then 0 else suc (steps_to c xs)

abbrev pub is_digit : ℕ → Bool
is_digit c = leb b'0' c && leb c b'9'

unfoldable pub is_xdigit : ℕ → Bool
is_xdigit c = is_digit c || leb b'a' c && leb c b'f' || leb b'A' c && leb c b'F'

-- The value of a hexadecimal digit, for `sscanf("%2hhx")`.
unfoldable pub hex_value : ℕ → ℕ
hex_value c = if is_digit c then c - b'0' else if leb b'a' c then c - b'a' + 10 else c - b'A' + 10

-- `isprint` in the C locale.
unfoldable pub is_print : ℕ → Bool
is_print c = leb 32 c && leb c 126

unfoldable pub is_space : ℕ → Bool
is_space c = c == 32 || leb 9 c && leb c 13

unfoldable pub to_lower : ℕ → ℕ
to_lower c = if leb b'A' c && leb c b'Z' then c + 32 else c

-- `!memcmp(s, target, sizeof(target) - 1)`: `target` is a prefix.
unfoldable pub has_prefix : Bytes → Bytes → Bool
has_prefix s [] = true
has_prefix [] (t ∷ ts) = false
has_prefix (x ∷ xs) (t ∷ ts) = x == t && has_prefix xs ts

-- `!strcmp(s, t)`
unfoldable pub str_eq : Bytes → Bytes → Bool
str_eq [] [] = true
str_eq [] (t ∷ ts) = false
str_eq (x ∷ xs) [] = false
str_eq (x ∷ xs) (t ∷ ts) = x == t && str_eq xs ts

-- `!strcasecmp(s, t)`
unfoldable pub str_case_eq : Bytes → Bytes → Bool
unfolding to_lower
str_case_eq [] [] = true
str_case_eq [] (t ∷ ts) = false
str_case_eq (x ∷ xs) [] = false
str_case_eq (x ∷ xs) (t ∷ ts) = to_lower x == to_lower t && str_case_eq xs ts

-- Digits up to the end of the string; `none` where another byte stands.
unfoldable pub read_digits : ℕ → Bytes → Option ℕ
read_digits acc [] = some acc
read_digits acc (x ∷ xs) = if is_digit x then read_digits (acc * 10 + (x - b'0')) xs else none

unfoldable pub skip_spaces : Bytes → Bytes
unfolding is_space
skip_spaces [] = []
skip_spaces (x ∷ xs) = if is_space x then skip_spaces xs else x ∷ xs

-- ERANGE beyond `LLONG_MAX` and `LLONG_MIN`.
unfoldable pub in_range : Bool → Option ℕ → Option ℤ
in_range neg none = none
in_range false (some n) = if leb (2 ^ 63) n then none else some (pos n)
in_range true (some zero) = some (pos 0)
in_range true (some (suc n)) = if leb (2 ^ 63) n then none else some (negsuc n)

-- At least one digit is wanted, or `endptr` stays at the start of a string that is not empty.
unfoldable pub signed_digits : Bool → Bytes → Option ℤ
signed_digits neg [] = none
signed_digits neg (x ∷ xs) = in_range neg (read_digits 0 (x ∷ xs))

unfoldable pub after_spaces : Bytes → Option ℤ
after_spaces [] = none
after_spaces (x ∷ xs) =
    if x == b'-'
    then signed_digits true xs
    else if x == b'+'
    then signed_digits false xs
    else signed_digits false (x ∷ xs)

-- `strtonum`: `strtoll` in base 10, `none` on a range error or if a byte is left over. It leaves
-- `endptr` at the NUL of the empty string, which therefore reads as 0.
unfoldable pub strtonum : Bytes → Option ℤ
strtonum [] = some (pos 0)
strtonum (x ∷ xs) = after_spaces (skip_spaces (x ∷ xs))
