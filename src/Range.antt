-- ===== src/Range.antt =====
-- Range requests in src/http.c: `kitserv_http_parse_range` and `parse_range_request`. The hyphen that
-- the first overwrites for a moment is restored on every path, so the header is read as two strings.
pub mod Laws
use kitserv.Prelude.{
  ℕ, ◌+◌, Bool, true, false, ◌&&◌, ◌||◌, Option, none, some, List, [], ◌∷◌, ◌==◌, if◌then◌else◌,
  take, drop, codes,
}
use kitserv.Prelude.Int.{ℤ, pos, negsuc, ◌-ℤ◌, ltb_ℤ}
use kitserv.Cstring.{Bytes, is_digit, has_prefix, strtonum, string_at}
use kitserv.Status.{Status}
use kitserv.Client.{Client, Rc, with_status}

abbrev pub minus_one : ℤ
minus_one = negsuc 0

-- The loop over `*r`: `none` is `return -1`, else the place of the hyphen, if there is one.
unfoldable pub find_hyphen : ℕ → Option ℕ → Bytes → Option (Option ℕ)
find_hyphen r hyphen [] = some hyphen
find_hyphen r none (x ∷ xs) =
    if is_digit x || x == b'-'
    then find_hyphen (r + 1) (if x == b'-' then some r else none) xs
    else none
find_hyphen r (some h) (x ∷ xs) = if is_digit x then find_hyphen (r + 1) (some h) xs else none

-- `bytes=XXX-YYY`, once both numbers are read.
abbrev ordered : ℤ → Option ℤ → Option (ℤ × ℤ)
ordered from none = none
ordered from (some to) = if ltb_ℤ to from then none else some (from, to)

abbrev both : Option ℤ → Option ℤ → Option (ℤ × ℤ)
both none to = none
both (some from) to = ordered from to

abbrev only_from : Option ℤ → Option (ℤ × ℤ)
only_from none = none
only_from (some from) = some (from, minus_one)

abbrev only_to : Option ℤ → Option (ℤ × ℤ)
only_to none = none
only_to (some to) = some (minus_one, to)

-- The strings before and behind the hyphen.
unfoldable pub parse_sections : Bytes → Bytes → Option (ℤ × ℤ)
parse_sections [] [] = none
parse_sections [] (y ∷ ys) = only_to (strtonum (y ∷ ys))
parse_sections (x ∷ xs) [] = only_from (strtonum (x ∷ xs))
parse_sections (x ∷ xs) (y ∷ ys) = both (strtonum (x ∷ xs)) (strtonum (y ∷ ys))

unfoldable pub at_hyphen : Bytes → Option (Option ℕ) → Option (ℤ × ℤ)
unfolding parse_sections
at_hyphen s none = none
at_hyphen s (some none) = none
at_hyphen s (some (some h)) = parse_sections (take h s) (drop (h + 1) s)

-- On the value of the header; `none` is -1.
unfoldable pub parse_range_string : Bytes → Option (ℤ × ℤ)
unfolding at_hyphen find_hyphen
parse_range_string p =
    if has_prefix p (codes "bytes=")
    then at_hyphen (drop 6 p) (find_hyphen 0 none (drop 6 p))
    else none

abbrev range_of : Client → Option ℕ → Option (ℤ × ℤ)
range_of c none = none
range_of c (some p) = parse_range_string (string_at c.req_headers p)

-- `kitserv_http_parse_range`
unfoldable pub parse_range : Client → Option (ℤ × ℤ)
parse_range c = if c.ta.range_requested then range_of c c.ta.req_range else none

-- `to` after the clamp: `bytes=XXX-`, or past the end.
abbrev clamp_to : ℤ → ℤ → ℤ
clamp_to to filesize =
    if ltb_ℤ to (pos 0) || ltb_ℤ (filesize -ℤ pos 1) to then filesize -ℤ pos 1 else to

abbrev set_range : Client → ℤ → ℤ → Client
set_range c from to = record c { ta = record c.ta { resp_body_pos = from; resp_body_end = to } }

unfoldable pub range_known : Client → ℤ → Option (ℤ × ℤ) → Client × Rc
range_known c filesize none = (with_status c Status.bad_request, Rc.fail)
range_known c filesize (some (from, to)) =
    let to' = clamp_to to filesize in
    if ltb_ℤ from (pos 0)
    then (set_range c (filesize -ℤ to') (filesize -ℤ pos 1), Rc.ok)
    else if ltb_ℤ filesize from
    then (with_status c Status.range_not_satisfiable, Rc.fail)
    else (set_range c from to', Rc.ok)

-- `parse_range_request`
unfoldable pub parse_range_request : Client → ℤ → Client × Rc
unfolding range_known
parse_range_request c filesize = range_known c filesize (parse_range c)
