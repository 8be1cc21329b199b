-- ===== src/Range/Laws.antt =====
-- The ranges that src/http.c accepts, and what is then served.
use kitserv.Prelude.{
  take-length, ℕ, suc, ◌+◌, ◌-◌, ◌*◌, ◌^◌, ◌≤◌, ◌<◌, ◌≡◌, refl, ap, ◌∙◌, ◌⊎◌, true, false, ltb,
  Option, none, some, [], ◌∷◌, ◌++◌, ◌==◌, arith, if◌then◌else◌, leb, length, drop, codes, min,
}
use kitserv.Prelude.Int.{ℤ, pos, ◌-ℤ◌, ◌≤ℤ◌}
use kitserv.Cstring.{
  Bytes, is_digit, has_prefix, read_digits, strtonum, skip_spaces, after_spaces, signed_digits,
  in_range, is_space,
}
use kitserv.Status.{Status}
use kitserv.Client.{Client, Rc}
use kitserv.Range.{
  minus_one, find_hyphen, parse_sections, at_hyphen, parse_range_string, range_known,
}

-- A number is written in digits.
abbrev pub AllDigits : Bytes → Type 0
AllDigits [] = Unit
AllDigits (x ∷ xs) = (is_digit x ≡ true) × AllDigits xs

-- Its value.
abbrev pub decimal : ℕ → Bytes → ℕ
decimal acc [] = acc
decimal acc (x ∷ xs) = decimal (acc * 10 + (x - b'0')) xs

read_digits-decimal :
    (acc : ℕ) (xs : Bytes) → AllDigits xs → read_digits acc xs ≡ some (decimal acc xs)
unfolding read_digits
read_digits-decimal acc [] h = refl
read_digits-decimal acc (x ∷ xs) h = rw h.0 (read_digits-decimal (acc * 10 + (x - b'0')) xs h.1)

digit_lem :
    (x : ℕ)
    → is_digit x ≡ true
    → (is_space x ≡ false) × ((x == b'-') ≡ false) × ((x == b'+') ≡ false)
unfolding is_space
digit_lem x h = ground arith

-- What `strtoll` gives for a number, with its range check.
abbrev pub value_of : Bytes → Option ℤ
value_of xs = if leb (2 ^ 63) (decimal 0 xs) then none else some (pos (decimal 0 xs))

signed_digits-decimal :
    (x : ℕ) (xs : Bytes) → AllDigits (x ∷ xs) → signed_digits false (x ∷ xs) ≡ value_of (x ∷ xs)
unfolding signed_digits in_range
signed_digits-decimal x xs h = rw (read_digits-decimal 0 (x ∷ xs) h)

-- `strtonum` reads a number of digits below 2^63, and refuses a larger one.
pub strtonum-decimal :
    (x : ℕ) (xs : Bytes) → AllDigits (x ∷ xs) → strtonum (x ∷ xs) ≡ value_of (x ∷ xs)
unfolding strtonum skip_spaces after_spaces
strtonum-decimal x xs h =
    let d = digit_lem x h.0 in rw (d.0, d.1, d.2) (signed_digits-decimal x xs h)

find_hyphen_after :
    (r h : ℕ) (ys : Bytes) → AllDigits ys → find_hyphen r (some h) ys ≡ some (some h)
unfolding find_hyphen
find_hyphen_after r h [] d = refl
find_hyphen_after r h (y ∷ ys) d = rw d.0 (find_hyphen_after (r + 1) h ys d.1)

find_hyphen_at :
    (r : ℕ) (xs ys : Bytes)
    → AllDigits xs
    → AllDigits ys
    → find_hyphen r none (xs ++ b'-' ∷ ys) ≡ some (some (r + length xs))
unfolding find_hyphen
find_hyphen_at r [] ys dx dy = ground (arith, find_hyphen_after (r + 1) r ys dy)
find_hyphen_at r (x ∷ xs) ys dx dy =
    rw (dx.0, (digit_lem x dx.0).1)
      (find_hyphen_at (r + 1) xs ys dx.1 dy
        ∙ ap (λ k. some (some k))
            (let e : r + 1 + length xs ≡ r + suc (length xs) = omega arith in e))

drop-length_suc : (xs ys : Bytes) (y : ℕ) → drop (length xs + 1) (xs ++ y ∷ ys) ≡ ys
drop-length_suc [] ys y = refl
drop-length_suc (x ∷ xs) ys y =
    let e : suc (length xs) + 1 ≡ suc (length xs + 1) = omega arith in
    rw e (drop-length_suc xs ys y)

-- A header `bytes=XXX-YYY`, either number left out, is read as its two sections.
parse_range_string-sections :
    (xs ys : Bytes)
    → AllDigits xs
    → AllDigits ys
    → parse_range_string (codes "bytes=" ++ xs ++ b'-' ∷ ys) ≡ parse_sections xs ys
unfolding parse_range_string has_prefix at_hyphen
parse_range_string-sections xs ys dx dy =
    let e : 0 + length xs ≡ length xs = omega arith in
    ap (at_hyphen (xs ++ b'-' ∷ ys)) (find_hyphen_at 0 xs ys dx dy)
    ∙ rw (e, take-length xs (b'-' ∷ ys), drop-length_suc xs ys b'-')

-- The three forms of a range header are read as the numbers that they show, below 2^63: `XXX-YYY` as
-- both, refused where the second is smaller, `XXX-` as the first and -1, and `-YYY` as -1 and the
-- second.
pub parse_range_string_lem :
    (x : ℕ) (xs : Bytes) (y : ℕ) (ys : Bytes)
    → AllDigits (x ∷ xs)
    → AllDigits (y ∷ ys)
    → decimal 0 (x ∷ xs) < 2 ^ 63
    → decimal 0 (y ∷ ys) < 2 ^ 63
    → let a = decimal 0 (x ∷ xs) in
      let b = decimal 0 (y ∷ ys) in
      (parse_range_string (codes "bytes=" ++ (x ∷ xs) ++ b'-' ∷ y ∷ ys)
        ≡ (if ltb b a then none else some (pos a, pos b)))
      × (parse_range_string (codes "bytes=" ++ (x ∷ xs) ++ b'-' ∷ []) ≡ some (pos a, minus_one))
      × (parse_range_string (codes "bytes=" ++ b'-' ∷ y ∷ ys) ≡ some (minus_one, pos b))
unfolding parse_sections
parse_range_string_lem x xs y ys dx dy hx hy =
    let vx = strtonum-decimal x xs dx in
    let vy = strtonum-decimal y ys dy in
    (
      ground (arith, parse_range_string-sections (x ∷ xs) (y ∷ ys) dx dy, vx, vy),
      ground (arith, parse_range_string-sections (x ∷ xs) [] dx tt, vx),
      ground (arith, parse_range_string-sections [] (y ∷ ys) tt dy, vy),
    )

-- A range with both ends is in order.
abbrev Ordered : Option (ℤ × ℤ) → Type 0
Ordered none = Unit
Ordered (some (from, to)) = (to ≤ℤ minus_one) ⊎ (from ≤ℤ to)

-- What `parse_range_request` gives for a file of `filesize` bytes and a header that was read as `o`: it
-- fails for the two causes, and else the range lies in the file and has a byte, unless it begins at the
-- very end of the file.
abbrev pub IsServed : ℕ → Option (ℤ × ℤ) → Client × Rc → Type 0
IsServed filesize o (c, Rc.fail) =
    ((o ≡ none) × (c.ta.resp_status ≡ Status.bad_request))
    ⊎ ((from : ℕ) × (to : ℤ) × (o ≡ some (pos from, to))
        × (filesize < from)
        × (c.ta.resp_status ≡ Status.range_not_satisfiable))
IsServed filesize o (c, Rc.ok) =
    (pos 0 ≤ℤ c.ta.resp_body_pos)
    × (c.ta.resp_body_end ≤ℤ pos filesize -ℤ pos 1)
    × ((c.ta.resp_body_pos ≤ℤ c.ta.resp_body_end)
        ⊎ ((c.ta.resp_body_pos ≡ pos filesize) × (c.ta.resp_body_end ≡ pos filesize -ℤ pos 1)))

-- What is served of a file of `n` bytes, once the header is read, for XXX inside the file and YYY
-- no less than XXX and not 0. `XXX-YYY` gives the bytes XXX to YYY, cut at the end of the file,
-- `XXX-` those from XXX to the end, and `-YYY`, with YYY below the size, the last YYY bytes.
pub range_known-exact :
    (c : Client) (n a b : ℕ)
    → a < n
    → a ≤ b
    → 0 < b
    → let whole = range_known c (pos n) in
      (whole (some (pos a, pos b)) ≡ (
        record c {
          ta = record c.ta { resp_body_pos = pos a; resp_body_end = pos (min b (n - 1)) };
        },
        Rc.ok,
      ))
      × (whole (some (pos a, minus_one)) ≡ (
        record c { ta = record c.ta { resp_body_pos = pos a; resp_body_end = pos (n - 1) } },
        Rc.ok,
      ))
      × (b < n
          → whole (some (minus_one, pos b)) ≡ (
            record c {
              ta = record c.ta { resp_body_pos = pos (n - b); resp_body_end = pos (n - 1) };
            },
            Rc.ok,
          ))
unfolding range_known ◌-ℤ◌
range_known-exact c n a b h k l = (ground arith, ground arith, λ m. ground arith)

-- The flaw: of a file that is not empty, `-YYY` with YYY no less than the size asks for the whole,
-- and is served without its first byte, since YYY is cut to the last offset and not to the size.
pub range_known_suffix :
    (c : Client) (n b : ℕ)
    → 0 < n
    → n ≤ b
    → range_known c (pos n) (some (minus_one, pos b)) ≡ (
      record c { ta = record c.ta { resp_body_pos = pos 1; resp_body_end = pos (n - 1) } },
      Rc.ok,
    )
unfolding range_known ◌-ℤ◌
range_known_suffix c n b h k = ground arith
