-- ===== src/Parser/Scan.antt =====
-- Scans of a buffer that has received more bytes.
use kitserv.Prelude.{
  ℕ, ◌+◌, ◌≤◌, ◌<◌, ◌≡◌, refl, ap, [], ◌∷◌, ◌++◌, arith, if◌then◌else◌, length, drop, length-drop,
  drop-append, drop_all,
}
use kitserv.Cstring.{Bytes, steps_to, has_prefix}
use kitserv.Cstring.Laws.{steps_to-le, steps_to-append_found, steps_to-append_end}
use kitserv.Client.{Client, ParseState}
use kitserv.Parser.{Parse, parse_past_end, scan}

-- What the stages that scan for a delimiter share.
abbrev pub stage : ℕ → ParseState → (Client → ℕ → ℕ → Parse) → Client → ℕ → ℕ → Parse
stage b s found c p r =
    let e = scan b c.req_headers r in if parse_past_end c e then Parse.more s p e c else found c p e

pub scan_bounds :
    (b : ℕ) (buf : Bytes) (r : ℕ)
    → r ≤ length buf
    → (r ≤ scan b buf r) × (scan b buf r ≤ length buf)
scan_bounds b buf r h = omega (arith, steps_to-le b (drop r buf), length-drop {0} r buf)

pub scan-append_found :
    (b : ℕ) (buf more : Bytes) (r : ℕ)
    → r ≤ length buf
    → scan b buf r < length buf
    → scan b (buf ++ more) r ≡ scan b buf r
scan-append_found b buf more r h k = rw (drop-append r buf more h) (
    ap (λ n. r + n)
      (steps_to-append_found b (drop r buf) more (omega (arith, length-drop {0} r buf))))

pub scan-append_end :
    (b : ℕ) (buf more : Bytes) (r : ℕ)
    → r ≤ length buf
    → length buf ≤ scan b buf r
    → scan b (buf ++ more) r ≡ scan b (buf ++ more) (scan b buf r)
scan-append_end b buf more r h k =
    let at_end : scan b buf r ≡ length buf = omega (arith, scan_bounds b buf r h) in
    let all : steps_to b (drop r buf) ≡ length (drop r buf) =
      omega (arith, length-drop {0} r buf) in
    let e1 = steps_to-append_end b (drop r buf) more all in
    rw
      (
        at_end,
        drop-append r buf more h,
        drop-append (length buf) buf more (omega arith),
        drop_all (length buf) buf (omega arith),
      )
      (omega (arith, e1, all, at_end))

pub has_prefix-append :
    (xs ys t : Bytes) → length t ≤ length xs → has_prefix (xs ++ ys) t ≡ has_prefix xs t
unfolding has_prefix
has_prefix-append [] ys [] h = unfold has_prefix in ground arith
has_prefix-append (x ∷ xs) ys [] h = refl
has_prefix-append [] ys (t ∷ ts) h = absurd (omega arith)
has_prefix-append (x ∷ xs) ys (t ∷ ts) h = ground (arith, has_prefix-append xs ys ts)
