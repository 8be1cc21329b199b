-- ===== src/UrlDecode/RoundTrip.antt =====
-- Percent-encoding, the inverse that a client applies.
use kitserv.Prelude.{
  ℕ, ◌+◌, ◌-◌, ◌/◌, ◌%◌, ◌<◌, ◌≡◌, refl, true, [], ◌∷◌, ◌++◌, arith, ap, ◌∙◌, drop, if◌then◌else◌,
  ltb,
}
use kitserv.Cstring.{Bytes, is_xdigit, hex_value, string_at}
use kitserv.Cstring.Laws.{HasNul}
use kitserv.UrlDecode.{decoded, url_decode}
use kitserv.UrlDecode.Refine.{overwrite, url_decode_lem}

abbrev hex_digit : ℕ → ℕ
hex_digit n = if ltb n 10 then b'0' + n else b'A' + (n - 10)

-- Every byte as `%XY`.
abbrev pub percent_encoded : Bytes → Bytes
percent_encoded [] = []
percent_encoded (c ∷ s) = b'%' ∷ hex_digit (c / 16) ∷ hex_digit (c % 16) ∷ percent_encoded s

abbrev pub AllBytes : Bytes → Type 0
AllBytes [] = Unit
AllBytes (c ∷ s) = (c < 256) × AllBytes s

hex_digit_lem : (n : ℕ) → n < 16 → (is_xdigit (hex_digit n) ≡ true) × (hex_value (hex_digit n) ≡ n)
unfolding is_xdigit hex_value
hex_digit_lem n h = ground arith

-- Decoding a percent-encoded string gives back its bytes, whatever they are.
decoded-percent_encoded : (s : Bytes) → AllBytes s → decoded (percent_encoded s) ≡ s
unfolding decoded
decoded-percent_encoded [] h = refl
decoded-percent_encoded (c ∷ s) h = ground (
  arith,
  hex_digit_lem (c / 16) (omega arith),
  hex_digit_lem (c % 16) (omega arith),
  decoded-percent_encoded s h.1,
)

-- Where the buffer holds a percent-encoded string of any bytes, closed by a NUL, `url_decode` leaves
-- these bytes and a NUL, and changes nothing behind them.
pub url_decode-percent_encoded :
    (buf : Bytes) (str : ℕ) (s : Bytes)
    → AllBytes s
    → HasNul (drop str buf)
    → string_at buf str ≡ percent_encoded s
    → url_decode buf str ≡ overwrite buf str (s ++ 0 ∷ [])
url_decode-percent_encoded buf str s h n e =
    url_decode_lem buf str n
    ∙ ap (λ z. overwrite buf str (z ++ 0 ∷ [])) (ap decoded e ∙ decoded-percent_encoded s h)
