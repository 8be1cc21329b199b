-- ===== src/UrlDecode.antt =====
-- `url_decode` of src/http.c, in place on the buffer, and its specification on strings.
pub mod Refine
pub mod RoundTrip
pub mod Place
pub mod Append
use kitserv.Prelude.{
  ℕ, zero, suc, ◌+◌, ◌*◌, Bool, true, false, ◌&&◌, List, [], ◌∷◌, ◌==◌, if◌then◌else◌, length, set,
}
use kitserv.Cstring.{Bytes, byte_at, is_xdigit, hex_value}

abbrev pub is_escape : ℕ → ℕ → ℕ → Bool
is_escape x y z = x == b'%' && is_xdigit y && is_xdigit z

-- `sscanf(s + 1, "%2hhx", &x)` at two hexadecimal digits.
abbrev pub hex_pair : ℕ → ℕ → ℕ
hex_pair y z = hex_value y * 16 + hex_value z

-- `while (*s) { ... }`, then `*r = '\0'`. The fuel bounds the rounds.
unfoldable pub url_decode_loop : ℕ → Bytes → ℕ → ℕ → Bytes
url_decode_loop zero buf s r = buf
url_decode_loop (suc fuel) buf s r =
    let x = byte_at buf s in
    let y = byte_at buf (s + 1) in
    let z = byte_at buf (s + 2) in
    let escaped = url_decode_loop fuel (set buf r (hex_pair y z)) (s + 3) (r + 1) in
    let copied = url_decode_loop fuel (set buf r x) (s + 1) (r + 1) in
    if x == 0 then set buf r 0 else if is_escape x y z then escaped else copied

-- No round is made without a byte of the string, so the length of the buffer is fuel enough.
unfoldable pub url_decode : Bytes → ℕ → Bytes
unfolding url_decode_loop
url_decode buf str = url_decode_loop (length buf) buf str str

-- The specification: `%XY` becomes the byte XY, all else stays.
unfoldable pub decoded : Bytes → Bytes
decoded [] = []
decoded (x ∷ []) = x ∷ []
decoded (x ∷ y ∷ []) = x ∷ y ∷ []
decoded (x ∷ y ∷ z ∷ s) = elim (is_escape x y z) [
  | true ↦ hex_pair y z ∷ decoded s
  | false ↦ x ∷ decoded (y ∷ z ∷ s)
]
