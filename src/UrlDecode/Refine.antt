-- ===== src/UrlDecode/Refine.antt =====
-- The loop of `url_decode` in src/http.c, against its specification.
use kitserv.Prelude.{
  ℕ, zero, suc, ◌+◌, ◌≤◌, ◌<◌, ◌≡◌, refl, ap, ◌∙◌, inl, inr, Bool, true, false, [], ◌∷◌, ◌++◌, ◌==◌,
  arith, length, drop, head_or, set, Bool-cases, drop-add, drop-set, length-drop, length-set,
}
use kitserv.Cstring.{Bytes, byte_at, cstr, string_at, is_xdigit}
use kitserv.Cstring.Laws.{HasNul}
use kitserv.UrlDecode.{is_escape, hex_pair, url_decode_loop, url_decode, decoded}

-- The buffer with `bs` written from index `i` on.
abbrev pub overwrite : Bytes → ℕ → Bytes → Bytes
overwrite buf i [] = buf
overwrite buf i (b ∷ bs) = overwrite (set buf i b) (i + 1) bs

-- The first three bytes of a string, as the loop tests them.
abbrev escape_at : Bytes → Bool
escape_at t = is_escape (head_or 0 t) (head_or 0 (drop 1 t)) (head_or 0 (drop 2 t))

xdigit-ne-zero : (y : ℕ) → is_xdigit y ≡ true → (y == 0) ≡ false
unfolding is_xdigit
xdigit-ne-zero y h = ground arith

cstr_escape :
    (t : Bytes)
    → escape_at t ≡ true
    → cstr t ≡ head_or 0 t ∷ head_or 0 (drop 1 t) ∷ head_or 0 (drop 2 t) ∷ cstr (drop 3 t)
cstr_escape [] h = absurd (cc)
cstr_escape (x ∷ []) h = ground (arith, xdigit-ne-zero 0)
cstr_escape (x ∷ y ∷ []) h = ground (arith, xdigit-ne-zero 0)
cstr_escape (x ∷ y ∷ z ∷ t) h = ground (arith, xdigit-ne-zero y, xdigit-ne-zero z)

cstr_copy : (t : Bytes) → (head_or 0 t == 0) ≡ false → cstr t ≡ head_or 0 t ∷ cstr (drop 1 t)
cstr_copy [] h = ground arith
cstr_copy (x ∷ t) h = ground arith

decoded_escape :
    (x y z : ℕ) (t : Bytes)
    → is_escape x y z ≡ true
    → decoded (x ∷ y ∷ z ∷ t) ≡ hex_pair y z ∷ decoded t
unfolding decoded
decoded_escape x y z t h = ground arith

decoded_copy :
    (t : Bytes)
    → (head_or 0 t == 0) ≡ false
    → escape_at t ≡ false
    → decoded (cstr t) ≡ head_or 0 t ∷ decoded (cstr (drop 1 t))
unfolding decoded
decoded_copy [] g h = ground arith
decoded_copy (x ∷ []) g h = ground arith
decoded_copy (x ∷ y ∷ []) g h = ground arith
decoded_copy (x ∷ y ∷ z ∷ t) g h = ground arith

cstr_nul : (t : Bytes) → (head_or 0 t == 0) ≡ true → cstr t ≡ []
cstr_nul [] h = refl
cstr_nul (x ∷ t) h = ground arith

byte_at-add : (buf : Bytes) (s k : ℕ) → byte_at buf (s + k) ≡ head_or 0 (drop k (drop s buf))
byte_at-add buf s k = ap (head_or 0) (drop-add s k buf)

-- The string further on is not touched by a write behind it.
string_at-set :
    (buf : Bytes) (r s k v : ℕ)
    → r < s + k
    → string_at (set buf r v) (s + k) ≡ cstr (drop k (drop s buf))
string_at-set buf r s k v h = ap cstr (drop-set buf r (s + k) v h ∙ drop-add s k buf)

length_escape : (t : Bytes) → escape_at t ≡ true → length (cstr t) ≡ length (cstr (drop 3 t)) + 3
length_escape t h = rw (cstr_escape t h) (omega arith)

length_copy :
    (t : Bytes) → (head_or 0 t == 0) ≡ false → length (cstr t) ≡ length (cstr (drop 1 t)) + 1
length_copy t h = rw (cstr_copy t h) (omega arith)

decoded-escape_at :
    (t : Bytes)
    → escape_at t ≡ true
    → decoded (cstr t)
      ≡ hex_pair (head_or 0 (drop 1 t)) (head_or 0 (drop 2 t)) ∷ decoded (cstr (drop 3 t))
decoded-escape_at t h = rw (cstr_escape t h) (decoded_escape _ _ _ _ h)

loop_lem :
    (fuel : ℕ) (buf : Bytes) (s r : ℕ)
    → r ≤ s
    → length (string_at buf s) < fuel
    → url_decode_loop fuel buf s r ≡ overwrite buf r (decoded (string_at buf s) ++ 0 ∷ [])
unfolding url_decode_loop
loop_lem zero buf s r h k = absurd (omega arith)
loop_lem (suc fuel) buf s r h k = elim (Bool-cases (byte_at buf s == 0)) [
  | inl nul ↦ rw (nul, cstr_nul (drop s buf) nul) (unfold decoded in refl)
  | inr live ↦
      rw (live, byte_at-add buf s 1, byte_at-add buf s 2)
        (elim (Bool-cases (escape_at (drop s buf))) [
          | inl esc ↦
              rw (esc, decoded-escape_at (drop s buf) esc)
                (let v =
                    hex_pair (head_or 0 (drop 1 (drop s buf))) (head_or 0 (drop 2 (drop s buf))) in
                  let e = string_at-set buf r s 3 v (omega arith) in
                  loop_lem fuel (set buf r v) (s + 3) (r + 1) (omega arith)
                    (rw e (omega (arith, length_escape (drop s buf) esc)))
                  ∙ rw e)
          | inr plain ↦
              rw (plain, decoded_copy (drop s buf) live plain)
                (let v = byte_at buf s in
                  let e = string_at-set buf r s 1 v (omega arith) in
                  loop_lem fuel (set buf r v) (s + 1) (r + 1) (omega arith)
                    (rw e (omega (arith, length_copy (drop s buf) live)))
                  ∙ rw e)
        ])
]

-- For every string in the buffer that is closed by a NUL, `url_decode` writes the decoded string
-- and a NUL from its start on, and changes no other byte.
pub url_decode_lem :
    (buf : Bytes) (str : ℕ)
    → HasNul (drop str buf)
    → url_decode buf str ≡ overwrite buf str (decoded (string_at buf str) ++ 0 ∷ [])
unfolding url_decode
url_decode_lem buf str h =
    loop_lem (length buf) buf str str (omega arith) (omega (arith, length-drop {0} str buf))

-- The decoded string is no longer than the source, so the writes stay inside the string.
pub length-decoded : (s : Bytes) → length (decoded s) ≤ length s
unfolding decoded
length-decoded [] = omega arith
length-decoded (x ∷ []) = omega arith
length-decoded (x ∷ y ∷ []) = omega arith
length-decoded (x ∷ y ∷ z ∷ s) = ground (arith, length-decoded s, length-decoded (y ∷ z ∷ s))

length-url_decode_loop :
    (fuel : ℕ) (buf : Bytes) (s r : ℕ) → length (url_decode_loop fuel buf s r) ≡ length buf
unfolding url_decode_loop
length-url_decode_loop zero buf s r = refl
length-url_decode_loop (suc fuel) buf s r =
    let x = byte_at buf s in
    let v = hex_pair (byte_at buf (s + 1)) (byte_at buf (s + 2)) in
    ground (
      arith,
      length-set buf r 0,
      length-url_decode_loop fuel (set buf r v) (s + 3) (r + 1),
      length-set buf r v,
      length-url_decode_loop fuel (set buf r x) (s + 1) (r + 1),
      length-set buf r x,
    )

pub length-url_decode : (buf : Bytes) (str : ℕ) → length (url_decode buf str) ≡ length buf
unfolding url_decode
length-url_decode buf str = length-url_decode_loop (length buf) buf str str
