-- ===== src/UrlDecode/Append.antt =====
-- `url_decode` of src/http.c in a buffer that has received more bytes.
use kitserv.Prelude.{
  ℕ, zero, suc, ◌+◌, ◌≤◌, ◌<◌, ◌≡◌, refl, ◌∙◌, [], ◌∷◌, ◌++◌, arith, length, drop, set, length-set,
  length-drop, length-append, drop-append, set-append,
}
use kitserv.Cstring.{Bytes, byte_at, string_at}
use kitserv.Cstring.Laws.{HasNul, HasNul-drop, string_at-append, cstr-append}
use kitserv.UrlDecode.{url_decode, decoded}
use kitserv.UrlDecode.Refine.{overwrite, url_decode_lem, length-decoded, length-url_decode}

overwrite-append :
    (buf m : Bytes) (i : ℕ) (bs : Bytes)
    → i + length bs ≤ length buf
    → overwrite (buf ++ m) i bs ≡ overwrite buf i bs ++ m
overwrite-append buf m i [] h = refl
overwrite-append buf m i (b ∷ bs) h =
    rw (set-append buf m i b (omega arith))
      (overwrite-append (set buf i b) m (i + 1) bs (omega (arith, length-set buf i b)))

byte_at-set_ne : (xs : Bytes) (i j v : ℕ) → j < i → byte_at (set xs i v) j ≡ byte_at xs j
byte_at-set_ne [] i j v h = refl
byte_at-set_ne (x ∷ xs) zero j v h = absurd (omega arith)
byte_at-set_ne (x ∷ xs) (suc i) zero v h = refl
byte_at-set_ne (x ∷ xs) (suc i) (suc j) v h = byte_at-set_ne xs i j v (omega arith)

byte_at-overwrite_before :
    (buf : Bytes) (i : ℕ) (bs : Bytes) (j : ℕ)
    → j < i
    → byte_at (overwrite buf i bs) j ≡ byte_at buf j
byte_at-overwrite_before buf i [] j h = refl
byte_at-overwrite_before buf i (b ∷ bs) j h =
    byte_at-overwrite_before (set buf i b) (i + 1) bs j (omega arith) ∙ byte_at-set_ne buf i j b h

byte_at-set_zero_self : (xs : Bytes) (i : ℕ) → byte_at (set xs i 0) i ≡ 0
byte_at-set_zero_self [] zero = refl
byte_at-set_zero_self [] (suc i) = refl
byte_at-set_zero_self (x ∷ xs) zero = refl
byte_at-set_zero_self (x ∷ xs) (suc i) = byte_at-set_zero_self xs i

byte_at-overwrite_end :
    (buf : Bytes) (i : ℕ) (bs : Bytes)
    → byte_at (overwrite buf i (bs ++ 0 ∷ [])) (i + length bs) ≡ 0
byte_at-overwrite_end buf i [] =
    let e : i + 0 ≡ i = omega arith in rw e (byte_at-set_zero_self buf i)
byte_at-overwrite_end buf i (b ∷ bs) =
    let e : i + suc (length bs) ≡ i + 1 + length bs = omega arith in
    rw e (byte_at-overwrite_end (set buf i b) (i + 1) bs)

module _ (buf : Bytes) (str : ℕ) (k : str ≤ length buf) (h : HasNul (drop str buf)) where
  pub url_decode-append : (m : Bytes) → url_decode (buf ++ m) str ≡ url_decode buf str ++ m
  url_decode-append m =
      let s = string_at buf str in
      let h' : HasNul (drop str (buf ++ m)) =
        rw (drop-append str buf m k, cstr-append (drop str buf) m h)
          (omega (arith, length-append {0} (drop str buf) m)) in
      rw
        (url_decode_lem (buf ++ m) str h', url_decode_lem buf str h, string_at-append buf m str k h)
        (overwrite-append buf m str (decoded s ++ 0 ∷ []) (
          omega (
            arith,
            length-append {0} (decoded s) (0 ∷ []),
            length-decoded s,
            length-drop {0} str buf,
          )))

  pub byte_at-url_decode_before : (j : ℕ) → j < str → byte_at (url_decode buf str) j ≡ byte_at buf j
  byte_at-url_decode_before j lt =
      rw (url_decode_lem buf str h)
        (byte_at-overwrite_before buf str (decoded (string_at buf str) ++ 0 ∷ []) j lt)

  pub url_decode-HasNul : HasNul (drop str (url_decode buf str))
  url_decode-HasNul =
      let s = string_at buf str in
      let end = byte_at-overwrite_end buf str (decoded s) in
      HasNul-drop (url_decode buf str) str (str + length (decoded s))
        (rw (url_decode_lem buf str h) end) (omega arith)
        (omega (arith, length-url_decode buf str, length-decoded s, length-drop {0} str buf))
