-- ===== src/Cookies/RoundTrip.antt =====
-- What `kitserv_http_parse_cookies` of src/http.c reads of a cookie header.
use kitserv.Prelude.{
  ℕ, zero, suc, ◌+◌, ◌-◌, ◌<◌, ◌≡◌, ap, ap₂, ◌∙◌, sym, Bool, true, none, some, List, [], ◌∷◌, ◌++◌,
  arith, length, length-append, append_assoc,
}
use kitserv.Cstring.{Bytes}
use kitserv.Client.{Cookie, http_max_cookies}
use kitserv.Cookies.{Spotted, cookie_round, cookie_loop}
use kitserv.Cookies.Text.{
  Pair, IsClean, AllClean, gap, cookie_text, cut_text, placed, places, strchr_at, strchr-none,
  found_more, found_last, round_lem,
}

-- The lengths that the two rounds speak of.
placed_lem :
    (pre : Bytes) (g : Bool) (name : Bytes)
    → record {
      key = length (pre ++ gap g);
      value = length ((pre ++ gap g) ++ name) + 1;
      keylen = length ((pre ++ gap g) ++ name) + 1 - length (pre ++ gap g) - 1;
    }
      ≡ placed (length pre + length (gap g)) (length name)
placed_lem pre g name =
    ap
      (λ k. record {
        key = length (pre ++ gap g);
        value = k + 1;
        keylen = k + 1 - length (pre ++ gap g) - 1;
      })
      (length-append (pre ++ gap g) name)
    ∙ ap (λ k. placed k (length name)) (length-append pre (gap g))

-- The next round begins behind the NUL of the value.
abbrev done : Bytes → Bytes → Bytes
done front value = front ++ 0 ∷ (value ++ 0 ∷ [])

length-done :
    (front value : Bytes) → length front + suc (length value) + 1 ≡ length (done front value)
length-done front value =
    omega (arith, length-append front (0 ∷ (value ++ 0 ∷ [])), length-append value (0 ∷ []))

done-append :
    (front value more : Bytes) → front ++ 0 ∷ (value ++ 0 ∷ more) ≡ done front value ++ more
done-append front value more = simp append_assoc

length-done_places :
    (pre : Bytes) (g : Bool) (name value : Bytes)
    → length (done ((pre ++ gap g) ++ name) value)
      ≡ length pre + length (gap g) + length name + 1 + length value + 1
length-done_places pre g name value = omega (
  arith,
  length-done ((pre ++ gap g) ++ name) value,
  length-append (pre ++ gap g) name,
  length-append pre (gap g),
)

pub cookie_loop-places :
    (ks : List Pair) (k : Pair) (fuel : ℕ) (pre : Bytes) (g : Bool) (post : Bytes)
    (cookies : List Cookie)
    → IsClean k
    → AllClean ks
    → length ks < fuel
    → length cookies + length ks < http_max_cookies
    → cookie_loop fuel (pre ++ (cookie_text g k ks ++ 0 ∷ post)) (length pre) cookies
      ≡ Spotted.spotted
          (pre ++ (cut_text g k ks ++ 0 ∷ post))
          (cookies ++ places (length pre) g k ks)
unfolding cookie_loop
cookie_loop-places ks k zero pre g post cookies c cs f l = absurd (omega arith)
cookie_loop-places [] (name, value) (suc fuel) pre g post cookies (z, e, n, zv, sv, h) cs f l =
    let rest = value ++ 0 ∷ post in
    let front = (pre ++ gap g) ++ name in
    let text : (gap g ++ (name ++ b'=' ∷ value)) ++ 0 ∷ post ≡ gap g ++ (name ++ b'=' ∷ rest) =
      simp append_assoc in
    let cut : pre ++ ((gap g ++ (name ++ 0 ∷ value)) ++ 0 ∷ post) ≡ front ++ 0 ∷ rest =
      simp append_assoc in
    ap (λ b. cookie_round (cookie_loop fuel) (pre ++ b) (length pre) cookies) text
    ∙ round_lem (cookie_loop fuel) cookies (omega arith) pre g name rest none z e n
        (strchr-none b';' (b'=' ∷ value) post (ground arith) (ground arith, zv) (ground arith, sv))
    ∙ found_last (cookie_loop fuel) cookies (omega arith) (length (pre ++ gap g)) front rest
    ∙ ap₂ (λ b p. Spotted.spotted b (cookies ++ p ∷ [])) (sym cut) (placed_lem pre g name)
cookie_loop-places (k ∷ ks) (name, value) (suc fuel) pre g post cookies (z, e, n, zv, sv, h) (c, cs)
      f l =
    let more = cookie_text true k ks ++ 0 ∷ post in
    let after = cut_text true k ks ++ 0 ∷ post in
    let rest = value ++ b';' ∷ more in
    let front = (pre ++ gap g) ++ name in
    let this = placed (length pre + length (gap g)) (length name) in
    let text : (gap g ++ (name ++ b'=' ∷ (value ++ b';' ∷ cookie_text true k ks))) ++ 0 ∷ post
        ≡ gap g ++ (name ++ b'=' ∷ rest) =
      simp append_assoc in
    let cut : pre ++ ((gap g ++ (name ++ 0 ∷ (value ++ 0 ∷ cut_text true k ks))) ++ 0 ∷ post)
        ≡ done front value ++ after =
      simp append_assoc in
    ap (λ b. cookie_round (cookie_loop fuel) (pre ++ b) (length pre) cookies) text
    ∙ round_lem (cookie_loop fuel) cookies (omega arith) pre g name rest (some (suc (length value)))
        z e n (strchr_at b';' (b'=' ∷ value) more (ground arith, zv) (ground arith, sv))
    ∙ found_more (cookie_loop fuel) cookies (omega arith) (length (pre ++ gap g)) front value more h
    ∙ ap₂
        (λ b i. cookie_loop fuel b i (
          cookies
          ++ record {
            key = length (pre ++ gap g);
            value = length front + 1;
            keylen = length front + 1 - length (pre ++ gap g) - 1;
          }
            ∷ []))
        (done-append front value more) (length-done front value)
    ∙ ap
        (λ p.
          cookie_loop fuel (done front value ++ more) (length (done front value))
            (cookies ++ p ∷ []))
        (placed_lem pre g name)
    ∙ cookie_loop-places ks k fuel (done front value) true post (cookies ++ this ∷ []) c cs
        (omega arith) (omega (arith, length-append {0} cookies (this ∷ [])))
    ∙ ap₂ Spotted.spotted (sym cut) (
        append_assoc cookies (this ∷ []) (places (length (done front value)) true k ks)
        ∙ ap (λ i. cookies ++ this ∷ places i true k ks) (length-done_places pre g name value))
