-- ===== src/Cookies/Text.antt =====
-- The text of a cookie header, and one round of `kitserv_http_parse_cookies` of src/http.c on it.
use kitserv.Prelude.{
  ℕ, suc, ◌+◌, ◌-◌, ◌<◌, ◌≡◌, ◌≢◌, refl, ap, ◌∙◌, sym, Bool, true, false, Option, none, some, List,
  [], ◌∷◌, ◌++◌, arith, length, drop, set, length-append, append_assoc, drop-length, set-length,
}
use kitserv.Cstring.{Bytes, strchr}
use kitserv.Client.{Cookie, http_max_cookies}
use kitserv.Cookies.{Spotted, Round, skip_space, offset, cookie_found, with_name, cookie_round}

abbrev pub Avoids : ℕ → Bytes → Type 0
Avoids c [] = Unit
Avoids c (x ∷ xs) = (x ≢ c) × Avoids c xs

-- A name does not begin with a space, which is skipped.
abbrev pub NoSpace : Bytes → Type 0
NoSpace [] = Unit
NoSpace (x ∷ xs) = x ≢ b' '

-- A cookie as a pair of name and value.
abbrev pub Pair : Type 0
Pair = Bytes × Bytes

abbrev pub IsClean : Pair → Type 0
IsClean (name, value) =
    Avoids 0 name
    × Avoids b'=' name
    × NoSpace name
    × Avoids 0 value
    × Avoids b';' value
    × (0 < length value)

abbrev pub AllClean : List Pair → Type 0
AllClean [] = Unit
AllClean (k ∷ ks) = IsClean k × AllClean ks

-- The space before all cookies but the first.
abbrev pub gap : Bool → Bytes
gap true = b' ' ∷ []
gap false = []

-- The value of the header: `name=value; name=value`. The first cookie stands apart.
abbrev pub cookie_text : Bool → Pair → List Pair → Bytes
cookie_text g (name, value) [] = gap g ++ (name ++ b'=' ∷ value)
cookie_text g (name, value) (k ∷ ks) =
    gap g ++ (name ++ b'=' ∷ (value ++ b';' ∷ cookie_text true k ks))

-- What the buffer holds behind the parse: each `=` and `;` has become a NUL.
abbrev pub cut_text : Bool → Pair → List Pair → Bytes
cut_text g (name, value) [] = gap g ++ (name ++ 0 ∷ value)
cut_text g (name, value) (k ∷ ks) = gap g ++ (name ++ 0 ∷ (value ++ 0 ∷ cut_text true k ks))

-- A cookie whose name of `n` bytes stands at `p`.
abbrev pub placed : ℕ → ℕ → Cookie
placed p n = record { key = p; value = p + n + 1; keylen = p + n + 1 - p - 1 }

-- Where the cookies of a header at `i` stand.
abbrev pub places : ℕ → Bool → Pair → List Pair → List Cookie
places i g (name, value) [] = placed (i + length (gap g)) (length name) ∷ []
places i g (name, value) (k ∷ ks) =
    placed (i + length (gap g)) (length name)
    ∷ places (i + length (gap g) + length name + 1 + length value + 1) true k ks

pub strchr_at :
    (c : ℕ) (s rest : Bytes) → Avoids 0 s → Avoids c s → strchr (s ++ c ∷ rest) c ≡ some (length s)
unfolding strchr
strchr_at c [] rest z h = ground arith
strchr_at c (x ∷ s) rest z h = ground (arith, strchr_at c s rest z.1 h.1)

pub strchr-none :
    (c : ℕ) (s rest : Bytes) → c ≢ 0 → Avoids 0 s → Avoids c s → strchr (s ++ 0 ∷ rest) c ≡ none
unfolding strchr
strchr-none c [] rest n z h = ground arith
strchr-none c (x ∷ s) rest n z h = ground (arith, strchr-none c s rest n z.1 h.1)

skip_space-gap :
    (g : Bool) (name rest : Bytes)
    → NoSpace name
    → skip_space (gap g ++ (name ++ b'=' ∷ rest)) ≡ length (gap g)
unfolding skip_space
skip_space-gap false [] rest h = refl
skip_space-gap false (x ∷ name) rest h = ground arith
skip_space-gap true [] rest h = refl
skip_space-gap true (x ∷ name) rest h = ground arith

-- The two writes of NUL, over the `=` and the `;`.
closed_lem :
    (front value more : Bytes) (x y : ℕ)
    → set
        (set (front ++ x ∷ (value ++ y ∷ more)) (length front + suc (length value)) 0)
        (length front)
        0
      ≡ front ++ 0 ∷ (value ++ 0 ∷ more)
closed_lem front value more x y =
    let e : length front + suc (length value) ≡ length (front ++ x ∷ value) =
      omega (arith, length-append front (x ∷ value)) in
    ap (λ b. set (set b (length front + suc (length value)) 0) (length front) 0)
      (sym (append_assoc front (x ∷ value) (y ∷ more)))
    ∙ ap (λ k. set (set ((front ++ x ∷ value) ++ y ∷ more) k 0) (length front) 0) e
    ∙ ap (λ b. set b (length front) 0)
        (set-length (front ++ x ∷ value) y more 0 ∙ append_assoc front (x ∷ value) (0 ∷ more))
    ∙ set-length front x (value ++ 0 ∷ more) 0

module _ (next : Round) (cookies : List Cookie) (room : length cookies < http_max_cookies) where
  -- A name at the end of `front`, with a `;` behind the value.
  pub found_more :
      (p : ℕ) (front value more : Bytes)
      → 0 < length value
      → cookie_found next
          (front ++ b'=' ∷ (value ++ b';' ∷ more))
          p
          (length front)
          (some (length front + suc (length value)))
          cookies
        ≡ next (front ++ 0 ∷ (value ++ 0 ∷ more)) (length front + suc (length value) + 1) (
            cookies
            ++ record { key = p; value = length front + 1; keylen = length front + 1 - p - 1 } ∷ [])
  unfolding cookie_found
  found_more p front value more h = rw (closed_lem front value more b'=' b';') (ground arith)

  pub found_last :
      (p : ℕ) (front rest : Bytes)
      → cookie_found next (front ++ b'=' ∷ rest) p (length front) none cookies
        ≡ Spotted.spotted (front ++ 0 ∷ rest) (
            cookies
            ++ record { key = p; value = length front + 1; keylen = length front + 1 - p - 1 } ∷ [])
  unfolding cookie_found
  found_last p front rest = rw (set-length front b'=' rest 0) (ground arith)

  -- The round up to the place where the `;` is known; `front` ends where the name begins.
  pub round_lem :
      (pre : Bytes) (g : Bool) (name rest : Bytes) (q : Option ℕ)
      → Avoids 0 name
      → Avoids b'=' name
      → NoSpace name
      → strchr (b'=' ∷ rest) b';' ≡ q
      → cookie_round next (pre ++ (gap g ++ (name ++ b'=' ∷ rest))) (length pre) cookies
        ≡ cookie_found next
            (((pre ++ gap g) ++ name) ++ b'=' ∷ rest)
            (length (pre ++ gap g))
            (length ((pre ++ gap g) ++ name))
            (offset (length ((pre ++ gap g) ++ name)) q)
            cookies
  unfolding cookie_round
  round_lem pre g name rest q z h l e =
      let front = pre ++ gap g in
      let buf = pre ++ (gap g ++ (name ++ b'=' ∷ rest)) in
      let as_front : buf ≡ front ++ (name ++ b'=' ∷ rest) = sym (append_assoc pre (gap g) _) in
      let as_name : front ++ (name ++ b'=' ∷ rest) ≡ (front ++ name) ++ b'=' ∷ rest =
        sym (append_assoc front name _) in
      let at : length pre + skip_space (drop (length pre) buf) ≡ length front =
        ap (λ b. length pre + skip_space b) (drop-length pre (gap g ++ (name ++ b'=' ∷ rest)))
        ∙ ap (λ k. length pre + k) (skip_space-gap g name rest l)
        ∙ sym (length-append pre (gap g)) in
      ap (λ i. with_name next buf i (strchr (drop i buf) b'=') cookies) at
      ∙ ap (λ b. with_name next b (length front) (strchr (drop (length front) b) b'=') cookies)
          as_front
      ∙ ap (λ b. with_name next (front ++ (name ++ b'=' ∷ rest)) (length front) b cookies)
          (ap (λ b. strchr b b'=') (drop-length front (name ++ b'=' ∷ rest))
            ∙ strchr_at b'=' name rest z h)
      ∙ ap
          (λ b.
            cookie_found next b (length front) (length front + length name)
              (offset (length front + length name)
                (strchr (drop (length front + length name) b) b';'))
              cookies)
          as_name
      ∙ ap
          (λ i.
            cookie_found next ((front ++ name) ++ b'=' ∷ rest) (length front) i
              (offset i (strchr (drop i ((front ++ name) ++ b'=' ∷ rest)) b';')) cookies)
          (sym (length-append front name))
      ∙ ap
          (λ b.
            cookie_found next ((front ++ name) ++ b'=' ∷ rest) (length front)
              (length (front ++ name)) (offset (length (front ++ name)) (strchr b b';')) cookies)
          (drop-length (front ++ name) (b'=' ∷ rest))
      ∙ ap
          (λ o.
            cookie_found next ((front ++ name) ++ b'=' ∷ rest) (length front)
              (length (front ++ name)) (offset (length (front ++ name)) o) cookies)
          e
