-- ===== src/Cookies/Lookup.antt =====
-- `kitserv_api_get_request_cookie_n` of src/api.c against the pairs of the header.
use kitserv.Prelude.{
  ℕ, suc, ◌+◌, ◌<◌, ◌≡◌, refl, ap, ap₂, ◌∙◌, sym, Bool, Bool-cases, true, false, inl, inr, ◌&&◌,
  Option, none, some, List, [], ◌∷◌, ◌++◌, ◌==◌, arith, if◌then◌else◌, length, drop, length-append,
  append_assoc, drop-length, take-length, subst,
}
use kitserv.Cstring.{Bytes, cstr, string_at, str_eq}
use kitserv.Client.{Client, Cookie, http_max_cookies}
use kitserv.Cookies.{
  Spotted, cookie_loop, commit, parse_cookies, find_cookie, get_request_cookie_n, fresh_cookies,
  look_up,
}
use kitserv.Cookies.Text.{Avoids, Pair, IsClean, AllClean, gap, cookie_text, cut_text, places}
use kitserv.Cookies.RoundTrip.{cookie_loop-places}

-- The value of the first cookie of a name.
abbrev pub value_of : Bytes → List Pair → Option Bytes
value_of key [] = none
value_of key ((name, value) ∷ ks) = if str_eq key name then some value else value_of key ks

-- A place in the buffer holds this string; or there is neither.
abbrev pub Points : Bytes → Option ℕ → Option Bytes → Type 0
Points buf none none = Unit
Points buf (some p) (some v) = string_at buf p ≡ v
Points buf none (some v) = ⊥
Points buf (some p) none = ⊥

-- The cookies of the array stand for these pairs.
abbrev Reads : Bytes → List Cookie → List Pair → Type 0
Reads buf [] [] = Unit
Reads buf (k ∷ cs) ((name, value) ∷ ks) =
    (string_at buf k.key ≡ name)
    × (k.keylen ≡ length name)
    × (string_at buf k.value ≡ value)
    × Reads buf cs ks
Reads buf _ _ = ⊥

str_eq-length : (s t : Bytes) → str_eq s t ≡ true → length s ≡ length t
unfolding str_eq
str_eq-length [] [] h = refl
str_eq-length [] (y ∷ t) h = ground arith
str_eq-length (x ∷ s) [] h = ground arith
str_eq-length (x ∷ s) (y ∷ t) h = ground (arith, str_eq-length s t)

and_false : (b : Bool) → (b && false) ≡ false
and_false true = refl
and_false false = refl

find_cookie-Points :
    (buf key : Bytes) (cs : List Cookie) (ks : List Pair)
    → Reads buf cs ks
    → Points buf (find_cookie buf key (length key) cs) (value_of key ks)
unfolding find_cookie
find_cookie-Points buf key [] [] h = tt
find_cookie-Points buf key [] (_ ∷ ks) h = absurd h
find_cookie-Points buf key (c ∷ cs) [] h = absurd h
find_cookie-Points buf key (c ∷ cs) ((name, value) ∷ ks) (k, l, v, h) =
    elim (Bool-cases (str_eq key name)) [
      | inl same ↦
          let e : (length key == c.keylen) ≡ true =
            ground (arith, str_eq-length key name same, l) in
          rw (k, same, e) v
      | inr other ↦
          rw (k, other, and_false (length key == c.keylen)) (find_cookie-Points buf key cs ks h)
    ]

cstr_at : (s rest : Bytes) → Avoids 0 s → cstr (s ++ 0 ∷ rest) ≡ s
cstr_at [] rest h = refl
cstr_at (x ∷ s) rest h = ground (arith, cstr_at s rest h.1)

string_at-append :
    (front s rest : Bytes) → Avoids 0 s → string_at (front ++ (s ++ 0 ∷ rest)) (length front) ≡ s
string_at-append front s rest h = ap cstr (drop-length front (s ++ 0 ∷ rest)) ∙ cstr_at s rest h

-- The two strings of a cookie whose name begins behind `front`.
module _ (front name value rest : Bytes) (z : Avoids 0 name) (v : Avoids 0 value) where
  name_at : string_at (front ++ (name ++ 0 ∷ (value ++ 0 ∷ rest))) (length front) ≡ name
  name_at = string_at-append front name (value ++ 0 ∷ rest) z

  value_at :
      string_at (front ++ (name ++ 0 ∷ (value ++ 0 ∷ rest))) (length front + length name + 1)
      ≡ value
  value_at =
      let before = front ++ (name ++ 0 ∷ []) in
      let e : front ++ (name ++ 0 ∷ (value ++ 0 ∷ rest)) ≡ before ++ (value ++ 0 ∷ rest) =
        simp append_assoc in
      let l : length front + length name + 1 ≡ length before =
        omega (arith, length-append front (name ++ 0 ∷ []), length-append name (0 ∷ [])) in
      ap₂ string_at e l ∙ string_at-append before value rest v

places-Reads :
    (ks : List Pair) (k : Pair) (pre : Bytes) (g : Bool) (post : Bytes)
    → IsClean k
    → AllClean ks
    → Reads (pre ++ (cut_text g k ks ++ 0 ∷ post)) (places (length pre) g k ks) (k ∷ ks)
places-Reads [] (name, value) pre g post (z, e, n, zv, sv, h) cs =
    let front = pre ++ gap g in
    let text : pre ++ ((gap g ++ (name ++ 0 ∷ value)) ++ 0 ∷ post)
        ≡ front ++ (name ++ 0 ∷ (value ++ 0 ∷ post)) =
      simp append_assoc in
    let l = length-append pre (gap g) in
    (
      ap₂ string_at text (sym l) ∙ name_at front name value post z zv,
      omega arith,
      ap₂ (λ b i. string_at b (i + length name + 1)) text (sym l)
          ∙ value_at front name value post z zv,
      tt,
    )
places-Reads (k ∷ ks) (name, value) pre g post (z, e, n, zv, sv, h) (c, cs) =
    let front = pre ++ gap g in
    let rest = cut_text true k ks ++ 0 ∷ post in
    let next = front ++ (name ++ 0 ∷ (value ++ 0 ∷ [])) in
    let text : pre ++ ((gap g ++ (name ++ 0 ∷ (value ++ 0 ∷ cut_text true k ks))) ++ 0 ∷ post)
        ≡ front ++ (name ++ 0 ∷ (value ++ 0 ∷ rest)) =
      simp append_assoc in
    let again : next ++ rest
        ≡ pre ++ ((gap g ++ (name ++ 0 ∷ (value ++ 0 ∷ cut_text true k ks))) ++ 0 ∷ post) =
      simp append_assoc in
    let l = length-append pre (gap g) in
    let m : length next ≡ length pre + length (gap g) + length name + 1 + length value + 1 = omega (
      arith,
      l,
      length-append front (name ++ 0 ∷ (value ++ 0 ∷ [])),
      length-append name (0 ∷ (value ++ 0 ∷ [])),
      length-append value (0 ∷ []),
    ) in
    (
      ap₂ string_at text (sym l) ∙ name_at front name value rest z zv,
      omega arith,
      ap₂ (λ b i. string_at b (i + length name + 1)) text (sym l)
          ∙ value_at front name value rest z zv,
      subst
          (λ b.
            Reads b
              (places (length pre + length (gap g) + length name + 1 + length value + 1) true k ks)
              (k ∷ ks))
          again
          (subst (λ i. Reads (next ++ rest) (places i true k ks) (k ∷ ks)) m
            (places-Reads ks k next true post c cs)),
    )

length_cookies-le : (ks : List Pair) (k : Pair) (g : Bool) → length ks < length (cookie_text g k ks)
length_cookies-le [] (name, value) g =
    omega (
      arith,
      length-append {0} (gap g) (name ++ b'=' ∷ value),
      length-append {0} name (b'=' ∷ value),
    )
length_cookies-le (k ∷ ks) (name, value) g =
    let rest = b'=' ∷ (value ++ b';' ∷ cookie_text true k ks) in
    omega (
      arith,
      length_cookies-le ks k true,
      length-append {0} (gap g) (name ++ rest),
      length-append {0} name rest,
      length-append {0} value (b';' ∷ cookie_text true k ks),
    )

length-places :
    (ks : List Pair) (k : Pair) (i : ℕ) (g : Bool) → length (places i g k ks) ≡ suc (length ks)
length-places [] (name, value) i g = refl
length-places (k ∷ ks) (name, value) i g =
    ap suc (length-places ks k (i + length (gap g) + length name + 1 + length value + 1) true)

-- What the lookup gives, once the header is parsed.
abbrev Looks : Bytes → Option Bytes → Option (Client × Option ℕ) → Type 0
Looks key v none = ⊥
Looks key v (some (c, o)) = Points c.req_headers o v

look_up-Looks :
    (c : Client) (key buf : Bytes) (cs : List Cookie) (ks : List Pair)
    → Reads buf cs ks
    → Looks key (value_of key ks) (look_up key (length key) (commit c (Spotted.spotted buf cs)))
unfolding commit
look_up-Looks c key buf cs ks h =
    rw (take-length cs (drop (length cs) c.req_cookies)) (find_cookie-Points buf key cs ks h)

-- For a request whose cookie header, not parsed so far, holds at most 50 cookies `name=value` joined by
-- `; `, with clean names and values that are not empty: looking up a key that is not empty gives the
-- place of a string in the buffer that is the value of the first cookie of this name, or NULL if there
-- is no such cookie.
pub get_request_cookie_n-value_of :
    (c : Client) (pre post : Bytes) (k : Pair) (ks : List Pair) (key : Bytes)
    → c.req_headers ≡ pre ++ (cookie_text false k ks ++ 0 ∷ post)
    → c.ta.req_fresh_cookies ≡ some (length pre)
    → IsClean k
    → AllClean ks
    → length ks < http_max_cookies
    → 0 < length key
    → (d : Client) × (o : Option ℕ) × (get_request_cookie_n c (some key) (length key) ≡ some (d, o))
      × Points d.req_headers o (value_of key (k ∷ ks))
unfolding get_request_cookie_n parse_cookies
get_request_cookie_n-value_of c pre post k ks key e f clean cleans few h =
    let buf = pre ++ (cut_text false k ks ++ 0 ∷ post) in
    let cs = places (length pre) false k ks in
    let text = cookie_text false k ks ++ 0 ∷ post in
    let parsed : cookie_loop (suc (length c.req_headers)) c.req_headers (length pre) []
        ≡ Spotted.spotted buf cs =
      ap (λ b. cookie_loop (suc (length b)) b (length pre) []) e
      ∙ cookie_loop-places ks k (suc (length (pre ++ text))) pre false post [] clean cleans
          (omega (
            arith,
            length_cookies-le ks k false,
            length-append pre text,
            length-append (cookie_text false k ks) (0 ∷ post),
          ))
          (omega arith) in
    result (look_up key (length key) (commit c (Spotted.spotted buf cs)))
      (if_true (ap (fresh_cookies c) f ∙ ap (commit c) parsed))
      (look_up-Looks c key buf cs (k ∷ ks) (places-Reads ks k pre false post clean cleans))
  where
    if_true :
        fresh_cookies c c.ta.req_fresh_cookies
          ≡ commit c (
              Spotted.spotted
                (pre ++ (cut_text false k ks ++ 0 ∷ post))
                (places (length pre) false k ks))
        → get_request_cookie_n c (some key) (length key)
          ≡ look_up key (length key) (
              commit c (
                Spotted.spotted
                  (pre ++ (cut_text false k ks ++ 0 ∷ post))
                  (places (length pre) false k ks)))
    if_true g = rw g (ground arith)

    result :
        (o : Option (Client × Option ℕ))
        → get_request_cookie_n c (some key) (length key) ≡ o
        → Looks key (value_of key (k ∷ ks)) o
        → (d : Client) × (o : Option ℕ) × (get_request_cookie_n c (some key) (length key)
            ≡ some (d, o))
          × Points d.req_headers o (value_of key (k ∷ ks))
    result none g l = absurd l
    result (some (d, o)) g l = (d, o, g, l)
