-- ===== src/Cookies/Total.antt =====
-- The buffer and the array of cookies in `kitserv_http_parse_cookies` of src/http.c and the lookup of
-- src/api.c.
use kitserv.Prelude.{
  ℕ, zero, suc, ◌+◌, ◌-◌, ◌≤◌, ◌<◌, ◌≡◌, refl, ◌∙◌, Option, none, some, List, [], ◌∷◌, ◌++◌, leb,
  ltb, arith, tests, if_both, length, drop, set, length-set, length-drop, length-append,
}
use kitserv.Cstring.{Bytes, strchr}
use kitserv.Client.{Client, Cookie, Rc, http_max_cookies}
use kitserv.Cookies.{
  Spotted, Round, skip_space, next_cookie, close_value, has_value, cookie_found, offset, with_name,
  cookie_round, cookie_loop, commit, parse_cookies, look_up, fresh_cookies, get_request_cookie_n,
}

-- The loop has ended, the buffer has its length, and the cookies fit in the array.
abbrev pub Fits : ℕ → Spotted → Type 0
Fits l (Spotted.spotted buf cookies) = (length buf ≡ l) × (length cookies ≤ http_max_cookies)
Fits l (Spotted.discarded buf cookies) = (length buf ≡ l) × (length cookies ≤ http_max_cookies)
Fits l Spotted.exhausted = ⊥

strchr-lt : (s : Bytes) (c : ℕ) {i : ℕ} → strchr s c ≡ some i → i < length s
unfolding strchr
strchr-lt [] c e = ground arith
strchr-lt (x ∷ s) c {i} e = found (strchr s c) refl (λ j g. strchr-lt s c g)
  where
    found :
        (o : Option ℕ)
        → strchr s c ≡ o
        → ((j : ℕ) → strchr s c ≡ some j → j < length s)
        → i < suc (length s)
    found none g ih = ground arith
    found (some j) g ih = ground (arith, ih j g)

-- The next round, from a place behind `p`.
abbrev Later : ℕ → ℕ → Round → Type 0
Later l p next =
    (buf : Bytes) (q : ℕ) (cookies : List Cookie)
    → length buf ≡ l
    → length cookies ≤ http_max_cookies
    → p < q
    → q ≤ l
    → Fits l (next buf q cookies)

-- A `;` that was found is inside the buffer and not before `r`.
abbrev Inside : ℕ → ℕ → Option ℕ → Type 0
Inside l r none = Unit
Inside l r (some q) = (r ≤ q) × (q < l)

length-close_value : (buf : Bytes) (q : Option ℕ) → length (close_value buf q) ≡ length buf
length-close_value buf none = refl
length-close_value buf (some q) = length-set buf q 0

module _ (l p : ℕ) (next : Round) (later : Later l p next) where
  next_cookie-Fits :
      (buf : Bytes) (r : ℕ) (q : Option ℕ) (cookies : List Cookie)
      → length buf ≡ l
      → length cookies ≤ http_max_cookies
      → p ≤ r
      → Inside l r q
      → Fits l (next_cookie next buf q cookies)
  next_cookie-Fits buf r none cookies e k le i = (e, k)
  next_cookie-Fits buf r (some q) cookies e k le i =
      later buf (q + 1) cookies e k (omega arith) (omega arith)

  cookie_found-Fits :
      (buf : Bytes) (n r : ℕ) (q : Option ℕ) (cookies : List Cookie)
      → length buf ≡ l
      → length cookies ≤ http_max_cookies
      → p ≤ r
      → Inside l r q
      → Fits l (cookie_found next buf n r q cookies)
  unfolding cookie_found
  cookie_found-Fits buf n r q cookies e k le i =
      let closed = set (close_value buf q) r 0 in
      let cookie : Cookie = record { key = n; value = r + 1; keylen = r + 1 - n - 1 } in
      let e' : length closed ≡ l =
        length-set (close_value buf q) r 0 ∙ length-close_value buf q ∙ e in
      if_both (Fits l) (has_value (r + 1) q)
        (λ _.
          if_both (Fits l) (ltb (length cookies) http_max_cookies)
            (λ room.
              next_cookie-Fits closed r q (cookies ++ cookie ∷ []) e'
                (omega (tests, length-append cookies (cookie ∷ []))) le i)
            (λ _. (e', k)))
        (λ _. next_cookie-Fits closed r q cookies e' k le i)

  with_name-Fits :
      (buf : Bytes) (n : ℕ) (o : Option ℕ) (cookies : List Cookie)
      → length buf ≡ l
      → length cookies ≤ http_max_cookies
      → p ≤ n
      → Fits l (with_name next buf n o cookies)
  with_name-Fits buf n none cookies e k le = (e, k)
  with_name-Fits buf n (some i) cookies e k le =
      cookie_found-Fits buf n (n + i) (offset (n + i) (strchr (drop (n + i) buf) b';')) cookies e k
        (omega arith) (placed (strchr (drop (n + i) buf) b';') refl)
    where
      placed :
          (o : Option ℕ) → strchr (drop (n + i) buf) b';' ≡ o → Inside l (n + i) (offset (n + i) o)
      placed none g = tt
      placed (some j) g =
          (omega arith, omega (arith, strchr-lt (drop (n + i) buf) b';' g, length-drop (n + i) buf))

pub cookie_loop-Fits :
    (l fuel : ℕ) (buf : Bytes) (p : ℕ) (cookies : List Cookie)
    → l < fuel + p
    → 0 < fuel
    → length buf ≡ l
    → length cookies ≤ http_max_cookies
    → Fits l (cookie_loop fuel buf p cookies)
unfolding cookie_loop cookie_round
cookie_loop-Fits l zero buf p cookies h pf e k = absurd (omega arith)
cookie_loop-Fits l (suc fuel) buf p cookies h pf e k =
    let n = p + skip_space (drop p buf) in
    with_name-Fits l p (cookie_loop fuel)
      (λ b q cs e' k' lt le. cookie_loop-Fits l fuel b q cs (omega arith) (omega arith) e' k') buf n
      (strchr (drop n buf) b'=') cookies e k (omega arith)

-- The array holds the cookies of the client.
abbrev pub HasArray : Client → Type 0
HasArray c = (length c.req_cookies ≡ http_max_cookies) × (c.ta.req_num_cookies ≤ http_max_cookies)

-- What the lookup gives: it ends, and keeps the size of the buffer and of the array.
abbrev pub LooksUp : Client → Option (Client × Option ℕ) → Type 0
LooksUp c none = ⊥
LooksUp c (some (d, o)) = (length d.req_headers ≡ length c.req_headers) × HasArray d

abbrev Parses : Client → Option (Client × Rc) → Type 0
Parses c none = ⊥
Parses c (some (d, rc)) = (length d.req_headers ≡ length c.req_headers) × HasArray d

length-written :
    (c : Client) (cookies : List Cookie)
    → length cookies ≤ http_max_cookies
    → length c.req_cookies ≡ http_max_cookies
    → length (cookies ++ drop (length cookies) c.req_cookies) ≡ http_max_cookies
length-written c cookies h e = omega (
  arith,
  length-append cookies (drop (length cookies) c.req_cookies),
  length-drop (length cookies) c.req_cookies,
)

commit-Parses :
    (c : Client) (s : Spotted) → HasArray c → Fits (length c.req_headers) s → Parses c (commit c s)
unfolding commit
commit-Parses c (Spotted.spotted buf cookies) h f = (f.0, (length-written c cookies f.1 h.0, f.1))
commit-Parses c (Spotted.discarded buf cookies) h f = (f.0, (length-written c cookies f.1 h.0, h.1))
commit-Parses c Spotted.exhausted h f = f

fresh_cookies-Parses : (c : Client) (o : Option ℕ) → HasArray c → Parses c (fresh_cookies c o)
unfolding parse_cookies
fresh_cookies-Parses c none h = (refl, h)
fresh_cookies-Parses c (some p) h =
    let l = length c.req_headers in
    commit-Parses c (cookie_loop (suc l) c.req_headers p []) h
      (cookie_loop-Fits l (suc l) c.req_headers p [] (omega arith) (omega arith) refl (omega arith))

look_up-LooksUp :
    (c : Client) (key : Bytes) (keylen : ℕ) (o : Option (Client × Rc))
    → Parses c o
    → LooksUp c (look_up key keylen o)
look_up-LooksUp c key keylen none h = h
look_up-LooksUp c key keylen (some (d, rc)) h = h

-- For every client whose array of 50 cookies holds its cookies, every buffer, whatever its cookie header
-- is, and every key: the lookup ends, it changes neither the size of the buffer nor that of the array, and
-- the cookies still fit in the array.
pub get_request_cookie_n-LooksUp :
    (c : Client) (key : Option Bytes) (keylen : ℕ)
    → HasArray c
    → LooksUp c (get_request_cookie_n c key keylen)
unfolding get_request_cookie_n
get_request_cookie_n-LooksUp c none keylen h = (refl, h)
get_request_cookie_n-LooksUp c (some key) keylen h =
    if_both (LooksUp c) (leb keylen 0) (λ _. (refl, h))
      (λ _.
        look_up-LooksUp c key keylen (fresh_cookies c c.ta.req_fresh_cookies)
          (fresh_cookies-Parses c c.ta.req_fresh_cookies h))
