-- ===== src/Cookies.antt =====
-- `kitserv_http_parse_cookies` of src/http.c, and the lookup `kitserv_api_get_request_cookie_n` of
-- src/api.c.
pub mod Text
pub mod RoundTrip
pub mod Lookup
pub mod Total
pub mod Keeps
use kitserv.Prelude.{
  ℕ, zero, suc, ◌+◌, ◌-◌, Bool, true, false, ◌&&◌, ◌||◌, Option, none, some, List, [], ◌∷◌, ◌++◌,
  ◌==◌, leb, ltb, if◌then◌else◌, length, drop, take, set,
}
use kitserv.Cstring.{Bytes, string_at, strchr, str_eq}
use kitserv.Client.{Client, Cookie, Rc, http_max_cookies}

-- `for (; *p == ' '; p++);`, as the number of steps.
unfoldable pub skip_space : Bytes → ℕ
skip_space [] = 0
skip_space (x ∷ xs) = if x == b' ' then suc (skip_space xs) else 0

-- What the loop leaves: the buffer, the cookies that it has written into the array, and whether it was
-- left by a `break` or the `goto`.
pub data Spotted : Type 0 where
  spotted : Bytes → List Cookie → Spotted
  discarded : Bytes → List Cookie → Spotted
  exhausted : Spotted

-- The next round, from a place in a buffer, with the cookies so far.
abbrev pub Round : Type 0
Round = Bytes → ℕ → List Cookie → Spotted

abbrev close_value : Bytes → Option ℕ → Bytes
close_value buf none = buf
close_value buf (some q) = set buf q 0

-- `if (!q) break; p = q + 1`
abbrev pub next_cookie : Round → Bytes → Option ℕ → List Cookie → Spotted
next_cookie next buf none cookies = Spotted.spotted buf cookies
next_cookie next buf (some q) cookies = next buf (q + 1) cookies

-- `r != q`, behind the `=`
abbrev has_value : ℕ → Option ℕ → Bool
has_value r none = true
has_value r (some q) = if r == q then false else true

-- A cookie from `p` with its `=` at `r`, and its `;` at `q`.
unfoldable pub cookie_found : Round → Bytes → ℕ → ℕ → Option ℕ → List Cookie → Spotted
cookie_found next buf p r q cookies =
    let closed = set (close_value buf q) r 0 in
    let cookie : Cookie = record { key = p; value = r + 1; keylen = r + 1 - p - 1 } in
    if has_value (r + 1) q
    then (if ltb (length cookies) http_max_cookies
        then next_cookie next closed q (cookies ++ cookie ∷ [])
        else Spotted.spotted closed cookies)
    else next_cookie next closed q cookies

abbrev pub offset : ℕ → Option ℕ → Option ℕ
offset r none = none
offset r (some i) = some (r + i)

abbrev pub with_name : Round → Bytes → ℕ → Option ℕ → List Cookie → Spotted
with_name next buf p none cookies = Spotted.discarded buf cookies
with_name next buf p (some i) cookies =
    cookie_found next buf p (p + i) (offset (p + i) (strchr (drop (p + i) buf) b';')) cookies

-- One round of `while (1)`.
unfoldable pub cookie_round : Round → Round
unfolding cookie_found skip_space strchr
cookie_round next buf p cookies =
    let name = p + skip_space (drop p buf) in
    with_name next buf name (strchr (drop name buf) b'=') cookies

-- Each round goes on behind its `;`, so the length of the buffer and one more is fuel enough.
unfoldable pub cookie_loop : ℕ → Round
cookie_loop zero buf p cookies = Spotted.exhausted
cookie_loop (suc fuel) buf p cookies = cookie_round (cookie_loop fuel) buf p cookies

-- The array of the client, with its first entries written.
abbrev pub written : Client → Bytes → List Cookie → Client
written c buf cookies = record c {
  req_headers = buf;
  req_cookies = cookies ++ drop (length cookies) c.req_cookies;
  ta = record c.ta { req_fresh_cookies = none };
}

unfoldable pub commit : Client → Spotted → Option (Client × Rc)
commit c (Spotted.spotted buf cookies) =
    let c' = written c buf cookies in
    some (record c' { ta = record c'.ta { req_num_cookies = length cookies } }, Rc.ok)
commit c (Spotted.discarded buf cookies) = some (written c buf cookies, Rc.fail)
commit c Spotted.exhausted = none

-- `kitserv_http_parse_cookies`, on the value at `p` of the header; `none` if the fuel ran out.
unfoldable pub parse_cookies : Client → ℕ → Option (Client × Rc)
unfolding cookie_loop commit
parse_cookies c p = commit c (cookie_loop (suc (length c.req_headers)) c.req_headers p [])

-- The loop of the lookup: the first cookie of this name.
unfoldable pub find_cookie : Bytes → Bytes → ℕ → List Cookie → Option ℕ
find_cookie buf key keylen [] = none
find_cookie buf key keylen (k ∷ cookies) =
    if keylen == k.keylen && str_eq key (string_at buf k.key)
    then some k.value
    else find_cookie buf key keylen cookies

abbrev pub look_up : Bytes → ℕ → Option (Client × Rc) → Option (Client × Option ℕ)
look_up key keylen none = none
look_up key keylen (some (c, rc)) =
    some (c, find_cookie c.req_headers key keylen (take c.ta.req_num_cookies c.req_cookies))

abbrev pub fresh_cookies : Client → Option ℕ → Option (Client × Rc)
fresh_cookies c none = some (c, Rc.ok)
fresh_cookies c (some p) = parse_cookies c p

-- `kitserv_api_get_request_cookie_n`: the value's place, `none` for NULL. A `key` that is NULL is `none`.
unfoldable pub get_request_cookie_n : Client → Option Bytes → ℕ → Option (Client × Option ℕ)
unfolding parse_cookies find_cookie
get_request_cookie_n c none keylen = some (c, none)
get_request_cookie_n c (some key) keylen =
    if leb keylen 0
    then some (c, none)
    else look_up key keylen (fresh_cookies c c.ta.req_fresh_cookies)

unfoldable pub get_request_cookie : Client → Option Bytes → Option (Client × Option ℕ)
unfolding get_request_cookie_n
get_request_cookie c none = some (c, none)
get_request_cookie c (some key) = get_request_cookie_n c (some key) (length key)
