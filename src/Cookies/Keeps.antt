-- ===== src/Cookies/Keeps.antt =====
-- What the lookup of a cookie of src/api.c, with `kitserv_http_parse_cookies` of src/http.c, leaves of the
-- request.
use kitserv.Prelude.{ℕ, suc, ◌≡◌, refl, ap, Option, none, some, [], if_both, length, arith, leb}
use kitserv.Cstring.{Bytes}
use kitserv.Client.{Client, Rc}
use kitserv.Client.Kept.{kept}
use kitserv.Cookies.{
  Spotted, commit, parse_cookies, cookie_loop, look_up, fresh_cookies, get_request_cookie,
  get_request_cookie_n,
}
use kitserv.Cookies.Total.{Fits, cookie_loop-Fits}

-- The client of an optional result has what the one before had.
abbrev pub MayKeep : Client → Option (Client × Option ℕ) → Type 0
MayKeep c none = Unit
MayKeep c (some (d, o)) = kept d ≡ kept c

abbrev MayParse : Client → Option (Client × Rc) → Type 0
MayParse c none = Unit
MayParse c (some (d, rc)) = kept d ≡ kept c

commit-MayParse :
    (c : Client) (s : Spotted) → Fits (length c.req_headers) s → MayParse c (commit c s)
unfolding commit
commit-MayParse c (Spotted.spotted buf cookies) f = ap (λ n. (c.sockfd, n, c.ta.req_payload)) f.0
commit-MayParse c (Spotted.discarded buf cookies) f = ap (λ n. (c.sockfd, n, c.ta.req_payload)) f.0
commit-MayParse c Spotted.exhausted f = tt

fresh_cookies-MayParse : (c : Client) (o : Option ℕ) → MayParse c (fresh_cookies c o)
unfolding parse_cookies
fresh_cookies-MayParse c none = refl
fresh_cookies-MayParse c (some p) =
    let l = length c.req_headers in
    commit-MayParse c (cookie_loop (suc l) c.req_headers p [])
      (cookie_loop-Fits l (suc l) c.req_headers p [] (omega arith) (omega arith) refl (omega arith))

look_up-MayKeep :
    (c : Client) (key : Bytes) (keylen : ℕ) (o : Option (Client × Rc))
    → MayParse c o
    → MayKeep c (look_up key keylen o)
look_up-MayKeep c key keylen none h = tt
look_up-MayKeep c key keylen (some (d, rc)) h = h

pub get_request_cookie_n-MayKeep :
    (c : Client) (key : Option Bytes) (keylen : ℕ) → MayKeep c (get_request_cookie_n c key keylen)
unfolding get_request_cookie_n
get_request_cookie_n-MayKeep c none keylen = refl
get_request_cookie_n-MayKeep c (some key) keylen =
    if_both (MayKeep c) (leb keylen 0) (λ _. refl)
      (λ _.
        look_up-MayKeep c key keylen (fresh_cookies c c.ta.req_fresh_cookies)
          (fresh_cookies-MayParse c c.ta.req_fresh_cookies))

pub get_request_cookie-MayKeep :
    (c : Client) (key : Option Bytes) → MayKeep c (get_request_cookie c key)
unfolding get_request_cookie
get_request_cookie-MayKeep c none = refl
get_request_cookie-MayKeep c (some key) = get_request_cookie_n-MayKeep c (some key) (length key)
