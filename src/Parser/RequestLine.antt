-- ===== src/Parser/RequestLine.antt =====
-- The request line in the switch of `kitserv_http_recv_request` of src/http.c.
use kitserv.Prelude.{
  ℕ, ◌+◌, ◌<◌, ◌≡◌, ap, ◌∙◌, [], ◌∷◌, ◌++◌, arith, length, drop, length-append, drop-add,
  drop-length, codes,
}
use kitserv.Cstring.{Bytes, steps_to, has_prefix}
use kitserv.Client.{Client, Method, HttpVersion}
use kitserv.Parser.{
  scan, req_method, method_found, method_known, method_of, req_path, req_version, version_found,
  version_known, version_of, req_version_lf, req_head,
}

abbrev pub method_text : Method → Bytes
method_text Method.unset = []
method_text Method.get = codes "GET"
method_text Method.put = codes "PUT"
method_text Method.head = codes "HEAD"
method_text Method.post = codes "POST"
method_text Method.delete = codes "DELETE"

abbrev pub version_text : HttpVersion → Bytes
version_text HttpVersion.http_1_0 = codes "HTTP/1.0"
version_text HttpVersion.http_1_1 = codes "HTTP/1.1"

abbrev pub IsNamed : Method → Type 0
IsNamed Method.unset = ⊥
IsNamed _ = Unit

-- The client with these bytes received.
abbrev pub holding : Client → Bytes → Client
holding c buf = record c { req_headers = buf }

abbrev pub with_method : Client → Method → Client
with_method c m = record c { ta = record c.ta { req_method = m } }

pub req_method-line :
    (c : Client) (m : Method) (tail : Bytes)
    → IsNamed m
    → req_method (holding c (method_text m ++ 32 ∷ tail)) 0 0
      ≡ req_path
          (holding (with_method c m) (method_text m ++ 32 ∷ tail))
          (length (method_text m) + 1)
          (length (method_text m) + 1)
unfolding req_method method_found method_known method_of steps_to has_prefix
req_method-line c Method.unset tail h = absurd h
req_method-line c Method.get tail h = ground arith
req_method-line c Method.put tail h = ground arith
req_method-line c Method.head tail h = ground arith
req_method-line c Method.post tail h = ground arith
req_method-line c Method.delete tail h = ground arith

abbrev pub with_version : Client → HttpVersion → Client
with_version c v = record c { ta = record c.ta { req_version = v } }

-- Behind the target.
abbrev pub ending : HttpVersion → Bytes → Bytes
ending v rest = version_text v ++ 13 ∷ 10 ∷ rest

-- What stands `n` bytes behind the first bytes.
pub drop-behind : (pre post : Bytes) (n : ℕ) → drop (length pre + n) (pre ++ post) ≡ drop n post
drop-behind pre post n =
    drop-add (length pre) n (pre ++ post) ∙ ap (λ z. drop n z) (drop-length pre post)

pub scan-behind :
    (b : ℕ) (pre post : Bytes) → scan b (pre ++ post) (length pre) ≡ length pre + steps_to b post
scan-behind b pre post = ap (λ z. length pre + steps_to b z) (drop-length pre post)

version_found_line :
    (c : Client) (pre : Bytes) (v : HttpVersion) (rest : Bytes)
    → version_found (holding c (pre ++ ending v rest)) (length pre) (length pre + 8)
      ≡ req_version_lf
          (holding (with_version c v) (pre ++ ending v rest))
          (length pre + 9)
          (length pre + 9)
unfolding version_found version_known version_of has_prefix
version_found_line c pre HttpVersion.http_1_0 rest =
    let at = drop-length pre (ending HttpVersion.http_1_0 rest) in
    let at' = drop-behind pre (ending HttpVersion.http_1_0 rest) 5 in ground (arith, at, at')
version_found_line c pre HttpVersion.http_1_1 rest =
    let at = drop-length pre (ending HttpVersion.http_1_1 rest) in
    let at' = drop-behind pre (ending HttpVersion.http_1_1 rest) 5 in ground (arith, at, at')

version_lf_line :
    (c : Client) (pre : Bytes) (v : HttpVersion) (rest : Bytes)
    → req_version_lf (holding c (pre ++ ending v rest)) (length pre + 9) (length pre + 9)
      ≡ req_head (holding c (pre ++ ending v rest)) (length pre + 10) (length pre + 10)
unfolding req_version_lf
version_lf_line c pre HttpVersion.http_1_0 rest =
    let at = drop-behind pre (ending HttpVersion.http_1_0 rest) 9 in
    ground (arith, at, length-append pre (ending HttpVersion.http_1_0 rest))
version_lf_line c pre HttpVersion.http_1_1 rest =
    let at = drop-behind pre (ending HttpVersion.http_1_1 rest) 9 in
    ground (arith, at, length-append pre (ending HttpVersion.http_1_1 rest))

version_scanned :
    (pre : Bytes) (v : HttpVersion) (rest : Bytes)
    → (scan b'\r' (pre ++ ending v rest) (length pre) ≡ length pre + 8)
      × (length pre + 8 < length (pre ++ ending v rest))
unfolding steps_to
version_scanned pre HttpVersion.http_1_0 rest = (
  scan-behind b'\r' pre (ending HttpVersion.http_1_0 rest),
  omega (arith, length-append pre (ending HttpVersion.http_1_0 rest)),
)
version_scanned pre HttpVersion.http_1_1 rest = (
  scan-behind b'\r' pre (ending HttpVersion.http_1_1 rest),
  omega (arith, length-append pre (ending HttpVersion.http_1_1 rest)),
)

pub req_version_line :
    (c : Client) (pre : Bytes) (v : HttpVersion) (rest : Bytes)
    → req_version (holding c (pre ++ ending v rest)) (length pre) (length pre)
      ≡ req_head
          (holding (with_version c v) (pre ++ ending v rest))
          (length pre + 10)
          (length pre + 10)
unfolding req_version
req_version_line c pre v rest =
    let (at, inside) = version_scanned pre v rest in
    ground (arith, at, inside)
    ∙ version_found_line c pre v rest
    ∙ version_lf_line (with_version c v) pre v rest
