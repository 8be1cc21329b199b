-- ===== src/Header.antt =====
-- The request headers that src/http.c reads: the `parse_header_*` functions, the table `headers`, and
-- the loop of `kitserv_http_recv_request` that looks a header up.
use kitserv.Prelude.{
  ℕ, true, ◌&&◌, Option, none, some, List, [], ◌∷◌, ◌==◌, if◌then◌else◌, length, codes, String, ◌≡◌,
  refl, arith,
}
use kitserv.Prelude.Int.{ℤ, pos, ltb_ℤ}
use kitserv.Cstring.{Bytes, string_at, strtonum, str_case_eq}
use kitserv.Status.{Status}
use kitserv.Client.{Client, Rc, with_status}

-- The functions of the table.
pub data HeaderFunc : Type 0 where
  cookie range if_modified_since content_length content_type content_disposition : HeaderFunc

-- `strtonum(...) || client->ta.req_content_len < 0`. A failed conversion leaves the length
-- undefined, and the request is refused: the model leaves it as it was.
unfoldable pub parse_header_content_length : Client → Option ℤ → Client × Rc
parse_header_content_length c none = (with_status c Status.bad_request, Rc.fail)
parse_header_content_length c (some n) =
    let c' = record c { ta = record c.ta { req_content_len = n } } in
    if ltb_ℤ n (pos 0) then (with_status c' Status.bad_request, Rc.fail) else (c', Rc.ok)

unfoldable pub call_header : HeaderFunc → Client → ℕ → Client × Rc
unfolding parse_header_content_length
call_header HeaderFunc.cookie c value =
    (record c { ta = record c.ta { req_fresh_cookies = some value } }, Rc.ok)
call_header HeaderFunc.range c value =
    (record c { ta = record c.ta { range_requested = true; req_range = some value } }, Rc.ok)
call_header HeaderFunc.if_modified_since c value =
    (record c { ta = record c.ta { req_modified_since = some value } }, Rc.ok)
call_header HeaderFunc.content_length c value =
    parse_header_content_length c (strtonum (string_at c.req_headers value))
call_header HeaderFunc.content_type c value =
    (record c { ta = record c.ta { req_mimetype = some value } }, Rc.ok)
call_header HeaderFunc.content_disposition c value =
    (record c { ta = record c.ta { req_disposition = some value } }, Rc.ok)

pub record Header : Type 0 where
  pub name : Bytes
  pub func : HeaderFunc

abbrev header : String → HeaderFunc → Header
header name func = record { name = codes name; func = func }

unfoldable pub headers : List Header
headers =
    header "cookie" HeaderFunc.cookie
    ∷ header "range" HeaderFunc.range
    ∷ header "if-modified-since" HeaderFunc.if_modified_since
    ∷ header "content-length" HeaderFunc.content_length
    ∷ header "content-type" HeaderFunc.content_type
    ∷ header "content-disposition" HeaderFunc.content_disposition
    ∷ []

-- `for (i = 0; i < HEADERS_NUM; i++)`: the first entry of the name is called, an unknown one skipped.
unfoldable pub process_header : List Header → Client → Bytes → ℕ → Client × Rc
process_header [] c name value = (c, Rc.ok)
process_header (h ∷ hs) c name value =
    if length name == length h.name && str_case_eq name h.name
    then call_header h.func c value
    else process_header hs c name value

-- No header function touches the buffer.
pub call_header-req_headers :
    (f : HeaderFunc) (c : Client) (v : ℕ) → (call_header f c v).0.req_headers ≡ c.req_headers
unfolding call_header
call_header-req_headers HeaderFunc.cookie c v = refl
call_header-req_headers HeaderFunc.content_length c v =
    ground (arith, strtonum (string_at c.req_headers v))
call_header-req_headers _ c v = refl

pub process_header-req_headers :
    (hs : List Header) (c : Client) (name : Bytes) (v : ℕ)
    → (process_header hs c name v).0.req_headers ≡ c.req_headers
unfolding process_header
process_header-req_headers [] c name v = refl
process_header-req_headers (h ∷ hs) c name v =
    ground (arith, call_header-req_headers h.func c v, process_header-req_headers hs c name v)
