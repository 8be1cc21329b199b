-- ===== src/Parser.antt =====
-- The switch of `kitserv_http_recv_request` in src/http.c: one function for each `case` label, which
-- falls through by calling the next. `p` is the start of the unconsumed block, `r` the iterator.
pub mod Scan
pub mod Fuel
pub mod Bounds
pub mod Owner
pub mod Resume
pub mod ResumeHead
pub mod Query
pub mod ResumeStages
pub mod Chunks
pub mod RequestLine
pub mod Target
pub mod HeaderLine
pub mod Headers
pub mod HeaderLoop
pub mod Line
pub mod Print
use kitserv.Prelude.{
  ℕ, zero, suc, ◌+◌, ◌-◌, Bool, true, false, not, ◌&&◌, ◌||◌, Option, none, some, List, [], ◌∷◌,
  ◌==◌, leb, ltb, if◌then◌else◌, length, drop, take, set, codes,
}
use kitserv.Cstring.{Bytes, byte_at, string_at, strchr, steps_to, is_print, has_prefix}
use kitserv.Status.{Status}
use kitserv.Client.{Client, Method, HttpVersion, ParseState, Rc, with_status}
use kitserv.UrlDecode.{url_decode}
use kitserv.Traversal.{attempted_path_traversal}
use kitserv.Header.{headers, process_header}

-- `more s p r c`: `parse_state = s; goto read_more`, and the caller makes the assignment.
-- `failed c`: `return -1`. `finished p c`: the break behind the last line feed. `exhausted`: the
-- fuel ran out.
pub data Parse : Type 0 where
  more : ParseState → ℕ → ℕ → Client → Parse
  failed : Client → Parse
  finished : ℕ → Client → Parse
  exhausted : Parse

abbrev bad_request : Client → Parse
bad_request c = Parse.failed (with_status c Status.bad_request)

abbrev pub parse_past_end : Client → ℕ → Bool
parse_past_end c r = leb (length c.req_headers) r

-- `for (; !parse_past_end(r) && *r != b; r++);`
abbrev pub scan : ℕ → Bytes → ℕ → ℕ
scan b buf r = r + steps_to b (drop r buf)

-- `for (q++; *q == ' ' || *q == '\t'; q++);`, as the number of steps.
unfoldable pub skip_blanks : Bytes → ℕ
skip_blanks [] = 0
skip_blanks (x ∷ xs) = if x == b' ' || x == b'\t' then suc (skip_blanks xs) else 0

-- HTTP_PS_REQ_HEAD_LF; `next` is the jump back to `parse_header`.
unfoldable pub head_lf : (Client → ℕ → ℕ → Parse) → Client → ℕ → ℕ → Parse
head_lf next c p r =
    if parse_past_end c r
    then Parse.more ParseState.req_head_lf p r c
    else if not (byte_at c.req_headers r == b'\n')
    then bad_request c
    else if r == p
    then next c (r + 1) (r + 1)
    else Parse.finished (r + 1) c

-- The return code of the header's function.
abbrev pub after_header : (Client → ℕ → ℕ → Parse) → ℕ → Client × Rc → Parse
after_header next r (c, Rc.fail) = Parse.failed c
after_header next r (c, Rc.ok) = head_lf next c (r + 1) (r + 1)

-- A line from `p` to the `\r` at `r`, split at the colon that stands `i` bytes on.
unfoldable pub split_header : (Client → ℕ → ℕ → Parse) → Client → ℕ → ℕ → Option ℕ → Parse
split_header next c p r none = bad_request c
split_header next c p r (some i) =
    let buf = set c.req_headers (p + i) 0 in
    let value = p + i + 1 + skip_blanks (drop (p + i + 1) buf) in
    let c' = record c { req_headers = buf } in
    after_header next r (process_header headers c' (string_at buf p) value)

unfoldable pub head_found : (Client → ℕ → ℕ → Parse) → Client → ℕ → ℕ → Parse
unfolding split_header
head_found next c p r =
    let buf = set c.req_headers r 0 in
    if r == p
    then head_lf next c p (r + 1)
    else split_header next (record c { req_headers = buf }) p r (strchr (drop p buf) b':')

-- HTTP_PS_REQ_HEAD.
unfoldable pub head_line : (Client → ℕ → ℕ → Parse) → Client → ℕ → ℕ → Parse
unfolding head_found
head_line next c p r =
    let e = scan b'\r' c.req_headers r in
    if parse_past_end c e then Parse.more ParseState.req_head p e c else head_found next c p e

-- Each line takes a byte, so the bytes left are fuel enough.
unfoldable pub head_loop : ℕ → Client → ℕ → ℕ → Parse
head_loop zero c p r = Parse.exhausted
head_loop (suc fuel) c p r = head_line (head_loop fuel) c p r

abbrev pub head_fuel : Client → ℕ
head_fuel c = suc (length c.req_headers)

unfoldable pub req_head : Client → ℕ → ℕ → Parse
req_head c p r = head_loop (head_fuel c) c p r

unfoldable pub req_head_lf : Client → ℕ → ℕ → Parse
req_head_lf c p r = head_lf (head_loop (head_fuel c)) c p r

-- HTTP_PS_REQ_VERSION_LF.
unfoldable pub req_version_lf : Client → ℕ → ℕ → Parse
req_version_lf c p r =
    if parse_past_end c r
    then Parse.more ParseState.req_version_lf p r c
    else if not (byte_at c.req_headers r == b'\n')
    then bad_request c
    else req_head c (r + 1) (r + 1)

-- The version behind `HTTP/`, of `n` bytes.
unfoldable pub version_of : Bytes → ℕ → Option HttpVersion
version_of s n =
    if not (n == 3)
    then none
    else if has_prefix s (codes "1.1")
    then some HttpVersion.http_1_1
    else if has_prefix s (codes "1.0")
    then some HttpVersion.http_1_0
    else none

abbrev set_version : Client → HttpVersion → Client
set_version c v = record c { ta = record c.ta { req_version = v } }

-- The version, or `none` for the failure.
unfoldable pub version_known : Client → ℕ → Option HttpVersion → Parse
version_known c r none = Parse.failed (with_status c Status.version_not_supported)
version_known c r (some v) = req_version_lf (set_version c v) (r + 1) (r + 1)

unfoldable pub version_found : Client → ℕ → ℕ → Parse
unfolding version_of version_known
version_found c p r =
    if ltb (r - p) 5 || not (has_prefix (drop p c.req_headers) (codes "HTTP/"))
    then bad_request c
    else version_known c r (version_of (drop (p + 5) c.req_headers) (r - (p + 5)))

-- HTTP_PS_REQ_VERSION.
unfoldable pub req_version : Client → ℕ → ℕ → Parse
unfolding version_found
req_version c p r =
    let e = scan b'\r' c.req_headers r in
    if parse_past_end c e then Parse.more ParseState.req_version p e c else version_found c p e

-- `if (!s && *q == '?') s = q;`
abbrev first_mark : ℕ → Option ℕ → ℕ → Option ℕ
first_mark q none x = if x == b'?' then some q else none
first_mark q (some s) x = some s

-- `for (q = p; q < r; q++)`: `none` at a byte that is not printable, else the first `?`.
unfoldable pub scan_path : ℕ → Option ℕ → Bytes → Option (Option ℕ)
scan_path q s [] = some s
scan_path q s (x ∷ xs) = if is_print x then scan_path (q + 1) (first_mark q s x) xs else none

-- `*s = '\0'; url_decode(s + 1); req_query = s + 1`, if there is a `?`.
unfoldable pub take_query : Client → Option ℕ → Client
take_query c none = c
take_query c (some s) = record c {
  req_headers = url_decode (set c.req_headers s 0) (s + 1);
  ta = record c.ta { req_query = some (s + 1) };
}

-- `url_decode(p); req_path = p`
unfoldable pub take_path : Client → ℕ → Client
take_path c p = record c {
  req_headers = url_decode c.req_headers p;
  ta = record c.ta { req_path = some p };
}

unfoldable pub path_checked : Client → ℕ → ℕ → Parse
path_checked c p r =
    if attempted_path_traversal (string_at c.req_headers p)
    then bad_request c
    else req_version c (r + 1) (r + 1)

-- The result of the scan: `none` at a bad byte, else the place of the `?`.
unfoldable pub path_scanned : Client → ℕ → ℕ → Option (Option ℕ) → Parse
path_scanned c p r none = bad_request c
path_scanned c p r (some s) =
    let closed = record c { req_headers = set c.req_headers r 0 } in
    path_checked (take_path (take_query closed s) p) p r

unfoldable pub path_found : Client → ℕ → ℕ → Parse
unfolding path_scanned
path_found c p r = path_scanned c p r (scan_path p none (take (r - p) (drop p c.req_headers)))

-- HTTP_PS_REQ_PATH.
unfoldable pub req_path : Client → ℕ → ℕ → Parse
unfolding path_found
req_path c p r =
    let e = scan b' ' c.req_headers r in
    if parse_past_end c e then Parse.more ParseState.req_path p e c else path_found c p e

-- `switch (r - p)`; `none` is `method_not_recognized`.
unfoldable pub method_of : Bytes → ℕ → Option Method
method_of s n =
    if n == 3
    then (if has_prefix s (codes "GET ")
        then some Method.get
        else if has_prefix s (codes "PUT ")
        then some Method.put
        else none)
    else if n == 4
    then (if has_prefix s (codes "HEAD ")
        then some Method.head
        else if has_prefix s (codes "POST ")
        then some Method.post
        else none)
    else if n == 6
    then (if has_prefix s (codes "DELETE ") then some Method.delete else none)
    else none

abbrev set_method : Client → Method → Client
set_method c m = record c { ta = record c.ta { req_method = m } }

unfoldable pub method_known : Client → ℕ → Option Method → Parse
method_known c r none = Parse.failed (set_method (with_status c Status.not_implemented) Method.get)
method_known c r (some m) = req_path (set_method c m) (r + 1) (r + 1)

unfoldable pub method_found : Client → ℕ → ℕ → Parse
unfolding method_of method_known
method_found c p r = method_known c r (method_of (drop p c.req_headers) (r - p))

-- HTTP_PS_REQ_METHOD.
unfoldable pub req_method : Client → ℕ → ℕ → Parse
unfolding method_found
req_method c p r =
    let e = scan b' ' c.req_headers r in
    if parse_past_end c e then Parse.more ParseState.req_method p e c else method_found c p e

-- `switch (client->ta.parse_state)`.
unfoldable pub parse : ParseState → Client → ℕ → ℕ → Parse
parse ParseState.ps_new c p r = req_method c 0 0
parse ParseState.req_method c p r = req_method c p r
parse ParseState.req_path c p r = req_path c p r
parse ParseState.req_version c p r = req_version c p r
parse ParseState.req_version_lf c p r = req_version_lf c p r
parse ParseState.req_head c p r = req_head c p r
parse ParseState.req_head_lf c p r = req_head_lf c p r
