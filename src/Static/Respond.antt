-- ===== src/Static/Respond.antt =====
-- `kitserv_http_handle_static_path` of src/http.c from the label `path_set` on, and the whole function.
use kitserv.Prelude.{
  ℕ, suc, Bool, true, false, Option, none, some, List, [], ◌∷◌, ◌++◌, ◌==◌, if◌then◌else◌, codes,
}
use kitserv.Prelude.Int.{ℤ, pos, negsuc, ◌-ℤ◌, leb_ℤ}
use kitserv.Cstring.{Bytes, string_at}
use kitserv.Status.{Status}
use kitserv.Client.{Client, Method, Rc, method_bits, with_status}
use kitserv.Range.{parse_range_request}
use kitserv.Response.Text.{print_int}
use kitserv.Response.Headers.{
  has_bit, header_add, header_add_content_type_guess, header_add_content_range,
}
use kitserv.Send.{close_fd_to_zero}
use kitserv.Static.{Host, RequestContext, Errno, Found, Search, find_path}

-- The client and the return code, with the descriptors that were closed.
abbrev pub Handled : Type 0
Handled = (Client × Rc) × List ℤ

abbrev pub set_fd : Client → ℤ → Client
set_fd c fd = record c { ta = record c.ta { resp_fd = fd } }

-- `err_closefd`
unfoldable pub err_closefd : Client → Handled
unfolding close_fd_to_zero
err_closefd c = let (c', closed) = close_fd_to_zero c in ((c', Rc.fail), closed)

abbrev pub server_error : Client → Client
server_error c = with_status c Status.internal_error

-- `if (client->ta.range_requested)` at the end.
unfoldable pub succeed : Client → Handled
succeed c = (
  (with_status c (if c.ta.range_requested then Status.partial_content else Status.ok), Rc.ok),
  [],
)

unfoldable pub not_modified : Client → Handled
unfolding close_fd_to_zero
not_modified c =
    let c' = with_status c Status.not_modified in
    let (d, closed) =
      close_fd_to_zero (record c' { ta = record c'.ta { req_method = Method.head } }) in
    ((d, Rc.ok), closed)

-- The date of the header against that of the file.
abbrev pub compared : Client → Found → Option ℤ → Handled
compared c f none = err_closefd (with_status c Status.bad_request)
compared c f (some since) = if leb_ℤ f.mtime since then not_modified c else succeed c

abbrev pub check_date : Host → Client → Found → Option ℕ → Handled
check_date host c f none = succeed c
check_date host c f (some p) = compared c f (host.read_date (string_at c.req_headers p))

unfoldable pub check_modified : Host → Found → Client → Handled
unfolding err_closefd succeed not_modified
check_modified host f c = check_date host c f c.ta.req_modified_since

-- `strrchr(fname, '.')`, as the string that begins there.
unfoldable pub strrchr_dot : Option Bytes → Bytes → Option Bytes
strrchr_dot last [] = last
strrchr_dot last (x ∷ xs) = strrchr_dot (if x == b'.' then some (x ∷ xs) else last) xs

abbrev pub dated : Client → Option Bytes → Client × Rc
dated c none = (c, Rc.fail)
dated c (some text) = header_add c (codes "last-modified") text

-- `kitserv_http_header_add_last_modified`
unfoldable pub header_add_last_modified : Host → Client → ℤ → Client × Rc
unfolding header_add
header_add_last_modified host c time = dated c (host.print_date time)

-- `a || b`, on return codes.
abbrev pub or_else : Client × Rc → (Client → Client × Rc) → Client × Rc
or_else (c, Rc.ok) next = next c
or_else (c, Rc.fail) next = (c, Rc.fail)

abbrev pub with_headers : Host → Found → Client × Rc → Handled
with_headers host f (c, Rc.ok) = check_modified host f c
with_headers host f (c, Rc.fail) = err_closefd (server_error c)

unfoldable pub add_headers : Host → Found → Client → Handled
unfolding err_closefd check_modified header_add header_add_content_type_guess
    header_add_last_modified strrchr_dot
add_headers host f c = with_headers host f (
    or_else
      (or_else (header_add_content_type_guess c (strrchr_dot none f.fname))
        (λ d. header_add d (codes "accept-ranges") (codes "bytes")))
      (λ d. header_add_last_modified host d f.mtime))

unfoldable pub is_bad_request : Status → Bool
is_bad_request Status.bad_request = true
is_bad_request _ = false

unfoldable pub is_not_satisfiable : Status → Bool
is_not_satisfiable Status.range_not_satisfiable = true
is_not_satisfiable _ = false

abbrev pub keep_headers : Client → Client
keep_headers c = record c { ta = record c.ta { preserve_headers_on_error = true } }

abbrev pub forget_range : Client → Client
forget_range c = record c { ta = record c.ta { range_requested = false } }

-- A range that was refused.
unfoldable pub range_failed : Host → Found → Client → Handled
unfolding add_headers err_closefd is_bad_request is_not_satisfiable header_add print_int
range_failed host f c =
    if is_bad_request c.ta.resp_status
    then add_headers host f (forget_range c)
    else if is_not_satisfiable c.ta.resp_status
    then err_closefd (
        keep_headers
          (header_add c (codes "content-range") (codes "*/" ++ print_int (pos f.size))).0)
    else err_closefd c

abbrev pub range_header : Host → Found → Client × Rc → Handled
range_header host f (c, Rc.ok) = add_headers host f c
range_header host f (c, Rc.fail) = err_closefd (server_error c)

abbrev pub ranged : Host → Found → Client × Rc → Handled
ranged host f (c, Rc.ok) =
    range_header host f
      (header_add_content_range c c.ta.resp_body_pos c.ta.resp_body_end (pos f.size))
ranged host f (c, Rc.fail) = range_failed host f c

-- From `resp_body_end = st.st_size - 1` on.
unfoldable pub set_range : Host → Found → Client → Handled
unfolding range_failed add_headers err_closefd parse_range_request header_add_content_range ◌-ℤ◌
set_range host f c =
    let c' = record c { ta = record c.ta { resp_body_end = pos f.size -ℤ pos 1 } } in
    if c'.ta.range_requested
    then ranged host f (parse_range_request c' (pos f.size))
    else add_headers host f c'

-- The result of `open`; the descriptor is one more than the number, since 0 is in use.
abbrev pub opened : Host → Found → Client → Option ℕ → Handled
opened host f c none = ((server_error c, Rc.fail), [])
opened host f c (some fd) = set_range host f (set_fd c (pos (suc fd)))

unfoldable pub is_get : Method → Bool
is_get Method.get = true
is_get _ = false

-- `path_set`
unfoldable pub path_set : Host → Found → Client → Handled
unfolding set_range is_get
path_set host f c =
    if is_get c.ta.req_method
    then opened host f c (host.open_file f.fname)
    else set_range host f (set_fd c (negsuc 0))

abbrev pub searched : Host → Search → Handled
searched host (Search.found c f) = path_set host f c
searched host (Search.stopped c) = ((c, Rc.fail), [])

-- `kitserv_http_handle_static_path`, with the context that it uses and the `errno` that it finds.
unfoldable pub handle_static_path : Host → RequestContext → Client → Errno → Bytes → Handled
unfolding find_path path_set method_bits
handle_static_path host ctx c errno path =
    if has_bit (method_bits c.ta.req_method) 1
    then searched host (find_path host ctx c errno path)
    else ((with_status c Status.method_not_allowed, Rc.fail), [])
