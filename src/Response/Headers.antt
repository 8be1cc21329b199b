-- ===== src/Response/Headers.antt =====
-- The headers of a response in src/http.c: `str_append`, `kitserv_http_header_add` and what calls it.
-- `%s` and `%ld` are written out, so the texts come in place of a format and its arguments.
use kitserv.Prelude.{
  ℕ, ◌+◌, ◌-◌, Bool, not, Option, none, some, [], ◌∷◌, ◌++◌, ltb, ◌==◌, if◌then◌else◌, codes,
  length, take, bit_and,
}
use kitserv.Prelude.Int.{ℤ}
use kitserv.Cstring.{Bytes}
use kitserv.Status.{Status}
use kitserv.Client.{Client, Rc, http_bufsz, with_status}
use kitserv.Response.Text.{crlf, guess_mime_type, print_int}

-- `str_append` and `str_appendva`: the new contents and offset, or `none` where text and NUL do not
-- fit. What stood behind the offset is lost.
unfoldable pub str_append : Bytes → ℕ → ℕ → Bytes → Option (Bytes × ℕ)
str_append buf offset max text =
    if ltb (length text) (max - offset)
    then some (take offset buf ++ text, offset + length text)
    else none

abbrev pub headers_len : Client → ℕ
headers_len c = c.ta.resp_buf1.iov_len

abbrev pub set_headers_len : Client → ℕ → Client
set_headers_len c n = record c {
  ta = record c.ta { resp_buf1 = record c.ta.resp_buf1 { iov_len = n } };
}

abbrev pub stored : Client → Bytes × ℕ → Client
stored c (buf, n) = set_headers_len (record c { resp_headers = buf }) n

-- An append to the headers.
abbrev pub appended : Client → Option (Bytes × ℕ) → Client × Rc
appended c none = (c, Rc.fail)
appended c (some r) = (stored c r, Rc.ok)

unfoldable pub append_headers : Client → Bytes → Client × Rc
unfolding str_append
append_headers c text = appended c (str_append c.resp_headers (headers_len c) http_bufsz text)

-- The next append, unless one has failed.
abbrev pub and_then : Client × Rc → Bytes → Client × Rc
and_then (c, Rc.ok) text = append_headers c text
and_then (c, Rc.fail) text = (c, Rc.fail)

-- `too_large`
unfoldable pub checked : ℕ → Client × Rc → Client × Rc
checked pre_sz (c, Rc.ok) = (c, Rc.ok)
checked pre_sz (c, Rc.fail) =
    (with_status (set_headers_len c pre_sz) Status.insufficient_storage, Rc.fail)

-- `kitserv_http_header_add`
unfoldable pub header_add : Client → Bytes → Bytes → Client × Rc
unfolding append_headers checked
header_add c key value =
    checked (headers_len c) (and_then (and_then (append_headers c (key ++ codes ": ")) value) crlf)

unfoldable pub header_add_content_type : Client → Bytes → Client × Rc
unfolding header_add
header_add_content_type c mime = header_add c (codes "content-type") mime

unfoldable pub header_add_content_type_guess : Client → Option Bytes → Client × Rc
unfolding header_add guess_mime_type
header_add_content_type_guess c extension =
    header_add c (codes "content-type") (guess_mime_type extension)

unfoldable pub header_add_content_range : Client → ℤ → ℤ → ℤ → Client × Rc
unfolding header_add print_int
header_add_content_range c start end total =
    header_add c (codes "content-range")
      (codes "bytes " ++ print_int start ++ b'-' ∷ print_int end ++ b'/' ∷ print_int total)

unfoldable pub header_add_content_length : Client → ℤ → Client × Rc
unfolding header_add print_int
header_add_content_length c n = header_add c (codes "content-length") (print_int n)

abbrev pub when : Bool → Bytes → Bytes
when b text = if b then text else []

-- `flags & bit`
abbrev pub has_bit : ℕ → ℕ → Bool
has_bit flags bit = not (bit_and flags bit == 0)

-- The methods of `allow_body`, before the last comma is cut.
unfoldable pub allow_body : ℕ → Bytes
allow_body flags =
    when (has_bit flags 1) (codes "GET, HEAD, ")
    ++ when (has_bit flags 2) (codes "PUT, ")
    ++ when (has_bit flags 8) (codes "POST, ")
    ++ when (has_bit flags 16) (codes "DELETE, ")

-- `none`: the assertion `len > 2` fails.
unfoldable pub header_add_allow : Client → Option (Client × Rc)
unfolding header_add allow_body
header_add_allow c =
    let body = allow_body c.ta.api_allow_flags in
    if c.ta.api_allow_flags == 0
    then some (header_add c (codes "allow") (codes "GET, HEAD"))
    else if ltb 2 (length body)
    then some (header_add c (codes "allow") (take (length body - 2) body))
    else none
