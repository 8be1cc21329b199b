-- ===== src/Response.antt =====
-- `kitserv_http_prepare_response` of src/http.c.
pub mod Text
pub mod Headers
pub mod Frame
pub mod State
pub mod Owner
pub mod HeaderAdd
pub mod StartLine
pub mod Stores
pub mod Whole
use kitserv.Prelude.{
  ℕ, zero, ◌-◌, Bool, true, false, not, ◌&&◌, ◌||◌, Option, none, some, List, [], ◌∷◌, ◌++◌,
  if◌then◌else◌, codes, length, take,
}
use kitserv.Prelude.Int.{ℤ, pos, ◌+ℤ◌, ◌-ℤ◌, pos_part, size_t}
use kitserv.Cstring.{Bytes, string_at}
use kitserv.Status.{Status, status_is_error}
use kitserv.Client.{Client, Iovec, Method, TransactionState, Rc, http_bufsz_small}
use kitserv.Buffer.{Alloc, Appended, buffer_append, len}
use kitserv.Send.{close_fd_to_zero, is_head, set_state}
use kitserv.Response.Text.{crlf, get_version_string, get_status_string, error_text}
use kitserv.Response.Headers.{
  str_append, append_headers, header_add, header_add_allow, header_add_content_length,
  header_add_content_type,
}

-- An append whose result is not tested.
abbrev pub or_same : Bytes × ℕ → Option (Bytes × ℕ) → Bytes × ℕ
or_same s none = s
or_same s (some r) = r

abbrev pub set_start : Client → Bytes × ℕ → Client
set_start c (buf, n) = record c {
  resp_start = buf;
  ta = record c.ta { resp_buf0 = record c.ta.resp_buf0 { iov_len = n } };
}

unfoldable pub prepare_resp_start : Client → Client
unfolding str_append get_version_string get_status_string
prepare_resp_start c =
    let first =
      or_same (c.resp_start, 0)
        (str_append c.resp_start 0 http_bufsz_small (get_version_string c.ta.req_version)) in
    set_start c (
      or_same first
        (str_append first.0 first.1 http_bufsz_small (get_status_string c.ta.resp_status)))

unfoldable pub is_zero : ℤ → Bool
is_zero (pos zero) = true
is_zero _ = false

-- The number that `content-length` gives: the range of the file, or what the body has to send.
unfoldable pub response_length : Client → ℤ
unfolding is_zero
response_length c =
    if is_zero c.ta.resp_fd
    then pos (len c.resp_body) -ℤ c.ta.resp_body_pos
    else c.ta.resp_body_end -ℤ c.ta.resp_body_pos +ℤ pos 1

-- The bases are offsets in the three buffers; a negative position, before the block, is written as 0. The
-- third one stays as it was unless the body is sent.
unfoldable pub set_bases : Client → Client
unfolding is_zero is_head
set_bases c =
    let first = record c.ta.resp_buf0 { iov_base = 0 } in
    let second = record c.ta.resp_buf1 { iov_base = 0 } in
    let third =
      if is_zero c.ta.resp_fd && not (is_head c.ta.req_method)
      then record {
        iov_base = pos_part c.ta.resp_body_pos;
        iov_len = size_t (pos (len c.resp_body) -ℤ c.ta.resp_body_pos);
      }
      else c.ta.resp_buf2 in
    set_state
      (record c { ta = record c.ta { resp_buf0 = first; resp_buf1 = second; resp_buf2 = third } })
      TransactionState.send

-- The last append: on failure the status goes to the descriptor.
unfoldable pub end_headers : Client × Rc → Client × Rc
unfolding set_bases
end_headers (c, Rc.ok) = (set_bases c, Rc.ok)
end_headers (c, Rc.fail) = (record c { ta = record c.ta { resp_fd = pos 507 } }, Rc.fail)

abbrev pub then_crlf : Client × Rc → Client × Rc
then_crlf (c, Rc.ok) = end_headers (append_headers c crlf)
then_crlf (c, Rc.fail) = (c, Rc.fail)

abbrev pub then_server : Client × Rc → Client × Rc
then_server (c, Rc.ok) = then_crlf (header_add c (codes "server") (codes "kitserv"))
then_server (c, Rc.fail) = (c, Rc.fail)

-- The code behind the label `success`; to fail is to go to `error_response`.
unfoldable pub success : Client → Client × Rc
unfolding prepare_resp_start response_length end_headers append_headers header_add
    header_add_content_length
success c =
    let started = prepare_resp_start c in
    then_server (header_add_content_length started (response_length started))

-- `none` is a write behind the block of the body, or the use of a block that may have been freed.
abbrev pub body_appended : Client → Appended → Option (Client × Rc)
body_appended c (Appended.done b) = some (record c { resp_body = b }, Rc.ok)
body_appended c (Appended.no_memory b) = some (record c { resp_body = b }, Rc.fail)
body_appended c Appended.overrun = none
body_appended c Appended.freed = none

unfoldable pub append_body : Alloc → Client → Bytes → Option (Client × Rc)
unfolding buffer_append
append_body realloc c text = body_appended c (buffer_append realloc c.resp_body text)

-- The path as a string. The code gives NULL to `strlen` where there is none: the model has an empty
-- text there.
abbrev pub path_text : Client → Option ℕ → Bytes
path_text c none = []
path_text c (some p) = string_at c.req_headers p

abbrev pub then_path : Alloc → Status → Option (Client × Rc) → Option (Client × Rc)
then_path realloc Status.not_found (some (c, Rc.ok)) =
    append_body realloc c (path_text c c.ta.req_path)
then_path realloc _ r = r

abbrev pub emptied : Client → Client
emptied c = record c {
  resp_body = record c.resp_body { bytes = [] };
  ta = record c.ta { resp_body_pos = pos 0; resp_body_end = pos 0 };
}

abbrev pub body_text : Alloc → Client × Rc → Option (Client × Rc)
body_text realloc (c, Rc.fail) = some (c, Rc.fail)
body_text realloc (c, Rc.ok) =
    then_path realloc c.ta.resp_status (append_body realloc c (error_text c.ta.resp_status))

unfoldable pub prepare_error_response_body : Alloc → Client → Option (Client × Rc)
unfolding close_fd_to_zero append_body error_text header_add_content_type
prepare_error_response_body realloc c =
    body_text realloc
      (header_add_content_type (close_fd_to_zero (emptied c)).0 (codes "text/plain"))

abbrev pub wiped : Client → Client
wiped c = record c { ta = record c.ta { resp_buf1 = record c.ta.resp_buf1 { iov_len = 0 } } }

unfoldable pub is_method_not_allowed : Status → Bool
is_method_not_allowed Status.method_not_allowed = true
is_method_not_allowed _ = false

unfoldable pub prepare_error_response_headers : Client → Option (Client × Rc)
unfolding is_method_not_allowed header_add_allow
prepare_error_response_headers c =
    if is_method_not_allowed c.ta.resp_status
    then header_add_allow (wiped c)
    else some (wiped c, Rc.ok)

abbrev pub then_body : Alloc → Option (Client × Rc) → Option (Client × Rc)
then_body realloc none = none
then_body realloc (some (c, Rc.ok)) = prepare_error_response_body realloc c
then_body realloc (some (c, Rc.fail)) = some (c, Rc.fail)

abbrev pub then_success : Option (Client × Rc) → Option (Client × Rc)
then_success none = none
then_success (some (c, Rc.ok)) = some (success c)
then_success (some (c, Rc.fail)) = some (c, Rc.fail)

-- The code behind `error_response`, the first time; a second time the connection is dropped.
unfoldable pub error_response : Alloc → Client → Option (Client × Rc)
unfolding success prepare_error_response_headers prepare_error_response_body
error_response realloc c =
    if c.ta.preserve_body_on_error
    then some (success c)
    else then_success (
        if c.ta.preserve_headers_on_error
        then prepare_error_response_body realloc c
        else then_body realloc (prepare_error_response_headers c))

abbrev pub or_error : Alloc → Client × Rc → Option (Client × Rc)
or_error realloc (c, Rc.ok) = some (c, Rc.ok)
or_error realloc (c, Rc.fail) = error_response realloc c

unfoldable pub is_hangup : Status → Bool
is_hangup Status.hangup = true
is_hangup _ = false

unfoldable pub prepare_response : Alloc → Client → Option (Client × Rc)
unfolding success error_response is_hangup
prepare_response realloc c =
    if is_hangup c.ta.resp_status
    then some (c, Rc.fail)
    else if status_is_error c.ta.resp_status
    then error_response realloc c
    else or_error realloc (success c)
