-- ===== src/Api.antt =====
-- src/api.c: what the handler of an endpoint may call. The cookies stand in Cookies, and the range of
-- the request is `parse_range` of Range.
pub mod Payload
use kitserv.Prelude.{
  ℕ, zero, suc, ◌+◌, ◌-◌, Bool, true, false, not, ◌&&◌, ◌||◌, Option, none, some, List, [], ◌∷◌,
  ◌++◌, ◌==◌, ltb, leb, min, if◌then◌else◌, length, drop, take,
}
use kitserv.Prelude.Int.{ℤ, pos, negsuc, ◌-ℤ◌, ltb_ℤ}
use kitserv.Cstring.{Bytes, string_at}
use kitserv.Status.{Status}
use kitserv.Client.{Client, Method, Rc, http_bufsz, with_status}
use kitserv.Buffer.{Alloc, Appended, buffer_append, buffer_appendva, buffer_reset, len}
use kitserv.Range.{parse_range}
use kitserv.Recv.{Socket, ReadResult, read, index}

abbrev pub get_request_method : Client → Method
get_request_method c = c.ta.req_method

abbrev pub get_request_path : Client → Option ℕ
get_request_path c = c.ta.req_path

abbrev pub get_request_query : Client → Option ℕ
get_request_query c = c.ta.req_query

abbrev pub get_request_content_length : Client → ℤ
get_request_content_length c = c.ta.req_content_len

abbrev pub get_request_mime_type : Client → Option ℕ
get_request_mime_type c = c.ta.req_mimetype

abbrev pub get_request_disposition : Client → Option ℕ
get_request_disposition c = c.ta.req_disposition

-- The two numbers, `none` for -1.
abbrev pub get_request_range : Client → Option (ℤ × ℤ)
get_request_range c = parse_range c

abbrev since : ℤ → Option ℤ → Option ℤ
since time none = none
since time (some t) = some (time -ℤ t)

-- `read_date` is `strptime` with `timegm`.
abbrev difference : (Bytes → Option ℤ) → Client → ℤ → Option ℕ → Option ℤ
difference read_date c time none = none
difference read_date c time (some p) = since time (read_date (string_at c.req_headers p))

abbrev pub get_request_modified_since_difference : (Bytes → Option ℤ) → Client → ℤ → Option ℤ
get_request_modified_since_difference read_date c time =
    difference read_date c time c.ta.req_modified_since

-- What `kitserv_api_read_payload` leaves: the bytes it has put into `buf`, or -1, with the client and the
-- socket; `none` if the fuel ran out.
abbrev pub ReadPayload : Type 0
ReadPayload = Option (Option Bytes × Client × Socket)

-- `written > 0 ? written : -1`
abbrev pub some_written : Bytes → Option Bytes
some_written [] = none
some_written (x ∷ xs) = some (x ∷ xs)

-- The three cases of `rc`; `next` is the next round of the loop.
unfoldable pub after_payload_read :
    (Bytes → Socket → ReadPayload) → Client → Bytes → ReadResult × Socket → ReadPayload
after_payload_read next c written (ReadResult.would_block, sk) = some (some_written written, c, sk)
after_payload_read next c written (ReadResult.broken, sk) =
    some (none, with_status c Status.hangup, sk)
after_payload_read next c written (ReadResult.got [], sk) = some (some_written written, c, sk)
after_payload_read next c written (ReadResult.got (x ∷ b), sk) = next (written ++ x ∷ b) sk

-- `while (nbytes > 0)`: every round that goes on reads a byte, so `nbytes` and one more is fuel enough.
unfoldable pub payload_loop : ℕ → ℕ → Client → Bytes → Socket → ReadPayload
unfolding after_payload_read read
payload_loop zero nbytes c written sk = none
payload_loop (suc fuel) nbytes c written sk =
    let wanted = nbytes - length written in
    let more = after_payload_read (payload_loop fuel nbytes c) c written (read sk wanted) in
    if ltb 0 wanted then more else some (some written, c, sk)

-- The bytes of the payload that stand in the buffer and were not handed out.
abbrev pub overread : Client → Bytes
overread c =
    take (c.ta.req_payload_len - c.ta.req_payload_pos)
      (drop (index c.ta.req_payload + c.ta.req_payload_pos) c.req_headers)

abbrev pub set_payload_pos : Client → ℕ → Client
set_payload_pos c n = record c { ta = record c.ta { req_payload_pos = n } }

unfoldable pub read_payload : Client → ℕ → Socket → ReadPayload
unfolding payload_loop
read_payload c nbytes sk =
    let rc = c.ta.req_payload_len - c.ta.req_payload_pos in
    let n = min nbytes rc in
    payload_loop (suc nbytes) nbytes (set_payload_pos c (c.ta.req_payload_pos + n))
      (take n (overread c)) sk

-- What an append to the body gives: its number of bytes, or -1; `none` is a write behind the block.
abbrev pub WriteBody : Type 0
WriteBody = Option (Option ℤ × Client)

abbrev pub set_body : Client → Appended → WriteBody
set_body c (Appended.done b) =
    some (some (pos (len b) -ℤ pos (len c.resp_body)), record c { resp_body = b })
set_body c (Appended.no_memory b) = some (none, record c { resp_body = b })
set_body c Appended.overrun = none
set_body c Appended.freed = none

unfoldable pub write_body : Alloc → Client → Bytes → WriteBody
unfolding buffer_append
write_body realloc c buf = set_body c (buffer_append realloc c.resp_body buf)

-- `text` is what the format and its arguments give.
unfoldable pub write_body_fmt : Alloc → Client → Bytes → WriteBody
unfolding buffer_appendva
write_body_fmt realloc c text = set_body c (buffer_appendva realloc c.resp_body text)

unfoldable pub reset_headers : Client → Client
reset_headers c = record c {
  ta = record c.ta { resp_buf1 = record c.ta.resp_buf1 { iov_len = 0 } };
}

unfoldable pub reset_body : Alloc → Client → Client
unfolding buffer_reset
reset_body realloc c = record c { resp_body = buffer_reset realloc c.resp_body http_bufsz }

unfoldable pub is_disable : ℤ → Bool
is_disable (pos zero) = true
is_disable _ = false

-- `kitserv_api_send_file`, with the descriptors that it closes. It always returns 0.
unfoldable pub send_file : Client → ℤ → ℤ → Client × List ℤ
unfolding is_disable ◌-ℤ◌
send_file c fd filesize = (
  record c {
    ta = record c.ta {
      resp_fd = fd;
      resp_body_pos = pos 0;
      resp_body_end = if is_disable fd then c.ta.resp_body_end else filesize -ℤ pos 1;
    };
  },
  if ltb_ℤ (pos 0) c.ta.resp_fd then c.ta.resp_fd ∷ [] else [],
)

unfoldable pub set_send_range : Client → ℤ → ℤ → Client × Rc
set_send_range c from to =
    if ltb_ℤ from (pos 0) || ltb_ℤ to (pos 0)
    then (c, Rc.fail)
    else (record c { ta = record c.ta { resp_body_pos = from; resp_body_end = to } }, Rc.ok)

abbrev pub set_preserve_headers_on_error : Client → Bool → Client
set_preserve_headers_on_error c enabled = record c {
  ta = record c.ta { preserve_headers_on_error = enabled };
}

abbrev pub set_preserve_body_on_error : Client → Bool → Client
set_preserve_body_on_error c enabled = record c {
  ta = record c.ta { preserve_body_on_error = enabled };
}

abbrev pub set_response_status : Client → Status → Client
set_response_status c s = with_status c s

-- The pointer is a number.
abbrev pub save_state : Client → Option ℕ → Client
save_state c state = record c { ta = record c.ta { api_internal_data = state } }
