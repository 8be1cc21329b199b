-- ===== src/Finalize.antt =====
-- The end of a transaction in src/http.c: `kitserv_http_finalize_transaction`, which keeps what the
-- client has sent of its next request, and `kitserv_http_reset_client`.
pub mod Pipeline
use kitserv.Prelude.{ℕ, ◌+◌, ◌-◌, ◌&&◌, Option, none, some, [], take, drop, leb, if◌then◌else◌}
use kitserv.Client.{Client, cleared, http_bufsz}
use kitserv.Buffer.{Alloc, buffer_reset}
use kitserv.Recv.{index}

unfoldable pub cleanup_client : Alloc → Client → Client
unfolding buffer_reset
cleanup_client realloc c = record c {
  ta = cleared;
  resp_body = buffer_reset realloc c.resp_body http_bufsz;
}

-- `none`: the assertion on `remaining_payload` fails. With no payload the pointer is NULL and the length 0,
-- so nothing is moved.
unfoldable pub finalize_transaction : Alloc → Client → Option Client
unfolding cleanup_client
finalize_transaction realloc c =
    let remaining_payload = c.ta.req_payload_len - c.ta.req_payload_pos in
    let rest = drop (index c.ta.req_payload + c.ta.req_payload_pos) c.req_headers in
    if leb c.ta.req_payload_pos c.ta.req_payload_len && leb remaining_payload http_bufsz
    then some (cleanup_client realloc (record c { req_headers = take remaining_payload rest }))
    else none

unfoldable pub reset_client : Alloc → Client → Client
unfolding cleanup_client
reset_client realloc c = cleanup_client realloc (record c { req_headers = [] })
