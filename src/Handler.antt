-- ===== src/Handler.antt =====
-- A handler of an endpoint, the `kitserv_api_handler_t` of include/kitserv.h, as a program over the calls
-- that this header declares. The client is opaque to it: it knows what the calls return, and the strings
-- that they point to.
pub mod Keeps
use kitserv.Prelude.{ℕ, Bool, Option, none, some}
use kitserv.Prelude.Int.{ℤ}
use kitserv.Cstring.{Bytes}
use kitserv.Status.{Status}
use kitserv.Client.{Client, Method, Rc}
use kitserv.Cookies
use kitserv.Response.Headers
use kitserv.Recv.{Socket}
use kitserv.Static.{Errno, RequestContext, path_of}
use kitserv.Static.Respond
use kitserv.Api
use kitserv.Serve.{Server, Request}

-- The functions of the header, with their arguments. A format and its arguments are the text that they give.
pub data Call : Type 0 where
  header_add : Bytes → Bytes → Call
  header_add_content_type : Bytes → Call
  header_add_content_type_guess : Option Bytes → Call
  header_add_last_modified : ℤ → Call
  handle_static_path : Bytes → Option RequestContext → Call
  get_request_method : Call
  get_request_path : Call
  get_request_query : Call
  get_request_content_length : Call
  get_request_cookie : Option Bytes → Call
  get_request_cookie_n : Option Bytes → ℕ → Call
  get_request_mime_type : Call
  get_request_disposition : Call
  get_request_range : Call
  get_request_modified_since_difference : ℤ → Call
  read_payload : ℕ → Call
  write_body : Bytes → Call
  write_body_fmt : Bytes → Call
  reset_headers : Call
  reset_body : Call
  send_file : ℤ → ℤ → Call
  set_send_range : ℤ → ℤ → Call
  set_preserve_headers_on_error : Bool → Call
  set_preserve_body_on_error : Bool → Call
  set_response_status : Status → Call
  save_state : Option ℕ → Call

-- What a call returns.
pub data Answer : Type 0 where
  nothing : Answer
  code : Rc → Answer
  method : Method → Answer
  string : Option Bytes → Answer
  number : ℤ → Answer
  count : Option ℤ → Answer
  range : Option (ℤ × ℤ) → Answer
  payload : Option Bytes → Answer

pub data Handler : Type 0 where
  returns : Handler
  calls : Call → (Answer → Handler) → Handler

-- What is left behind a call; `none` where it writes out of bounds.
abbrev pub Called : Type 0
Called = Option (Answer × Client × Socket)

abbrev pub coded : Socket → Client × Rc → Called
coded sk (c, rc) = some (Answer.code rc, c, sk)

abbrev pub string_of : Client → Option ℕ → Option Bytes
string_of c none = none
string_of c (some p) = some (path_of c (some p))

abbrev pub looked_up : Socket → Option (Client × Option ℕ) → Called
looked_up sk none = none
looked_up sk (some (c, o)) = some (Answer.string (string_of c o), c, sk)

abbrev pub payload_read : Api.ReadPayload → Called
payload_read none = none
payload_read (some (o, c, sk)) = some (Answer.payload o, c, sk)

abbrev pub body_written : Socket → Api.WriteBody → Called
body_written sk none = none
body_written sk (some (o, c)) = some (Answer.count o, c, sk)

-- `ctx`, or the default context for NULL.
abbrev pub context_of : Server → Option RequestContext → RequestContext
context_of server none = server.context
context_of server (some ctx) = ctx

unfoldable pub perform : Server → Errno → Call → Client → Socket → Called
unfolding Headers.header_add Headers.header_add_content_type Headers.header_add_content_type_guess
    Respond.header_add_last_modified Respond.handle_static_path Cookies.get_request_cookie
    Cookies.get_request_cookie_n Api.read_payload Api.write_body Api.write_body_fmt
    Api.reset_headers Api.reset_body Api.send_file Api.set_send_range
perform server errno (Call.header_add key value) c sk = coded sk (Headers.header_add c key value)
perform server errno (Call.header_add_content_type mime) c sk =
    coded sk (Headers.header_add_content_type c mime)
perform server errno (Call.header_add_content_type_guess extension) c sk =
    coded sk (Headers.header_add_content_type_guess c extension)
perform server errno (Call.header_add_last_modified time) c sk =
    coded sk (Respond.header_add_last_modified server.host c time)
perform server errno (Call.handle_static_path path ctx) c sk =
    coded sk (Respond.handle_static_path server.host (context_of server ctx) c errno path).0
perform server errno Call.get_request_method c sk =
    some (Answer.method (Api.get_request_method c), c, sk)
perform server errno Call.get_request_path c sk =
    some (Answer.string (string_of c (Api.get_request_path c)), c, sk)
perform server errno Call.get_request_query c sk =
    some (Answer.string (string_of c (Api.get_request_query c)), c, sk)
perform server errno Call.get_request_content_length c sk =
    some (Answer.number (Api.get_request_content_length c), c, sk)
perform server errno (Call.get_request_cookie key) c sk =
    looked_up sk (Cookies.get_request_cookie c key)
perform server errno (Call.get_request_cookie_n key keylen) c sk =
    looked_up sk (Cookies.get_request_cookie_n c key keylen)
perform server errno Call.get_request_mime_type c sk =
    some (Answer.string (string_of c (Api.get_request_mime_type c)), c, sk)
perform server errno Call.get_request_disposition c sk =
    some (Answer.string (string_of c (Api.get_request_disposition c)), c, sk)
perform server errno Call.get_request_range c sk =
    some (Answer.range (Api.get_request_range c), c, sk)
perform server errno (Call.get_request_modified_since_difference time) c sk =
    some
      (Answer.count (Api.get_request_modified_since_difference server.host.read_date c time), c, sk)
perform server errno (Call.read_payload nbytes) c sk = payload_read (Api.read_payload c nbytes sk)
perform server errno (Call.write_body buf) c sk =
    body_written sk (Api.write_body server.realloc c buf)
perform server errno (Call.write_body_fmt text) c sk =
    body_written sk (Api.write_body_fmt server.realloc c text)
perform server errno Call.reset_headers c sk = some (Answer.nothing, Api.reset_headers c, sk)
perform server errno Call.reset_body c sk =
    some (Answer.nothing, Api.reset_body server.realloc c, sk)
perform server errno (Call.send_file fd filesize) c sk =
    some (Answer.code Rc.ok, (Api.send_file c fd filesize).0, sk)
perform server errno (Call.set_send_range from to) c sk = coded sk (Api.set_send_range c from to)
perform server errno (Call.set_preserve_headers_on_error enabled) c sk =
    some (Answer.nothing, Api.set_preserve_headers_on_error c enabled, sk)
perform server errno (Call.set_preserve_body_on_error enabled) c sk =
    some (Answer.nothing, Api.set_preserve_body_on_error c enabled, sk)
perform server errno (Call.set_response_status status) c sk =
    some (Answer.nothing, Api.set_response_status c status, sk)
perform server errno (Call.save_state state) c sk =
    some (Answer.nothing, Api.save_state c state, sk)

abbrev pub and_on : (Answer → Client → Socket → Request) → Called → Request
and_on next none = none
and_on next (some (a, c, sk)) = next a c sk

-- The run of a handler, one call after the other.
unfoldable pub run : Server → Errno → Handler → Client → Socket → Request
run server errno Handler.returns c sk = some (c, sk)
run server errno (Handler.calls k next) c sk =
    and_on (λ a d sk'. run server errno (next a) d sk') (perform server errno k c sk)

-- A server whose endpoints have these handlers, each with the pointer that it saved before.
abbrev pub with_handlers : Server → Errno → (ℕ → Option ℕ → Handler) → Server
with_handlers server errno handlers = record server {
  handler = λ h c state sk. run server errno (handlers h state) c sk;
}
