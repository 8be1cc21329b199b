-- ===== src/Client.antt =====
-- The data of src/include/http.h, include/kitserv.h and src/include/buffer.h: the enumerations, the
-- transaction and the client. A `char*` into `req_headers` is an index, `none` for NULL. The list
-- `req_headers` holds the bytes received, so its length is `req_headers_len`. An `int` or `off_t`
-- that the code keeps at 0 or more is a natural number, any other an integer.
pub mod Kept
use kitserv.Prelude.{ℕ, Bool, false, Option, none, List, ◌++◌}
use kitserv.Prelude.Int.{ℤ, pos}
use kitserv.Cstring.{Bytes}
use kitserv.Status.{Status}

abbrev pub http_bufsz : ℕ
http_bufsz = 4096

abbrev pub http_bufsz_small : ℕ
http_bufsz_small = 256

abbrev pub http_max_cookies : ℕ
http_max_cookies = 50

-- `unset` is the 0 of a cleared transaction.
pub data Method : Type 0 where
  unset get put head post delete : Method

-- The flag bits. HEAD holds the bit of GET.
unfoldable pub method_bits : Method → ℕ
method_bits Method.unset = 0
method_bits Method.get = 1
method_bits Method.put = 2
method_bits Method.head = 5
method_bits Method.post = 8
method_bits Method.delete = 16

pub data HttpVersion : Type 0 where
  http_1_1 http_1_0 : HttpVersion

pub data TransactionState : Type 0 where
  read serve prepare_response send send_file done : TransactionState

pub data ParseState : Type 0 where
  ps_new req_method req_path req_version req_version_lf req_head req_head_lf : ParseState

pub record Cookie : Type 0 where
  pub key : ℕ
  pub value : ℕ
  pub keylen : ℕ

-- `struct iovec`, its base an index into the buffer that it sends from.
pub record Iovec : Type 0 where
  pub iov_base : ℕ
  pub iov_len : ℕ

-- `buffer_t`: `alloc` is the true size of the block behind `buf`, `bytes` its contents up to `len`.
pub record Buffer : Type 0 where
  pub alloc : ℕ
  pub bytes : Bytes
  pub max : ℕ

pub record Transaction : Type 0 where
  pub state : TransactionState
  pub parse_state : ParseState
  pub req_method : Method
  pub req_version : HttpVersion
  pub req_payload : Option ℕ
  pub req_payload_pos : ℕ
  pub req_payload_len : ℕ
  pub req_content_len : ℤ
  pub req_parse_blk : Option ℕ
  pub req_parse_iter : Option ℕ
  pub req_path : Option ℕ
  pub req_query : Option ℕ
  pub req_mimetype : Option ℕ
  pub req_range : Option ℕ
  pub req_disposition : Option ℕ
  pub req_modified_since : Option ℕ
  pub req_fresh_cookies : Option ℕ
  pub req_num_cookies : ℕ
  pub resp_status : Status
  pub resp_buf0 : Iovec
  pub resp_buf1 : Iovec
  pub resp_buf2 : Iovec
  pub resp_fd : ℤ
  pub resp_body_pos : ℤ
  pub resp_body_end : ℤ
  pub range_requested : Bool
  pub preserve_headers_on_error : Bool
  pub preserve_body_on_error : Bool
  pub api_endpoint_hit : Option ℕ
  pub api_internal_data : Option ℕ
  pub api_allow_flags : ℕ

pub record Client : Type 0 where
  pub req_headers : Bytes
  pub req_cookies : List Cookie
  pub resp_start : Bytes
  pub resp_headers : Bytes
  pub resp_body : Buffer
  pub ta : Transaction
  pub sockfd : ℕ

-- What the C functions return as 0 and -1.
pub data Rc : Type 0 where
  ok fail : Rc

abbrev pub no_iovec : Iovec
no_iovec = record { iov_base = 0; iov_len = 0 }

-- `memset(&client->ta, 0, sizeof(struct http_transaction))`
abbrev pub cleared : Transaction
cleared = record {
  state = TransactionState.read;
  parse_state = ParseState.ps_new;
  req_method = Method.unset;
  req_version = HttpVersion.http_1_1;
  req_payload = none;
  req_payload_pos = 0;
  req_payload_len = 0;
  req_content_len = pos 0;
  req_parse_blk = none;
  req_parse_iter = none;
  req_path = none;
  req_query = none;
  req_mimetype = none;
  req_range = none;
  req_disposition = none;
  req_modified_since = none;
  req_fresh_cookies = none;
  req_num_cookies = 0;
  resp_status = Status.unset;
  resp_buf0 = no_iovec;
  resp_buf1 = no_iovec;
  resp_buf2 = no_iovec;
  resp_fd = pos 0;
  resp_body_pos = pos 0;
  resp_body_end = pos 0;
  range_requested = false;
  preserve_headers_on_error = false;
  preserve_body_on_error = false;
  api_endpoint_hit = none;
  api_internal_data = none;
  api_allow_flags = 0;
}

abbrev pub with_status : Client → Status → Client
with_status c s = record c { ta = record c.ta { resp_status = s } }

-- A client whose buffer has received more bytes.
abbrev pub received : Client → Bytes → Client
received c more = record c { req_headers = c.req_headers ++ more }
