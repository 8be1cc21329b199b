-- ===== src/Lib.antt =====
-- Verification of kitserv, an HTTP server in C.
--
-- A request is read and parsed by `kitserv_http_recv_request`, an endpoint or a static file sets the
-- response, `kitserv_http_prepare_response` writes its start line and headers, and
-- `kitserv_http_send_response` and `kitserv_http_send_response_file` send it. The workers of
-- src/kitserv.c own the connections; an accepter gives each new socket to one of them.
--
-- Which file models what:
--   Prelude      the names, list lemmas and Boolean tests that the rest shares; Prelude/Int: integers
--   Cstring      C strings and the calls of the C library on them, `strtonum` of src/http.c
--   Status       the response statuses of include/kitserv.h
--   Client       `struct http_transaction` and `struct kitserv_client` of src/include/http.h
--   UrlDecode    `url_decode` of src/http.c, in place on the buffer
--   Traversal    `attempted_path_traversal` of src/http.c
--   Header       the request headers and the table of src/http.c
--   Parser       the switch of `kitserv_http_recv_request`, a function for each case label
--   Recv         the read loop of `kitserv_http_recv_request`
--   Range        `kitserv_http_parse_range` and `parse_range_request` of src/http.c
--   Buffer       src/buffer.c
--   Response     `kitserv_http_header_add` and `kitserv_http_prepare_response` of src/http.c
--   Send         `kitserv_http_send_response` and `kitserv_http_send_response_file` of src/http.c
--   Finalize     `kitserv_http_finalize_transaction` and `kitserv_http_reset_client` of src/http.c
--   ApiTree      `parse_api_tree` of src/http.c
--   Cookies      `kitserv_http_parse_cookies` of src/http.c, and the lookup of src/api.c
--   Static       `kitserv_http_handle_static_path` of src/http.c: the search; Static/Respond: the rest
--   Api          src/api.c: what the handler of an endpoint calls
--   Serve        `kitserv_http_serve_request` and `kitserv_http_serve_client` of src/http.c
--   Handler      the handlers of include/kitserv.h, as programs over the calls that it declares
--   Pool         the connection containers and the choice of a worker, src/kitserv.c
--   Create       `kitserv_http_create_client_struct` of src/http.c
--   Start        `kitserv_server_start` of src/kitserv.c and `kitserv_http_init` of src/http.c
--   Queue        src/queue.c
--   Workers      the loops of `accept_worker` and `client_worker` of src/kitserv.c, as steps
--   Socket       src/socket.c, and the sockets that `kitserv_server_start` prepares
--   Main         src/main.c: the options and the configuration
--   Tests        small inputs
--
-- How the state corresponds: a `char*` into a buffer is an index, NULL is `none`; `req_headers` holds
-- the bytes received, so its length is `req_headers_len`; a return code is `Rc.ok` or `Rc.fail`; the
-- parts of the transaction are fields of a record, which each function takes and gives back.
-- The system calls are parameters: the socket is the list of what its reads will give, `writev` and
-- `sendfile` are lists of results, `malloc` and `realloc` are a function that says which sizes succeed.
-- The file system and the C library's dates are a record, `Host`; the handlers of the endpoints are a
-- function of the client, the pointer that they saved and the socket, which Handler fills with programs:
-- trees of calls, each of which goes on with what the call returned.
-- What the C library does is written out in Cstring as far as the code relies on it.
--
-- Fuel: the header loop of the parser takes the length of the buffer and one more, since each line takes
-- a byte; `url_decode` takes the length of the buffer, since each round takes a byte of the string; the
-- read loop takes the size of the buffer and two more, since each round but the first and the last reads
-- a byte; the loop over the cookies takes the length of the buffer and one more, and the loop of
-- `kitserv_api_read_payload` the number of bytes asked for and one more, since each round takes a byte;
-- the loop of `kitserv_http_serve_client` takes two more rounds than there are bytes in the buffer and
-- still to come, since each request has a head that is not empty; a number is printed with 20 digits, which 64 bits do not exceed.
--
-- Assertions that fail, and writes and reads out of bounds, are results of the model: a fault of
-- `connection_accept`, `none`, or an abort of `kitserv_http_serve_client`.
--
-- Threads: a step of Workers/Reach is an accepted socket that is given to a worker, or an event that is
-- served. The scores that `select_client_worker` reads one by one may be out of date when the worker is
-- chosen, so there a socket may go to any worker; `accept_round` is a round with no other thread in between.
-- From `connection_accept` to `kitserv_queue_add`, which are one step, the connection is in no free list and
-- no queue, so that no other thread can reach it.
--
-- Not modelled: the log output. In connection_init an allocation that fails aborts the server, and is left
-- out.
pub mod Prelude
pub mod Cstring
pub mod Client
pub mod Status
pub mod UrlDecode
pub mod Traversal
pub mod Header
pub mod Parser
pub mod Recv
pub mod Finalize
pub mod Buffer
pub mod Range
pub mod Pool
pub mod Create
pub mod Send
pub mod ApiTree
pub mod Response
pub mod Cookies
pub mod Static
pub mod Api
pub mod Serve
pub mod Handler
pub mod Queue
pub mod Workers
pub mod Socket
pub mod Start
pub mod Main
pub mod Tests
