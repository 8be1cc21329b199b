-- ===== src/Serve.antt =====
-- `kitserv_http_serve_request` and `kitserv_http_serve_client` of src/http.c. The handlers of the
-- endpoints, the file system and what the system calls give are parameters. The log line is left out.
pub mod States
pub mod Request
pub mod Owner
pub mod Progress
pub mod Ends
use kitserv.Prelude.{
  ℕ, zero, suc, ◌+◌, Bool, true, false, not, ◌&&◌, Option, none, some, List, [], ◌∷◌, ◌==◌, drop,
  if◌then◌else◌,
}
use kitserv.Cstring.{Bytes, string_at}
use kitserv.Status.{Status}
use kitserv.Client.{Client, Rc, TransactionState}
use kitserv.Buffer.{Alloc}
use kitserv.Recv.{Socket, recv_request}
use kitserv.Send.{IoResult, set_state, send_response, send_response_file}
use kitserv.Finalize.{finalize_transaction}
use kitserv.ApiTree.{ApiTree, Subtrees, prefixes_of, parse_api_tree}
use kitserv.Static.{Host, RequestContext, Errno, is_unset, path_of}
use kitserv.Static.Respond.{handle_static_path}
use kitserv.Response.{prepare_response, is_hangup}

-- The client and the socket behind a handler or `kitserv_http_serve_request`; `none` where the code aborts.
abbrev pub Request : Type 0
Request = Option (Client × Socket)

-- What a server is started with, and what is behind its system calls. A handler takes the client, the
-- pointer that it saved, and the socket, which it may read.
pub record Server : Type 0 where
  pub api_tree : Option ApiTree
  pub handler : ℕ → Client → Option ℕ → Socket → Request
  pub context : RequestContext
  pub host : Host
  pub realloc : Alloc

-- What is still to come of the socket, and of the writes: a list for each call that sends.
pub record World : Type 0 where
  pub socket : Socket
  pub writes : List (List IoResult)
  pub files : List (List IoResult)
  pub errno : Errno

-- The client, the world and the return code. `aborted`: an assertion fails, or the code reads or writes
-- out of bounds. `exhausted`: the fuel ran out.
pub data Served : Type 0 where
  served : Client → World → Rc → Served
  aborted : Served
  exhausted : Served

-- `for (p = client->ta.req_path; *p == '/'; p++);`, as the number of steps.
unfoldable pub skip_slashes : Bytes → ℕ
skip_slashes [] = 0
skip_slashes (x ∷ xs) = if x == b'/' then suc (skip_slashes xs) else 0

abbrev pub path_start : Client → Option ℕ → ℕ
path_start c none = 0
path_start c (some p) = p + skip_slashes (drop p c.req_headers)

-- `cont`
unfoldable pub cont : Client → Socket → Request
cont c sk = some (set_state c TransactionState.prepare_response, sk)

-- The call of the static path.
unfoldable pub serve_static : Server → Errno → Client → Socket → Request
unfolding cont handle_static_path
serve_static server errno c sk =
    cont (handle_static_path server.host server.context c errno (path_of c c.ta.req_path)).0.0 sk

-- The client behind the handler.
abbrev pub handled : Request → Request
handled none = none
handled (some (c, sk)) = if is_unset c.ta.resp_status then some (c, sk) else cont c sk

-- `if (client->ta.api_endpoint_hit)`
abbrev pub call_endpoint : Server → Errno → Client → Socket → Option ℕ → Request
call_endpoint server errno c sk none = serve_static server errno c sk
call_endpoint server errno c sk (some h) = handled (server.handler h c c.ta.api_internal_data sk)

abbrev pub parsed_tree : Server → Errno → Socket → Option (Client × Rc) → Request
parsed_tree server errno sk none = none
parsed_tree server errno sk (some (c, Rc.ok)) =
    call_endpoint server errno c sk c.ta.api_endpoint_hit
parsed_tree server errno sk (some (c, Rc.fail)) = cont c sk

abbrev pub subtrees_of : ApiTree → Subtrees
subtrees_of (ApiTree.node entries subtrees) = subtrees

abbrev pub is_null : Option ℕ → Bool
is_null none = true
is_null (some p) = false

-- With a tree: it is parsed unless an endpoint was hit by an earlier call.
abbrev pub try_tree : Server → Errno → Client → Socket → ApiTree → Option ℕ → Request
try_tree server errno c sk tree (some h) = call_endpoint server errno c sk (some h)
try_tree server errno c sk tree none =
    if is_null c.ta.api_internal_data && c.ta.api_allow_flags == 0
    then parsed_tree server errno sk
        (parse_api_tree (prefixes_of (subtrees_of tree)) c (path_start c c.ta.req_path) tree)
    else none

abbrev pub with_tree : Server → Errno → Client → Socket → Option ApiTree → Request
with_tree server errno c sk none = serve_static server errno c sk
with_tree server errno c sk (some tree) = try_tree server errno c sk tree c.ta.api_endpoint_hit

-- `kitserv_http_serve_request`, which always returns 0.
unfoldable pub serve_request : Server → Errno → Client → Socket → Request
unfolding serve_static parse_api_tree cont is_unset skip_slashes
serve_request server errno c sk = with_tree server errno c sk server.api_tree

abbrev pub Loop : Type 0
Loop = Client → World → Served

abbrev pub finalized : Loop → World → Option Client → Served
finalized next w none = Served.aborted
finalized next w (some c) = next c w

-- HTTP_STATE_DONE; `next` is the next round of the loop.
unfoldable pub done_stage : Server → Loop → Loop
unfolding finalize_transaction
done_stage server next c w = finalized next w (finalize_transaction server.realloc c)

abbrev pub head_of : List (List IoResult) → List IoResult
head_of [] = []
head_of (io ∷ ios) = io

abbrev pub tail_of : List (List IoResult) → List (List IoResult)
tail_of [] = []
tail_of (io ∷ ios) = ios

-- `*state == wait`
unfoldable pub same_state : TransactionState → TransactionState → Bool
same_state TransactionState.read TransactionState.read = true
same_state TransactionState.serve TransactionState.serve = true
same_state TransactionState.prepare_response TransactionState.prepare_response = true
same_state TransactionState.send TransactionState.send = true
same_state TransactionState.send_file TransactionState.send_file = true
same_state TransactionState.done TransactionState.done = true
same_state _ _ = false

-- What follows a stage: its result, the state that it would wait in, and the stage behind it.
unfoldable pub stage_result : TransactionState → Loop → Client × Rc → World → Served
unfolding same_state
stage_result wait next (c, Rc.fail) w = Served.served c w Rc.fail
stage_result wait next (c, Rc.ok) w =
    if same_state c.ta.state wait then Served.served c w Rc.ok else next c w

-- HTTP_STATE_SEND_FILE
unfoldable pub send_file_stage : Server → Loop → Loop
unfolding stage_result done_stage send_response_file
send_file_stage server next c w =
    stage_result TransactionState.send_file (done_stage server next)
      (send_response_file c (head_of w.files)).0 (record w { files = tail_of w.files })

-- HTTP_STATE_SEND
unfoldable pub send_stage : Server → Loop → Loop
unfolding stage_result send_file_stage send_response
send_stage server next c w =
    stage_result TransactionState.send (send_file_stage server next)
      (send_response c (head_of w.writes)) (record w { writes = tail_of w.writes })

abbrev pub prepared : Server → Loop → World → Option (Client × Rc) → Served
prepared server next w none = Served.aborted
prepared server next w (some r) =
    stage_result TransactionState.prepare_response (send_stage server next) r w

-- `prep_response`
unfoldable pub prepare_stage : Server → Loop → Loop
unfolding stage_result send_stage prepare_response
prepare_stage server next c w =
    prepared server next w
      (prepare_response server.realloc (set_state c TransactionState.prepare_response))

-- A failure of the stages that read and serve: a hangup ends the connection.
unfoldable pub or_hangup : Server → Loop → Loop
unfolding prepare_stage is_hangup
or_hangup server next c w =
    if is_hangup c.ta.resp_status then Served.served c w Rc.fail else prepare_stage server next c w

abbrev pub request_served : Server → Loop → World → Request → Served
request_served server next w none = Served.aborted
request_served server next w (some (c, sk)) =
    stage_result TransactionState.serve (prepare_stage server next) (c, Rc.ok)
      (record w { socket = sk })

-- HTTP_STATE_SERVE
unfoldable pub serve_stage : Server → Loop → Loop
unfolding stage_result prepare_stage serve_request
serve_stage server next c w = request_served server next w (serve_request server w.errno c w.socket)

abbrev pub received_request : Server → Loop → World → Option (Socket × Client × Rc) → Served
received_request server next w none = Served.exhausted
received_request server next w (some (sk, c, Rc.fail)) =
    or_hangup server next c (record w { socket = sk })
received_request server next w (some (sk, c, Rc.ok)) =
    stage_result TransactionState.read (serve_stage server next) (c, Rc.ok)
      (record w { socket = sk })

-- HTTP_STATE_READ
unfoldable pub read_stage : Server → Loop → Loop
unfolding stage_result serve_stage or_hangup recv_request
read_stage server next c w = received_request server next w (recv_request w.socket c)

-- `switch (*state)`, with the stages that it falls through to.
unfoldable pub serve_round : Server → Loop → TransactionState → Loop
unfolding read_stage serve_stage prepare_stage send_stage send_file_stage done_stage
serve_round server next TransactionState.read c w = read_stage server next c w
serve_round server next TransactionState.serve c w = serve_stage server next c w
serve_round server next TransactionState.prepare_response c w = prepare_stage server next c w
serve_round server next TransactionState.send c w = send_stage server next c w
serve_round server next TransactionState.send_file c w = send_file_stage server next c w
serve_round server next TransactionState.done c w = done_stage server next c w

-- `kitserv_http_serve_client`: `while (1)`, one transaction in each round.
unfoldable pub serve_client : ℕ → Server → Loop
unfolding serve_round
serve_client zero server c w = Served.exhausted
serve_client (suc fuel) server c w = serve_round server (serve_client fuel server) c.ta.state c w
