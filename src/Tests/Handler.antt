-- ===== src/Tests/Handler.antt =====
-- The results on handlers and on the end of a call of the server, at concrete inputs.
use kitserv.Prelude.{ℕ, ◌+◌, ◌≤◌, ◌≡◌, Option, none, some, [], ◌∷◌, codes, arith, length}
use kitserv.Client.{Client, cleared}
use kitserv.Client.Kept.{kept}
use kitserv.Status.{Status}
use kitserv.Recv.{Arrival, Socket}
use kitserv.Recv.Owner.{coming}
use kitserv.Static.{Errno}
use kitserv.Serve.{Server, serve_client}
use kitserv.Serve.Request.{RequestOwns}
use kitserv.Serve.Progress.{Ends}
use kitserv.Serve.Ends.{serve_client-Ends}
use kitserv.Handler.{Call, Answer, Handler, run, with_handlers}
use kitserv.Handler.Keeps.{run-RequestOwns, with_handlers-KeepsRequest}
use kitserv.Tests.Data.{new_client, request}
use kitserv.Tests.Endpoint.{server, world}

-- What it has read is the body of the response.
abbrev send_back : Answer → Handler
send_back (Answer.payload (some bytes)) =
    Handler.calls (Call.write_body bytes)
      (λ a. Handler.calls (Call.set_response_status Status.ok) (λ a. Handler.returns))
send_back _ = Handler.returns

abbrev echo : ℕ → Option ℕ → Handler
echo h state = Handler.calls (Call.read_payload 3) send_back

abbrev echo_server : Server
echo_server = with_handlers server Errno.other echo

-- A client whose payload has begun to arrive.
abbrev posting : Client
posting = record new_client {
  req_headers = codes "headab";
  ta = record cleared { req_payload = some 4; req_payload_len = 2 };
}

abbrev more : Socket
more = Arrival.bytes (codes "cd") ∷ []

run-RequestOwns_example :
    RequestOwns
      (λ d sk. (kept d ≡ kept posting) × (coming sk ≤ coming more))
      (run server Errno.other (echo 0 none) posting more)
run-RequestOwns_example = run-RequestOwns server Errno.other (echo 0 none) posting more

serve_client-Ends_example : Ends (serve_client (length request + 2) echo_server new_client world)
serve_client-Ends_example =
    serve_client-Ends echo_server (length request + 2) new_client world
      (with_handlers-KeepsRequest server Errno.other echo)
      (omega arith, λ _. (omega arith, omega arith)) (omega arith)
