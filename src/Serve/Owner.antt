-- ===== src/Serve/Owner.antt =====
-- The socket of the client in `kitserv_http_serve_client` of src/http.c.
use kitserv.Prelude.{
  ◌-◌, ◌&&◌, leb, ap, ◌+◌, length, arith, false, ℕ, zero, suc, ◌≡◌, refl, ◌∙◌, Option, none, some,
  if_both, subst,
}
use kitserv.Client.{http_bufsz, Client, Rc, TransactionState}
use kitserv.Recv.{Socket, recv_request}
use kitserv.Recv.Owner.{coming, RecvOwns, recv_request-RecvOwns}
use kitserv.Send.{set_state, send_response, send_response_file}
use kitserv.Client.Kept.{kept, kept_status}
use kitserv.Send.Owner.{send_response-kept_status, send_response_file-kept_status}
use kitserv.Serve.Request.{RequestOwns, RequestOwns-mono, serve_request-Owns}
use kitserv.Response.{prepare_response, is_hangup}
use kitserv.Response.Owner.{MayOwn, prepare_response-MayOwn}
use kitserv.Finalize.{cleanup_client, finalize_transaction}
use kitserv.Serve.{
  finalized, Server, World, Served, Loop, Request, serve_request, same_state, stage_result,
  done_stage, send_file_stage, send_stage, prepared, prepare_stage, or_hangup, request_served,
  serve_stage, received_request, read_stage, serve_round, serve_client, head_of, tail_of,
}

-- No handler changes the socket: a client is opaque to the handlers, and src/api.c has no function that
-- sets it.
abbrev pub KeepsSocket : Server → Type 0
KeepsSocket server =
    (h : ℕ) (c : Client) (state : Option ℕ) (sk : Socket)
    → RequestOwns (λ d sk'. d.sockfd ≡ c.sockfd) (server.handler h c state sk)

module _ (fd : ℕ) (server : Server) (keeps : KeepsSocket server) where
  -- The client has the socket.
  abbrev IsOwner : Client → Socket → Type 0
  IsOwner c sk = c.sockfd ≡ fd

  same : (c d : Client) (sk : Socket) → kept d ≡ kept c → IsOwner c sk → IsOwner d sk
  same c d sk k e = ap (λ t. t.0) k ∙ e

  handles :
      (h : ℕ) (c : Client) (state : Option ℕ) (sk : Socket)
      → IsOwner c sk
      → RequestOwns IsOwner (server.handler h c state sk)
  handles h c state sk e =
      RequestOwns-mono (λ d sk'. d.sockfd ≡ c.sockfd) IsOwner (server.handler h c state sk)
        (λ d sk' k. k ∙ e) (keeps h c state sk)

  abbrev pub ServedOwns : Served → Type 0
  ServedOwns (Served.served c w rc) = c.sockfd ≡ fd
  ServedOwns Served.aborted = Unit
  ServedOwns Served.exhausted = Unit

  abbrev LoopOwns : Loop → Type 0
  LoopOwns next = (c : Client) (w : World) → c.sockfd ≡ fd → ServedOwns (next c w)

  stage_result-Owns :
      (wait : TransactionState) (next : Loop) (r : Client × Rc) (w : World)
      → LoopOwns next
      → r.0.sockfd ≡ fd
      → ServedOwns (stage_result wait next r w)
  unfolding stage_result
  stage_result-Owns wait next (c, Rc.fail) w k e = e
  stage_result-Owns wait next (c, Rc.ok) w k e =
      if_both ServedOwns (same_state c.ta.state wait) (λ _. e) (λ _. k c w e)

  module _ (next : Loop) (rest : LoopOwns next) where
    done_stage-Owns : LoopOwns (done_stage server next)
    unfolding done_stage finalize_transaction cleanup_client
    done_stage-Owns c w e =
        if_both (λ o. ServedOwns (finalized next w o))
          (leb c.ta.req_payload_pos c.ta.req_payload_len
            && leb (c.ta.req_payload_len - c.ta.req_payload_pos) http_bufsz)
          (λ _. rest _ w e) (λ _. tt)

    send_file_stage-Owns : LoopOwns (send_file_stage server next)
    unfolding send_file_stage
    send_file_stage-Owns c w e =
        stage_result-Owns TransactionState.send_file (done_stage server next)
          (send_response_file c (head_of w.files)).0 (record w { files = tail_of w.files })
          done_stage-Owns
          (ap (λ t. t.0.0) (send_response_file-kept_status (kept_status c) c (head_of w.files) refl)
            ∙ e)

    send_stage-Owns : LoopOwns (send_stage server next)
    unfolding send_stage
    send_stage-Owns c w e =
        stage_result-Owns TransactionState.send (send_file_stage server next)
          (send_response c (head_of w.writes)) (record w { writes = tail_of w.writes })
          send_file_stage-Owns
          (ap (λ t. t.0.0) (send_response-kept_status (kept_status c) c (head_of w.writes) refl)
            ∙ e)

    prepared-Owns :
        (c : Client) (w : World) (o : Option (Client × Rc))
        → c.sockfd ≡ fd
        → MayOwn (kept c) false o
        → ServedOwns (prepared server next w o)
    prepared-Owns c w none e h = tt
    prepared-Owns c w (some r) e h =
        stage_result-Owns TransactionState.prepare_response (send_stage server next) r w
          send_stage-Owns (ap (λ t. t.0) h.0 ∙ e)

    prepare_stage-Owns : LoopOwns (prepare_stage server next)
    unfolding prepare_stage
    prepare_stage-Owns c w e =
        let d = set_state c TransactionState.prepare_response in
        prepared-Owns d w (prepare_response server.realloc d) e (
          prepare_response-MayOwn (kept d) false server.realloc d
            (refl, λ b. absurd (ground arith)))

    request_served-Owns :
        (w : World) (o : Request)
        → RequestOwns IsOwner o
        → ServedOwns (request_served server next w o)
    request_served-Owns w none e = tt
    request_served-Owns w (some (c, sk)) e =
        stage_result-Owns TransactionState.serve (prepare_stage server next) (c, Rc.ok)
          (record w { socket = sk }) prepare_stage-Owns e

    serve_stage-Owns : LoopOwns (serve_stage server next)
    unfolding serve_stage
    serve_stage-Owns c w e =
        request_served-Owns w (serve_request server w.errno c w.socket)
          (serve_request-Owns server IsOwner same handles w.errno c w.socket e)

    received_request-Owns :
        (n : ℕ) (w : World) (o : Option (Socket × Client × Rc))
        → RecvOwns fd n o
        → ServedOwns (received_request server next w o)
    unfolding or_hangup
    received_request-Owns n w none e = tt
    received_request-Owns n w (some (sk, c, Rc.fail)) e =
        if_both ServedOwns (is_hangup c.ta.resp_status) (λ _. e.0)
          (λ _. prepare_stage-Owns c (record w { socket = sk }) e.0)
    received_request-Owns n w (some (sk, c, Rc.ok)) e =
        stage_result-Owns TransactionState.read (serve_stage server next) (c, Rc.ok)
          (record w { socket = sk }) serve_stage-Owns e.0

    serve_round-Owns :
        (s : TransactionState) (c : Client) (w : World)
        → c.ta.state ≡ s
        → c.sockfd ≡ fd
        → ServedOwns (serve_round server next s c w)
    unfolding serve_round read_stage
    serve_round-Owns TransactionState.read c w s e =
        let n = length c.req_headers + coming w.socket in
        received_request-Owns n w (recv_request w.socket c)
          (recv_request-RecvOwns fd n w.socket c (e, s, omega arith))
    serve_round-Owns TransactionState.serve c w s e = serve_stage-Owns c w e
    serve_round-Owns TransactionState.prepare_response c w s e = prepare_stage-Owns c w e
    serve_round-Owns TransactionState.send c w s e = send_stage-Owns c w e
    serve_round-Owns TransactionState.send_file c w s e = send_file_stage-Owns c w e
    serve_round-Owns TransactionState.done c w s e = done_stage-Owns c w e

  serve_client-Owns : (fuel : ℕ) → LoopOwns (serve_client fuel server)
  unfolding serve_client
  serve_client-Owns zero c w e = tt
  serve_client-Owns (suc fuel) c w e =
      serve_round-Owns (serve_client fuel server) (serve_client-Owns fuel) c.ta.state c w refl e

-- What serving a client returns has the socket of the client.
pub serve_client-sockfd :
    (fuel : ℕ) (server : Server) (c : Client) (w : World) {d : Client} {w' : World} {rc : Rc}
    → KeepsSocket server
    → serve_client fuel server c w ≡ Served.served d w' rc
    → d.sockfd ≡ c.sockfd
serve_client-sockfd fuel server c w {d} {w'} {rc} keeps e =
    subst (ServedOwns c.sockfd server keeps) e
      (serve_client-Owns c.sockfd server keeps fuel c w refl)
