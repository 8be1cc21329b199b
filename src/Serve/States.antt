-- ===== src/Serve/States.antt =====
-- The states in which `kitserv_http_serve_client` of src/http.c waits.
use kitserv.Prelude.{◌-◌, ◌&&◌, leb, ◌≡◌, ◌≢◌, refl, true, Option, none, some, if_both, arith}
use kitserv.Client.{http_bufsz, Client, Rc, TransactionState}
use kitserv.Recv.{Socket, recv_request}
use kitserv.Recv.Total.{IsReceiving, Returns, recv_request-Returns}
use kitserv.Send.{set_state, send_response, send_response_file}
use kitserv.Response.{prepare_response, is_hangup}
use kitserv.Response.State.{Sends, MaySend, prepare_response-MaySend}
use kitserv.Finalize.{cleanup_client, finalize_transaction}
use kitserv.Serve.{
  finalized, Server, World, Served, Loop, Request, serve_request, same_state, stage_result,
  done_stage, send_file_stage, send_stage, prepared, prepare_stage, or_hangup, request_served,
  serve_stage, received_request, read_stage, serve_round, head_of, tail_of,
}

-- A state in which the connection waits for the socket or for an endpoint.
abbrev pub IsWaiting : TransactionState → Type 0
IsWaiting TransactionState.read = Unit
IsWaiting TransactionState.serve = Unit
IsWaiting TransactionState.send = Unit
IsWaiting TransactionState.send_file = Unit
IsWaiting TransactionState.prepare_response = ⊥
IsWaiting TransactionState.done = ⊥

-- Behind 0 the connection waits.
abbrev pub Waits : Served → Type 0
Waits (Served.served c w Rc.ok) = IsWaiting c.ta.state
Waits (Served.served c w Rc.fail) = Unit
Waits Served.aborted = Unit
Waits Served.exhausted = ⊥

pub same_state-IsWaiting :
    (s t : TransactionState) → IsWaiting t → same_state s t ≡ true → IsWaiting s
unfolding same_state
same_state-IsWaiting TransactionState.read t w h = tt
same_state-IsWaiting TransactionState.serve t w h = tt
same_state-IsWaiting TransactionState.send t w h = tt
same_state-IsWaiting TransactionState.send_file t w h = tt
same_state-IsWaiting TransactionState.prepare_response TransactionState.read w h = ground arith
same_state-IsWaiting TransactionState.prepare_response TransactionState.serve w h = ground arith
same_state-IsWaiting TransactionState.prepare_response TransactionState.send w h = ground arith
same_state-IsWaiting TransactionState.prepare_response TransactionState.send_file w h = ground arith
same_state-IsWaiting TransactionState.prepare_response TransactionState.prepare_response w h = w
same_state-IsWaiting TransactionState.prepare_response TransactionState.done w h = w
same_state-IsWaiting TransactionState.done TransactionState.read w h = ground arith
same_state-IsWaiting TransactionState.done TransactionState.serve w h = ground arith
same_state-IsWaiting TransactionState.done TransactionState.send w h = ground arith
same_state-IsWaiting TransactionState.done TransactionState.send_file w h = ground arith
same_state-IsWaiting TransactionState.done TransactionState.prepare_response w h = w
same_state-IsWaiting TransactionState.done TransactionState.done w h = w

stage_result-Waits :
    (wait : TransactionState) (next : Loop) (r : Client × Rc) (w : World)
    → IsWaiting wait
    → ((c : Client) → Waits (next c w))
    → Waits (stage_result wait next r w)
unfolding stage_result
stage_result-Waits wait next (c, Rc.fail) w h k = tt
stage_result-Waits wait next (c, Rc.ok) w h k =
    if_both Waits (same_state c.ta.state wait) (λ e. same_state-IsWaiting c.ta.state wait h e)
      (λ _. k c)

pub not_prepare :
    (s : TransactionState)
    → s ≡ TransactionState.send
    → same_state s TransactionState.prepare_response ≢ true
unfolding same_state
not_prepare TransactionState.prepare_response e h = ground arith
not_prepare TransactionState.read e h = ground arith
not_prepare TransactionState.serve e h = ground arith
not_prepare TransactionState.send e h = ground arith
not_prepare TransactionState.send_file e h = ground arith
not_prepare TransactionState.done e h = ground arith

-- A stage that does not wait, behind which the state is another one.
prepared_lem :
    (next : Loop) (r : Client × Rc) (w : World)
    → Sends r
    → ((c : Client) → Waits (next c w))
    → Waits (stage_result TransactionState.prepare_response next r w)
unfolding stage_result
prepared_lem next (c, Rc.fail) w h k = tt
prepared_lem next (c, Rc.ok) w h k =
    if_both Waits (same_state c.ta.state TransactionState.prepare_response)
      (λ e. absurd (not_prepare c.ta.state h e)) (λ _. k c)

module _ (server : Server) (next : Loop)
    (rest : (c : Client) (w : World) → c.ta.state ≡ TransactionState.read → Waits (next c w)) where
  done_stage-Waits : (c : Client) (w : World) → Waits (done_stage server next c w)
  unfolding done_stage finalize_transaction cleanup_client
  done_stage-Waits c w =
      if_both (λ o. Waits (finalized next w o))
        (leb c.ta.req_payload_pos c.ta.req_payload_len
          && leb (c.ta.req_payload_len - c.ta.req_payload_pos) http_bufsz)
        (λ _. rest _ w refl) (λ _. tt)

  send_file_stage-Waits : (c : Client) (w : World) → Waits (send_file_stage server next c w)
  unfolding send_file_stage
  send_file_stage-Waits c w =
      stage_result-Waits TransactionState.send_file (done_stage server next)
        (send_response_file c (head_of w.files)).0 (record w { files = tail_of w.files }) tt
        (λ d. done_stage-Waits d (record w { files = tail_of w.files }))

  send_stage-Waits : (c : Client) (w : World) → Waits (send_stage server next c w)
  unfolding send_stage
  send_stage-Waits c w =
      stage_result-Waits TransactionState.send (send_file_stage server next)
        (send_response c (head_of w.writes)) (record w { writes = tail_of w.writes }) tt
        (λ d. send_file_stage-Waits d (record w { writes = tail_of w.writes }))

  prepared-Waits :
      (w : World) (o : Option (Client × Rc)) → MaySend o → Waits (prepared server next w o)
  prepared-Waits w none h = tt
  prepared-Waits w (some r) h =
      prepared_lem (send_stage server next) r w h (λ d. send_stage-Waits d w)

  prepare_stage-Waits : (c : Client) (w : World) → Waits (prepare_stage server next c w)
  unfolding prepare_stage
  prepare_stage-Waits c w =
      prepared-Waits w
        (prepare_response server.realloc (set_state c TransactionState.prepare_response))
        (prepare_response-MaySend server.realloc (set_state c TransactionState.prepare_response))

  request_served-Waits : (w : World) (o : Request) → Waits (request_served server next w o)
  request_served-Waits w none = tt
  request_served-Waits w (some (c, sk)) =
      stage_result-Waits TransactionState.serve (prepare_stage server next) (c, Rc.ok)
        (record w { socket = sk }) tt (λ d. prepare_stage-Waits d (record w { socket = sk }))

  serve_stage-Waits : (c : Client) (w : World) → Waits (serve_stage server next c w)
  unfolding serve_stage
  serve_stage-Waits c w = request_served-Waits w (serve_request server w.errno c w.socket)

  received_request-Waits :
      (s : TransactionState) (w : World) (o : Option (Socket × Client × Rc))
      → Returns s o
      → Waits (received_request server next w o)
  unfolding or_hangup
  received_request-Waits s w none r = r
  received_request-Waits s w (some (sk, c, Rc.fail)) r =
      if_both Waits (is_hangup c.ta.resp_status) (λ _. tt)
        (λ _. prepare_stage-Waits c (record w { socket = sk }))
  received_request-Waits s w (some (sk, c, Rc.ok)) r =
      stage_result-Waits TransactionState.read (serve_stage server next) (c, Rc.ok)
        (record w { socket = sk }) tt (λ d. serve_stage-Waits d (record w { socket = sk }))

  from_state :
      (s : TransactionState) (c : Client) (w : World)
      → (s ≡ TransactionState.read → IsReceiving c)
      → Waits (serve_round server next s c w)
  unfolding serve_round read_stage
  from_state TransactionState.read c w h =
      received_request-Waits c.ta.state w (recv_request w.socket c)
        (recv_request-Returns w.socket c (h refl))
  from_state TransactionState.serve c w h = serve_stage-Waits c w
  from_state TransactionState.prepare_response c w h = prepare_stage-Waits c w
  from_state TransactionState.send c w h = send_stage-Waits c w
  from_state TransactionState.send_file c w h = send_file_stage-Waits c w
  from_state TransactionState.done c w h = done_stage-Waits c w

  -- One round of the loop of `kitserv_http_serve_client`, from any state (in READ, with the buffer and the
  -- positions of a request that is received), whatever the handlers, the files and the results of the
  -- system calls are. It aborts, or it returns -1, or it returns 0 and the connection waits in READ,
  -- SERVE, SEND or SEND_FILE, never between two stages, or it goes on with the next transaction in READ:
  -- so it ends this way if the next round does.
  pub serve_round-Waits :
      (c : Client) (w : World)
      → (c.ta.state ≡ TransactionState.read → IsReceiving c)
      → Waits (serve_round server next c.ta.state c w)
  serve_round-Waits c w = from_state c.ta.state c w
