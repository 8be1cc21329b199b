-- ===== src/Serve/Ends.antt =====
-- How `kitserv_http_serve_client` of src/http.c ends, for a server whose handlers keep the request.
use kitserv.Prelude.{
  ℕ, zero, suc, ◌+◌, ◌≤◌, ◌<◌, ◌≡◌, refl, sym, ap, ◌∙◌, inl, inr, true, false, Option, none, some,
  if_both, subst, length, arith,
}
use kitserv.Status.{Status}
use kitserv.Client.{Client, Rc, TransactionState}
use kitserv.Client.Kept.{kept}
use kitserv.Recv.{Socket, recv_request}
use kitserv.Recv.Total.{IsReceiving, Returns, recv_request-Returns}
use kitserv.Recv.Owner.{coming, RecvOwns, recv_request-RecvOwns}
use kitserv.Response.{is_hangup}
use kitserv.Serve.{
  Server, World, Loop, Request, serve_request, same_state, prepare_stage, or_hangup, request_served,
  serve_stage, received_request, read_stage, serve_round, serve_client,
}
use kitserv.Serve.Request.{RequestOwns, RequestOwns-mono, serve_request-Owns}
use kitserv.Serve.Progress.{
  IsServable, Ends, stage_result-Ends, not_read, goes_on, IsBelow, IsBelow-kept, Room, any-Room,
  prepare_stage-Ends, send_stage-Ends, send_file_stage-Ends, done_stage-Ends,
}

-- The handlers leave the socket of the client, the bytes in its buffer and the place of its payload as
-- they are, and what they read of the payload is no longer to come.
abbrev pub KeepsRequest : Server → Type 0
KeepsRequest server =
    (h : ℕ) (c : Client) (state : Option ℕ) (sk : Socket)
    → RequestOwns (λ d sk'. (kept d ≡ kept c) × (coming sk' ≤ coming sk))
        (server.handler h c state sk)

serves : TransactionState.serve ≡ TransactionState.read → ⊥
serves e = ground arith

hung_up : (s : Status) → s ≡ Status.hangup → is_hangup s ≡ false → ⊥
unfolding is_hangup
hung_up s e f = let k : is_hangup s ≡ true = ap is_hangup e in absurd (ground arith)

module _ (n : ℕ) (server : Server) (keeps : KeepsRequest server) (next : Loop)
    (rest : (c : Client) (w : World)
      → c.ta.state ≡ TransactionState.read
      → IsReceiving c
      → length c.req_headers + coming w.socket < n
      → Ends (next c w)) where
  request_served-Ends :
      (w : World) (o : Request) → RequestOwns (IsBelow n) o → Ends (request_served server next w o)
  unfolding same_state
  request_served-Ends w none b = tt
  request_served-Ends w (some (c, sk)) b =
      stage_result-Ends TransactionState.serve (prepare_stage server next) c
        (record w { socket = sk }) tt
        (λ e. (b.0, λ r. absurd (not_read c.ta.state TransactionState.serve refl e r)))
        (λ _. prepare_stage-Ends n server next rest c (record w { socket = sk }) (b.0, inl b))

  handles-IsBelow :
      (h : ℕ) (c : Client) (state : Option ℕ) (sk : Socket)
      → IsBelow n c sk
      → RequestOwns (IsBelow n) (server.handler h c state sk)
  handles-IsBelow h c state sk b =
      RequestOwns-mono (λ d sk'. (kept d ≡ kept c) × (coming sk' ≤ coming sk)) (IsBelow n)
        (server.handler h c state sk)
        (λ d sk' k. let e = IsBelow-kept n c d sk k.0 b in (e.0, omega arith)) (keeps h c state sk)

  serve_stage-Ends :
      (c : Client) (w : World) → IsBelow n c w.socket → Ends (serve_stage server next c w)
  unfolding serve_stage
  serve_stage-Ends c w b = request_served-Ends w (serve_request server w.errno c w.socket) (
      serve_request-Owns server (IsBelow n) (λ c d sk k b. IsBelow-kept n c d sk k b)
        handles-IsBelow w.errno c w.socket b)

  received_request-Ends :
      (fd : ℕ) (w : World) (o : Option (Socket × Client × Rc))
      → Returns TransactionState.read o
      → RecvOwns fd n o
      → Ends (received_request server next w o)
  unfolding or_hangup
  received_request-Ends fd w none r h = r
  received_request-Ends fd w (some (sk, c, Rc.fail)) r h =
      if_both Ends (is_hangup c.ta.resp_status) (λ _. tt)
        (λ e.
          prepare_stage-Ends n server next rest c (record w { socket = sk })
            (r, inr (elim h.1 [ inl s ↦ absurd (hung_up c.ta.resp_status s e) | inr bad ↦ bad ])))
  received_request-Ends fd w (some (sk, c, Rc.ok)) r h =
      stage_result-Ends TransactionState.read (serve_stage server next) c (record w { socket = sk })
        tt
        (λ e. (
          r.0,
          λ s. elim r.1 [
            | inl (t, at_end) ↦ (at_end.0, omega arith)
            | inr (t, at_end) ↦ absurd (serves (sym t ∙ s))
          ],
        ))
        (λ e.
          serve_stage-Ends c (record w { socket = sk })
            (
              r.0,
              elim r.1 [
                | inl (t, at_end) ↦ absurd (goes_on c.ta.state TransactionState.read refl e t)
                | inr (t, at_end) ↦ elim h.2 [
                  | inl s ↦ absurd (goes_on c.ta.state TransactionState.read refl e s)
                  | inr p ↦ omega arith
                ]
              ],
            ))

  serve_round-Ends :
      (s : TransactionState) (c : Client) (w : World)
      → c.ta.state ≡ s
      → IsServable c
      → Room n s (length c.req_headers + coming w.socket)
      → Ends (serve_round server next s c w)
  unfolding serve_round read_stage
  serve_round-Ends TransactionState.read c w s h m =
      received_request-Ends c.sockfd w (recv_request w.socket c)
        (subst (λ t. Returns t (recv_request w.socket c)) s
          (recv_request-Returns w.socket c (h.0, (h.1 s).0, (h.1 s).1)))
        (recv_request-RecvOwns c.sockfd n w.socket c (refl, s, m))
  serve_round-Ends TransactionState.serve c w s h m = serve_stage-Ends c w (h.0, omega arith)
  serve_round-Ends TransactionState.prepare_response c w s h m =
      prepare_stage-Ends n server next rest c w (h.0, inl (h.0, omega arith))
  serve_round-Ends TransactionState.send c w s h m =
      send_stage-Ends n server next rest c w (h.0, inl (h.0, omega arith))
  serve_round-Ends TransactionState.send_file c w s h m =
      send_file_stage-Ends n server next rest c w (h.0, inl (h.0, omega arith))
  serve_round-Ends TransactionState.done c w s h m =
      done_stage-Ends n server next rest c w (h.0, omega arith)

-- In READ every round takes a byte or more.
serve_client_reads :
    (server : Server)
    → KeepsRequest server
    → (fuel : ℕ) (c : Client) (w : World) → c.ta.state ≡ TransactionState.read
    → IsReceiving c
    → length c.req_headers + coming w.socket < fuel
    → Ends (serve_client fuel server c w)
unfolding serve_client
serve_client_reads server keeps zero c w s h m = absurd (omega arith)
serve_client_reads server keeps (suc fuel) c w s h m =
    serve_round-Ends fuel server keeps (serve_client fuel server)
      (serve_client_reads server keeps fuel) c.ta.state c w refl (h.0, λ _. (h.1, h.2))
      (subst (λ t. Room fuel t (length c.req_headers + coming w.socket)) (sym s) (omega arith))

-- `kitserv_http_serve_client` ends, from any state, whatever the files and the results of the system calls
-- are, if the handlers leave the socket of the client, the bytes in its buffer and the place of its payload
-- as they are: two more rounds than there are bytes in the buffer and still to come are enough. It aborts,
-- or it returns -1, or it returns 0 and the connection waits in READ, SERVE, SEND or SEND_FILE, with a
-- buffer and positions from which the next call ends as well.
pub serve_client-Ends :
    (server : Server) (fuel : ℕ) (c : Client) (w : World)
    → KeepsRequest server
    → IsServable c
    → length c.req_headers + coming w.socket + 1 < fuel
    → Ends (serve_client fuel server c w)
unfolding serve_client
serve_client-Ends server zero c w keeps h m = absurd (omega arith)
serve_client-Ends server (suc fuel) c w keeps h m =
    serve_round-Ends fuel server keeps (serve_client fuel server)
      (serve_client_reads server keeps fuel) c.ta.state c w refl h
      (any-Room fuel c.ta.state (length c.req_headers + coming w.socket) (omega arith))
