-- ===== src/Serve/Progress.antt =====
-- The stages behind the request in `kitserv_http_serve_client` of src/http.c: from an error to its end,
-- and from a response to the next transaction.
use kitserv.Prelude.{
  ◌&&◌, leb, ℕ, ◌+◌, ◌-◌, ◌≤◌, ◌<◌, ◌≡◌, refl, sym, ap, ◌∙◌, ◌⊎◌, inl, inr, true, false, Option,
  none, some, if_both, length, drop, length-take, length-drop, arith,
}
use kitserv.Status.{status_is_error}
use kitserv.Client.{Client, Rc, TransactionState, http_bufsz}
use kitserv.Client.Kept.{kept, kept_status}
use kitserv.Recv.{Socket, index}
use kitserv.Recv.Total.{IsReceiving}
use kitserv.Recv.Owner.{coming}
use kitserv.Send.{set_state, send_response, send_response_file}
use kitserv.Send.Owner.{send_response-kept_status, send_response_file-kept_status}
use kitserv.Send.Stops.{
  StaysOrMoves, send_response-StaysOrMoves, FailsOrBlocks, send_response_file-FailsOrBlocks,
}
use kitserv.Response.{prepare_response}
use kitserv.Response.Owner.{MayOwn, prepare_response-MayOwn}
use kitserv.Response.State.{MaySend, prepare_response-MaySend}
use kitserv.Finalize.{cleanup_client, finalize_transaction}
use kitserv.Serve.{
  finalized, Server, World, Served, Loop, same_state, stage_result, done_stage, send_file_stage,
  send_stage, prepared, prepare_stage, head_of, tail_of,
}
use kitserv.Serve.States.{IsWaiting, same_state-IsWaiting, not_prepare}

-- The buffer holds what it can hold, and in READ the saved positions are inside.
abbrev pub IsServable : Client → Type 0
IsServable c =
    (length c.req_headers ≤ http_bufsz)
    × (c.ta.state ≡ TransactionState.read
        → (index c.ta.req_parse_blk ≤ index c.ta.req_parse_iter)
          × (index c.ta.req_parse_iter ≤ length c.req_headers))

-- What a call that ends leaves: behind 0 a client that waits, and that can be served again.
abbrev pub Ends : Served → Type 0
Ends (Served.served c w Rc.ok) = IsWaiting c.ta.state × IsServable c
Ends (Served.served c w Rc.fail) = Unit
Ends Served.aborted = Unit
Ends Served.exhausted = ⊥

pub stage_result-Ends :
    (wait : TransactionState) (next : Loop) (c : Client) (w : World)
    → IsWaiting wait
    → (same_state c.ta.state wait ≡ true → IsServable c)
    → (same_state c.ta.state wait ≡ false → Ends (next c w))
    → Ends (stage_result wait next (c, Rc.ok) w)
unfolding stage_result
stage_result-Ends wait next c w h s k =
    if_both Ends (same_state c.ta.state wait) (λ e. (same_state-IsWaiting c.ta.state wait h e, s e))
      k

pub not_read :
    (s wait : TransactionState)
    → same_state TransactionState.read wait ≡ false
    → same_state s wait ≡ true
    → s ≡ TransactionState.read
    → ⊥
not_read s wait f e r =
    let k : same_state TransactionState.read wait ≡ true =
      ap (λ t. same_state t wait) (sym r) ∙ e in
    absurd (ground arith)

-- The state is not the one that waits.
pub goes_on :
    (s wait : TransactionState)
    → same_state wait wait ≡ true
    → same_state s wait ≡ false
    → s ≡ wait
    → ⊥
goes_on s wait t f e =
    let k : same_state s wait ≡ true = ap (λ u. same_state u wait) e ∙ t in absurd (ground arith)

module _ (n : ℕ) where
  abbrev pub Fits : Client → Type 0
  Fits c = length c.req_headers ≤ http_bufsz

  -- What is behind the head of the request, and still to come, is less than `n` bytes.
  abbrev pub IsBelow : Client → Socket → Type 0
  IsBelow c sk = Fits c × (length c.req_headers - index c.ta.req_payload + coming sk < n)

  Fits-kept : (c d : Client) → kept d ≡ kept c → Fits c → Fits d
  Fits-kept c d k h = let bytes = ap (λ t. t.1) k in omega arith

  pub IsBelow-kept : (c d : Client) (sk : Socket) → kept d ≡ kept c → IsBelow c sk → IsBelow d sk
  IsBelow-kept c d sk k h =
      let bytes = ap (λ t. t.1) k in
      let payload = ap (λ t. index t.2) k in (omega arith, omega arith)

  -- In READ the head is still to be taken.
  abbrev pub Room : TransactionState → ℕ → Type 0
  Room TransactionState.read m = m ≤ n
  Room _ m = m < n

  pub any-Room : (s : TransactionState) (m : ℕ) → m < n → Room s m
  any-Room TransactionState.read m h = omega arith
  any-Room TransactionState.serve m h = h
  any-Room TransactionState.prepare_response m h = h
  any-Room TransactionState.send m h = h
  any-Room TransactionState.send_file m h = h
  any-Room TransactionState.done m h = h

  -- Or the response is an error, and the transaction is in its stage.
  abbrev pub Goes : TransactionState → Client → Socket → Type 0
  Goes s c sk =
      Fits c × (IsBelow c sk ⊎ ((status_is_error c.ta.resp_status ≡ true) × (c.ta.state ≡ s)))

  module _ (server : Server) (next : Loop)
      (rest : (c : Client) (w : World)
        → c.ta.state ≡ TransactionState.read
        → IsReceiving c
        → length c.req_headers + coming w.socket < n
        → Ends (next c w)) where
    pub done_stage-Ends :
        (c : Client) (w : World) → IsBelow c w.socket → Ends (done_stage server next c w)
    unfolding done_stage finalize_transaction cleanup_client
    done_stage-Ends c w h =
        let room = c.ta.req_payload_len - c.ta.req_payload_pos in
        let from = index c.ta.req_payload + c.ta.req_payload_pos in
        let cut = length-take room (drop from c.req_headers) in
        let dropped = length-drop from c.req_headers in
        if_both (λ o. Ends (finalized next w o))
          (leb c.ta.req_payload_pos c.ta.req_payload_len
            && leb (c.ta.req_payload_len - c.ta.req_payload_pos) http_bufsz)
          (λ _. rest _ w refl (omega arith, omega arith, omega arith) (omega arith)) (λ _. tt)

    after_file-Ends :
        (r : Client × Rc) (w : World)
        → Fits r.0
        → IsBelow r.0 w.socket ⊎ FailsOrBlocks r
        → Ends (stage_result TransactionState.send_file (done_stage server next) r w)
    unfolding stage_result
    after_file-Ends (c, Rc.fail) w f h = tt
    after_file-Ends (c, Rc.ok) w f h =
        stage_result-Ends TransactionState.send_file (done_stage server next) c w tt
          (λ e. (f, λ r. absurd (not_read c.ta.state TransactionState.send_file refl e r)))
          (λ e. elim h [
            | inl b ↦ done_stage-Ends c w b
            | inr s ↦ absurd (goes_on c.ta.state TransactionState.send_file refl e s)
          ])

    pub send_file_stage-Ends :
        (c : Client) (w : World)
        → Goes TransactionState.send_file c w.socket
        → Ends (send_file_stage server next c w)
    unfolding send_file_stage
    send_file_stage-Ends c w g =
        let io = head_of w.files in
        let r = (send_response_file c io).0 in
        let k = ap (λ t. t.0) (send_response_file-kept_status (kept_status c) c io refl) in
        after_file-Ends r (record w { files = tail_of w.files }) (Fits-kept c r.0 k g.0)
          (elim g.1 [
            | inl b ↦ inl (IsBelow-kept c r.0 w.socket k b)
            | inr e ↦ inr (send_response_file-FailsOrBlocks c io e)
          ])

    after_send-Ends :
        (r : Client × Rc) (w : World)
        → Fits r.0
        → IsBelow r.0 w.socket ⊎ ((status_is_error r.0.ta.resp_status ≡ true) × StaysOrMoves r)
        → Ends (stage_result TransactionState.send (send_file_stage server next) r w)
    unfolding stage_result
    after_send-Ends (c, Rc.fail) w f h = tt
    after_send-Ends (c, Rc.ok) w f h =
        stage_result-Ends TransactionState.send (send_file_stage server next) c w tt
          (λ e. (f, λ r. absurd (not_read c.ta.state TransactionState.send refl e r)))
          (λ e. send_file_stage-Ends c w (
            f,
            elim h [
              | inl b ↦ inl b
              | inr (bad, inl s) ↦ absurd (goes_on c.ta.state TransactionState.send refl e s)
              | inr (bad, inr s) ↦ inr (bad, s)
            ],
          ))

    pub send_stage-Ends :
        (c : Client) (w : World)
        → Goes TransactionState.send c w.socket
        → Ends (send_stage server next c w)
    unfolding send_stage
    send_stage-Ends c w g =
        let io = head_of w.writes in
        let r = send_response c io in
        let same = send_response-kept_status (kept_status c) c io refl in
        let k = ap (λ t. t.0) same in
        after_send-Ends r (record w { writes = tail_of w.writes }) (Fits-kept c r.0 k g.0)
          (elim g.1 [
            | inl b ↦ inl (IsBelow-kept c r.0 w.socket k b)
            | inr (bad, s) ↦
                inr (ap (λ t. status_is_error t.1) same ∙ bad, send_response-StaysOrMoves c io s)
          ])

    -- A client that goes to the stage that prepares its response.
    abbrev pub IsPrepared : Client → Socket → Type 0
    IsPrepared c sk = Fits c × (IsBelow c sk ⊎ (status_is_error c.ta.resp_status ≡ true))

    prepared-Ends :
        (c : Client) (w : World) (o : Option (Client × Rc))
        → IsPrepared c w.socket
        → MayOwn (kept c) (status_is_error c.ta.resp_status) o
        → MaySend o
        → Ends (prepared server next w o)
    unfolding stage_result
    prepared-Ends c w none g h s = tt
    prepared-Ends c w (some (d, Rc.fail)) g h s = tt
    prepared-Ends c w (some (d, Rc.ok)) g h s =
        if_both Ends (same_state d.ta.state TransactionState.prepare_response)
          (λ e. absurd (not_prepare d.ta.state s e))
          (λ _. send_stage-Ends d w (
            Fits-kept c d h.0 g.0,
            elim g.1 [ inl b ↦ inl (IsBelow-kept c d w.socket h.0 b) | inr bad ↦ inr (h.1 bad, s) ],
          ))

    pub prepare_stage-Ends :
        (c : Client) (w : World) → IsPrepared c w.socket → Ends (prepare_stage server next c w)
    unfolding prepare_stage
    prepare_stage-Ends c w g =
        let d = set_state c TransactionState.prepare_response in
        prepared-Ends d w (prepare_response server.realloc d) g
          (prepare_response-MayOwn (kept d) (status_is_error d.ta.resp_status) server.realloc d
            (refl, λ b. b))
          (prepare_response-MaySend server.realloc d)
