-- ===== src/Recv/Owner.antt =====
-- What `kitserv_http_recv_request` of src/http.c keeps of the client, and what it takes from the socket.
use kitserv.Prelude.{
  ℕ, zero, suc, ◌+◌, ◌-◌, ◌≤◌, ◌<◌, ◌≡◌, refl, ap, ◌∙◌, ◌⊎◌, inl, inr, true, Option, none, some, [],
  ◌∷◌, arith, leb, length, length-take, length-drop, length-append, if_both,
}
use kitserv.Status.{Status, status_is_error}
use kitserv.Client.{Client, Rc, TransactionState, http_bufsz, received}
use kitserv.Parser.{Parse}
use kitserv.Parser.Owner.{Owns, place, parse-Owns}
use kitserv.Recv.{
  Arrival, Socket, ReadResult, Recv, ReadMore, read, past_end, index, after_parse, run_parse,
  after_read, recv_loop, recv_request,
}

-- How many bytes are still to come.
abbrev pub coming : Socket → ℕ
coming [] = 0
coming (Arrival.again ∷ sk) = coming sk
coming (Arrival.error ∷ sk) = coming sk
coming (Arrival.bytes b ∷ sk) = length b + coming sk

abbrev pub bytes_of : ReadResult → ℕ
bytes_of (ReadResult.got b) = length b
bytes_of ReadResult.would_block = 0
bytes_of ReadResult.broken = 0

-- The bytes that a read gives come from the socket.
pub read-coming : (sk : Socket) (n : ℕ) → bytes_of (read sk n).0 + coming (read sk n).1 ≡ coming sk
unfolding read
read-coming sk zero = omega arith
read-coming [] (suc n) = omega arith
read-coming (Arrival.again ∷ sk) (suc n) = omega arith
read-coming (Arrival.error ∷ sk) (suc n) = omega arith
read-coming (Arrival.bytes b ∷ sk) (suc n) =
    if_both (λ (r : ReadResult × Socket). bytes_of r.0 + coming r.1 ≡ length b + coming sk)
      (leb (length b) (suc n)) (λ _. omega arith)
      (λ _. omega (arith, length-take (suc n) b, length-drop (suc n) b))

-- A client of the socket `fd` behind a failure, or one that waits for more, or one whose payload does
-- not begin at the start of the buffer; it and the socket hold at most `n` bytes.
module _ (fd n : ℕ) where
  abbrev pub RecvOwns : Recv → Type 0
  RecvOwns none = Unit
  RecvOwns (some (sk, c, Rc.fail)) =
      (c.sockfd ≡ fd)
      × ((c.ta.resp_status ≡ Status.hangup) ⊎ (status_is_error c.ta.resp_status ≡ true))
  RecvOwns (some (sk, c, Rc.ok)) =
      (c.sockfd ≡ fd)
      × (length c.req_headers + coming sk ≤ n)
      × ((c.ta.state ≡ TransactionState.read) ⊎ (0 < index c.ta.req_payload))

  -- A client that receives.
  abbrev pub IsReading : Client → Socket → Type 0
  IsReading c sk =
      (c.sockfd ≡ fd)
      × (c.ta.state ≡ TransactionState.read)
      × (length c.req_headers + coming sk ≤ n)

  abbrev MoreOwns : ReadMore → Type 0
  MoreOwns f = (sk : Socket) (c : Client) (p r : Option ℕ) → IsReading c sk → RecvOwns (f sk c p r)

  module _ (f : ReadMore) (all : MoreOwns f) where
    after_parse-RecvOwns :
        (sk : Socket) (c : Client) (o : Parse)
        → IsReading c sk
        → Owns (place c) o
        → RecvOwns (after_parse f sk o)
    unfolding after_parse
    after_parse-RecvOwns sk c (Parse.more s p r d) e h =
        all sk _ (some p) (some r)
          (ap (λ t. t.0) h ∙ e.0, ap (λ t. t.1) h ∙ e.1, omega (arith, ap (λ t. t.2) h, e.2))
    after_parse-RecvOwns sk c (Parse.failed d) e h = (ap (λ t. t.0) h.0 ∙ e.0, inr h.1)
    after_parse-RecvOwns sk c (Parse.finished p d) e h =
        (ap (λ t. t.0) h.0 ∙ e.0, omega (arith, ap (λ t. t.2) h.0, e.2), inr h.1)
    after_parse-RecvOwns sk c Parse.exhausted e h = tt

    run_parse-RecvOwns :
        (sk : Socket) (c : Client) (p r : Option ℕ)
        → IsReading c sk
        → RecvOwns (run_parse f sk c p r)
    unfolding run_parse
    run_parse-RecvOwns sk c p r e =
        after_parse-RecvOwns sk c _ e
          (parse-Owns (place c) c.ta.parse_state c (index p) (index r) refl)

    after_read-RecvOwns :
        (res : ReadResult × Socket) (c : Client) (p r : Option ℕ)
        → c.sockfd ≡ fd
        → c.ta.state ≡ TransactionState.read
        → length c.req_headers + (bytes_of res.0 + coming res.1) ≤ n
        → RecvOwns (after_read f res c p r)
    unfolding after_read status_is_error
    after_read-RecvOwns (ReadResult.would_block, sk) c p r e s h =
        if_both RecvOwns (past_end c r) (λ _. (e, omega arith, inl s))
          (λ _. run_parse-RecvOwns sk c p r (e, s, omega arith))
    after_read-RecvOwns (ReadResult.broken, sk) c p r e s h = (e, inl refl)
    after_read-RecvOwns (ReadResult.got [], sk) c p r e s h =
        if_both RecvOwns (leb http_bufsz (length c.req_headers))
          (λ _.
            if_both RecvOwns (past_end c r) (λ _. (e, inr refl))
              (λ _. run_parse-RecvOwns sk c p r (e, s, omega arith)))
          (λ _. (e, inl refl))
    after_read-RecvOwns (ReadResult.got (x ∷ b), sk) c p r e s h =
        run_parse-RecvOwns sk (received c (x ∷ b)) p r
          (e, s, omega (arith, length-append c.req_headers (x ∷ b)))

  recv_loop-RecvOwns : (fuel : ℕ) → MoreOwns (recv_loop fuel)
  unfolding recv_loop
  recv_loop-RecvOwns zero sk c p r e = tt
  recv_loop-RecvOwns (suc fuel) sk c p r e =
      after_read-RecvOwns (recv_loop fuel) (recv_loop-RecvOwns fuel)
        (read sk (http_bufsz - length c.req_headers)) c p r e.0 e.1
        (omega (arith, e.2, read-coming sk (http_bufsz - length c.req_headers)))

  pub recv_request-RecvOwns :
      (sk : Socket) (c : Client) → IsReading c sk → RecvOwns (recv_request sk c)
  unfolding recv_request
  recv_request-RecvOwns sk c e = recv_loop-RecvOwns _ sk c c.ta.req_parse_blk c.ta.req_parse_iter e
