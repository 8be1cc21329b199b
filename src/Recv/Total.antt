-- ===== src/Recv/Total.antt =====
-- How `kitserv_http_recv_request` of src/http.c returns.
use kitserv.Prelude.{
  ℕ, zero, suc, ◌+◌, ◌-◌, ◌≤◌, ◌<◌, ◌≡◌, refl, ap, ◌∙◌, ◌⊎◌, inl, inr, true, false, Option, none,
  some, [], ◌∷◌, ◌++◌, arith, leb, length, length-append, length-take, Bool-cases,
}
use kitserv.Cstring.{Bytes}
use kitserv.Client.{Client, TransactionState, Rc, http_bufsz, received}
use kitserv.Parser.{Parse}
use kitserv.Parser.Owner.{Place, Owns, place, parse-Owns}
use kitserv.Parser.Bounds.{InBounds, parse-InBounds}
use kitserv.Recv.{
  Arrival, Socket, ReadResult, read, Recv, past_end, index, ReadMore, after_parse, run_parse,
  after_read, recv_loop, recv_request,
}

-- The saved positions of a request that waits for more bytes: every byte received is parsed.
abbrev pub Waiting : Client → Type 0
Waiting c =
    (index c.ta.req_parse_blk ≤ index c.ta.req_parse_iter)
    × (index c.ta.req_parse_iter ≡ length c.req_headers)

-- The payload follows the head in the buffer, up to the last byte received.
abbrev pub Ready : Client → Type 0
Ready c =
    (c.ta.state ≡ TransactionState.serve)
    × (index c.ta.req_payload + c.ta.req_payload_len ≡ length c.req_headers)

-- Behind a success the state is `s` still, or the request is there.
abbrev pub Returns : TransactionState → Recv → Type 0
Returns s none = ⊥
Returns s (some (sk, c, Rc.fail)) = length c.req_headers ≤ http_bufsz
Returns s (some (sk, c, Rc.ok)) =
    (length c.req_headers ≤ http_bufsz) × (((c.ta.state ≡ s) × Waiting c) ⊎ Ready c)

-- A read gives at most what it asked for.
read-le :
    (sk : Socket) (n : ℕ) {b : Bytes} {sk' : Socket}
    → read sk n ≡ (ReadResult.got b, sk')
    → length b ≤ n
unfolding read
read-le sk zero e = ground arith
read-le [] (suc n) e = ground arith
read-le (Arrival.again ∷ sk) (suc n) e = ground arith
read-le (Arrival.error ∷ sk) (suc n) e = ground arith
read-le (Arrival.bytes b ∷ sk) (suc n) e = ground (arith, length-take {0} (suc n) b)

module _ (s : TransactionState) where
  -- The jump back answers, for every client of `l` bytes whose bytes are all parsed.
  abbrev Answers : ReadMore → ℕ → Type 0
  Answers f l =
      (sk : Socket) (c : Client) (p r : ℕ)
      → c.ta.state ≡ s
      → length c.req_headers ≡ l
      → p ≤ r
      → r ≡ l
      → Returns s (f sk c (some p) (some r))

  after_parse-Returns :
      (f : ReadMore) (sk : Socket) (before : Place) (o : Parse)
      → before.1 ≡ s
      → before.2 ≤ http_bufsz
      → Owns before o
      → InBounds before.2 o
      → Answers f before.2
      → Returns s (after_parse f sk o)
  unfolding after_parse
  after_parse-Returns f sk before (Parse.more t p r c) e h o w a =
      a sk _ p r (ap (λ b. b.1) o ∙ e) w.0 w.1 w.2
  after_parse-Returns f sk before (Parse.failed c) e h o w a = omega arith
  after_parse-Returns f sk before (Parse.finished p c) e h o w a =
      (omega arith, inr (refl, omega arith))
  after_parse-Returns f sk before Parse.exhausted e h o w a = w

  run_parse-Returns :
      (f : ReadMore) (sk : Socket) (c : Client) (p r : Option ℕ)
      → c.ta.state ≡ s
      → length c.req_headers ≤ http_bufsz
      → index p ≤ index r
      → index r ≤ length c.req_headers
      → Answers f (length c.req_headers)
      → Returns s (run_parse f sk c p r)
  unfolding run_parse
  run_parse-Returns f sk c p r e h le k a =
      after_parse-Returns f sk (place c) _ e h
        (parse-Owns (place c) c.ta.parse_state c (index p) (index r) refl)
        (parse-InBounds c.ta.parse_state c (index p) (index r) le k) a

  after_read-Returns :
      (f : ReadMore) (res : ReadResult × Socket) (c : Client) (p r : Option ℕ)
      → ((b : Bytes) → res.0 ≡ ReadResult.got b → length c.req_headers + length b ≤ http_bufsz)
      → c.ta.state ≡ s
      → length c.req_headers ≤ http_bufsz
      → index p ≤ index r
      → index r ≤ length c.req_headers
      → (past_end c r ≡ false → Answers f (length c.req_headers))
      → ((l : ℕ) → length c.req_headers < l → l ≤ http_bufsz → Answers f l)
      → Returns s (after_read f res c p r)
  unfolding after_read
  after_read-Returns f (ReadResult.would_block, sk) c p r g e h le k a a' =
      elim (Bool-cases (past_end c r)) [
        | inl stop ↦ rw stop (h, inl (e, (le, at_end c r k stop)))
        | inr go ↦ rw go (run_parse-Returns f sk c p r e h le k (a go))
      ]
    where
      at_end :
          (c : Client) (r : Option ℕ)
          → index r ≤ length c.req_headers
          → past_end c r ≡ true
          → index r ≡ length c.req_headers
      at_end c none k s = absurd (cc)
      at_end c (some i) k s = ground arith
  after_read-Returns f (ReadResult.broken, sk) c p r g e h le k a a' = h
  after_read-Returns f (ReadResult.got [], sk) c p r g e h le k a a' =
      elim (Bool-cases (leb http_bufsz (length c.req_headers))) [
        | inl full ↦ rw full (elim (Bool-cases (past_end c r)) [
          | inl stop ↦ rw stop h
          | inr go ↦ rw go (run_parse-Returns f sk c p r e h le k (a go))
        ])
        | inr room ↦ rw room h
      ]
  after_read-Returns f (ReadResult.got (x ∷ b), sk) c p r g e h le k a a' =
      let whole = length-append {0} c.req_headers (x ∷ b) in
      let fits = g (x ∷ b) refl in
      run_parse-Returns f sk (received c (x ∷ b)) p r e (omega arith) le (omega arith)
        (a' (length (c.req_headers ++ x ∷ b)) (omega arith) (omega arith))

-- What a read gives fits behind the bytes that are there.
read_fits :
    (sk : Socket) (l : ℕ) (b : Bytes)
    → l ≤ http_bufsz
    → (read sk (http_bufsz - l)).0 ≡ ReadResult.got b
    → l + length b ≤ http_bufsz
read_fits sk l b h e =
    omega (
      arith,
      read-le sk (http_bufsz - l) {b = b} {sk' = (read sk (http_bufsz - l)).1} (ground arith),
    )

recv_loop-Answers :
    (s : TransactionState) (fuel l : ℕ)
    → http_bufsz < fuel + l
    → l ≤ http_bufsz
    → Answers s (recv_loop fuel) l
unfolding recv_loop
recv_loop-Answers s zero l f h sk c p r st e le k = absurd (omega arith)
recv_loop-Answers s (suc fuel) l f h sk c p r st e le k =
    after_read-Returns s (recv_loop fuel) (read sk (http_bufsz - length c.req_headers)) c (some p)
      (some r) (λ b g. read_fits sk (length c.req_headers) b (omega arith) g) st (omega arith) le
      (omega arith) (λ go. absurd (ground arith))
      (λ l' lt fits. recv_loop-Answers s fuel l' (omega arith) fits)

-- A client that may be served: at most a full buffer, and saved positions inside it.
abbrev pub IsReceiving : Client → Type 0
IsReceiving c =
    (length c.req_headers ≤ http_bufsz)
    × (index c.ta.req_parse_blk ≤ index c.ta.req_parse_iter)
    × (index c.ta.req_parse_iter ≤ length c.req_headers)

-- For a client with at most a full buffer and its saved positions inside,
-- `kitserv_http_recv_request` always returns, whatever the socket does. It reads no more than the
-- buffer holds, and on success leaves either the state it found and positions from which the next call
-- resumes, with all bytes parsed, or the state SERVE and a payload that is the rest of the buffer.
pub recv_request-Returns :
    (sk : Socket) (c : Client) → IsReceiving c → Returns c.ta.state (recv_request sk c)
unfolding recv_request recv_loop
recv_request-Returns sk c w =
    after_read-Returns c.ta.state (recv_loop 4097) (read sk (http_bufsz - length c.req_headers)) c
      c.ta.req_parse_blk c.ta.req_parse_iter (λ b g. read_fits sk (length c.req_headers) b w.0 g)
      refl w.0 w.1 w.2
      (λ go. recv_loop-Answers c.ta.state 4097 (length c.req_headers) (omega arith) w.0)
      (λ l' lt fits. recv_loop-Answers c.ta.state 4097 l' (omega arith) fits)
