-- ===== src/Recv.antt =====
-- `kitserv_http_recv_request` of src/http.c: the `read_more` loop round the parser. The socket is a
-- parameter of the model: the list of what its reads will give.
pub mod Total
pub mod Owner
use kitserv.Prelude.{
  ℕ, zero, suc, ◌+◌, ◌-◌, Bool, true, false, Option, none, some, List, [], ◌∷◌, ◌++◌, leb,
  if◌then◌else◌, length, take, drop,
}
use kitserv.Cstring.{Bytes}
use kitserv.Status.{Status}
use kitserv.Client.{Client, ParseState, TransactionState, Rc, http_bufsz, with_status, received}
use kitserv.Parser.{Parse, parse, parse_past_end}

-- One arrival at the socket; an empty one is the end of the stream.
pub data Arrival : Type 0 where
  bytes : Bytes → Arrival
  again : Arrival
  error : Arrival

abbrev pub Socket : Type 0
Socket = List Arrival

-- `read`: the bytes, or -1 with EAGAIN, or -1 with another error.
pub data ReadResult : Type 0 where
  got : Bytes → ReadResult
  would_block : ReadResult
  broken : ReadResult

-- A read of 0 bytes gives 0 bytes. One that is shorter than what has arrived leaves the rest. An
-- idle socket blocks.
unfoldable pub read : Socket → ℕ → ReadResult × Socket
read sk zero = (ReadResult.got [], sk)
read [] (suc n) = (ReadResult.would_block, [])
read (Arrival.again ∷ sk) (suc n) = (ReadResult.would_block, sk)
read (Arrival.error ∷ sk) (suc n) = (ReadResult.broken, sk)
read (Arrival.bytes b ∷ sk) (suc n) =
    if leb (length b) (suc n)
    then (ReadResult.got b, sk)
    else (ReadResult.got (take (suc n) b), Arrival.bytes (drop (suc n) b) ∷ sk)

-- What the function leaves: the socket, the client and the return code; `none` if the fuel ran out.
abbrev pub Recv : Type 0
Recv = Option (Socket × Client × Rc)

-- `parse_past_end(r)`. The NULL of a new transaction is not past the end.
abbrev pub past_end : Client → Option ℕ → Bool
past_end c none = false
past_end c (some r) = parse_past_end c r

abbrev pub index : Option ℕ → ℕ
index none = 0
index (some i) = i

abbrev set_parse_state : Client → ParseState → Client
set_parse_state c s = record c { ta = record c.ta { parse_state = s } }

-- The assignments behind the switch.
abbrev accept : Client → ℕ → Client
accept c p = record c {
  ta = record c.ta {
    req_payload = some p;
    req_payload_len = length c.req_headers - p;
    state = TransactionState.serve;
  };
}

abbrev save : Client → Option ℕ → Option ℕ → Client
save c p r = record c { ta = record c.ta { req_parse_blk = p; req_parse_iter = r } }

abbrev pub ReadMore : Type 0
ReadMore = Socket → Client → Option ℕ → Option ℕ → Recv

-- What follows the switch; `next` is the jump back to `read_more`.
unfoldable pub after_parse : ReadMore → Socket → Parse → Recv
after_parse next sk (Parse.more s p r c) = next sk (set_parse_state c s) (some p) (some r)
after_parse next sk (Parse.failed c) = some (sk, c, Rc.fail)
after_parse next sk (Parse.finished p c) = some (sk, accept c p, Rc.ok)
after_parse next sk Parse.exhausted = none

unfoldable pub run_parse : ReadMore → Socket → Client → Option ℕ → Option ℕ → Recv
unfolding after_parse
run_parse next sk c p r = after_parse next sk (parse c.ta.parse_state c (index p) (index r))

-- The six cases of `readrc`.
unfoldable pub after_read : ReadMore → ReadResult × Socket → Client → Option ℕ → Option ℕ → Recv
unfolding run_parse
after_read next (ReadResult.would_block, sk) c p r =
    if past_end c r then some (sk, save c p r, Rc.ok) else run_parse next sk c p r
after_read next (ReadResult.broken, sk) c p r = some (sk, with_status c Status.hangup, Rc.fail)
after_read next (ReadResult.got [], sk) c p r =
    if leb http_bufsz (length c.req_headers)
    then (if past_end c r
        then some (sk, with_status c Status.header_fields_too_large, Rc.fail)
        else run_parse next sk c p r)
    else some (sk, with_status c Status.hangup, Rc.fail)
after_read next (ReadResult.got (x ∷ b), sk) c p r = run_parse next sk (received c (x ∷ b)) p r

unfoldable pub recv_loop : ℕ → ReadMore
recv_loop zero sk c p r = none
recv_loop (suc fuel) sk c p r =
    after_read (recv_loop fuel) (read sk (http_bufsz - length c.req_headers)) c p r

-- Every round but the first reads a byte, and the last reads none.
unfoldable pub recv_request : Socket → Client → Recv
recv_request sk c = recv_loop (http_bufsz + 2) sk c c.ta.req_parse_blk c.ta.req_parse_iter
