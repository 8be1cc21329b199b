-- ===== src/Send.antt =====
-- Sending in src/http.c: `kitserv_http_send_response` and `kitserv_http_send_response_file`. What the
-- system calls return is a list, the parameter of the model.
pub mod Writev
pub mod File
pub mod Owner
pub mod Stops
pub mod Complete
use kitserv.Prelude.{
  ℕ, zero, suc, ◌+◌, ◌-◌, Bool, true, false, not, ◌&&◌, ◌||◌, Option, none, some, List, [], ◌∷◌,
  leb, ltb, ◌==◌, min, if◌then◌else◌,
}
use kitserv.Prelude.Int.{ℤ, pos, negsuc, size_t, ◌+ℤ◌, ◌-ℤ◌, ltb_ℤ, leb_ℤ}
use kitserv.Status.{Status, status_is_error}
use kitserv.Client.{Client, Iovec, HttpVersion, Method, TransactionState, Rc}

-- A result of `writev` or `sendfile`: a count, -1 with EAGAIN, or -1 with another error.
pub data IoResult : Type 0 where
  moved : ℕ → IoResult
  would_block : IoResult
  broken : IoResult

-- `for (i = 0; i < 3; i++)`: every base that is reached moves by `rc`, which stays what it is. The
-- flag says that the loop reached its end.
unfoldable pub advance : ℕ → List Iovec → List Iovec × Bool
advance rc [] = ([], true)
advance rc (b ∷ bs) =
    let emptied = record b { iov_base = b.iov_base + rc; iov_len = 0 } in
    let moved = record b { iov_base = b.iov_base + rc; iov_len = b.iov_len - rc } in
    let rest = advance rc bs in
    if leb b.iov_len rc then (emptied ∷ rest.0, rest.1) else (moved ∷ bs, false)

abbrev pub total : List Iovec → ℕ
total [] = 0
total (b ∷ bs) = b.iov_len + total bs

abbrev pub resp_bufs : Client → List Iovec
resp_bufs c = c.ta.resp_buf0 ∷ c.ta.resp_buf1 ∷ c.ta.resp_buf2 ∷ []

abbrev pub set_bufs : Client → List Iovec → Client
set_bufs c (a ∷ b ∷ d ∷ []) = record c {
  ta = record c.ta { resp_buf0 = a; resp_buf1 = b; resp_buf2 = d };
}
set_bufs c _ = c

abbrev pub set_state : Client → TransactionState → Client
set_state c s = record c { ta = record c.ta { state = s } }

-- `while (1)`. `writev` moves no more than there is. The test of an error assigns to `errno` where it
-- means to compare, so its value is 0 for every error. When the list ends the socket blocks.
unfoldable pub send_loop : Client → List IoResult → Client × Rc
send_loop c [] = (c, Rc.ok)
send_loop c (IoResult.would_block ∷ io) = (c, Rc.ok)
send_loop c (IoResult.broken ∷ io) = (c, Rc.ok)
send_loop c (IoResult.moved n ∷ io) =
    let (bufs, ended) = advance (min n (total (resp_bufs c))) (resp_bufs c) in
    let c' = set_bufs c bufs in
    let rest = send_loop c' io in
    if ended then (set_state c' TransactionState.send_file, Rc.ok) else rest

unfoldable pub send_response : Client → List IoResult → Client × Rc
unfolding send_loop
send_response c io = send_loop c io

-- `close_fd_to_zero`, with the descriptors that are closed.
unfoldable pub close_fd_to_zero : Client → Client × List ℤ
close_fd_to_zero c =
    if ltb_ℤ (pos 0) c.ta.resp_fd
    then (record c { ta = record c.ta { resp_fd = pos 0 } }, c.ta.resp_fd ∷ [])
    else (c, [])

abbrev pub move_pos : Client → ℕ → Client
move_pos c n = record c { ta = record c.ta { resp_body_pos = c.ta.resp_body_pos +ℤ pos n } }

-- `resp_body_end - resp_body_pos + 1`
abbrev pub left : Client → ℤ
left c = c.ta.resp_body_end -ℤ c.ta.resp_body_pos +ℤ pos 1

-- The last result of `sendfile`, with the client. `sendfile` moves no more than it is asked for; a
-- negative count is a huge one. 0 is the end of the file.
unfoldable pub sendfile_loop : Client → List IoResult → Client × IoResult
sendfile_loop c [] = (c, IoResult.would_block)
sendfile_loop c (IoResult.would_block ∷ io) = (c, IoResult.would_block)
sendfile_loop c (IoResult.broken ∷ io) = (c, IoResult.broken)
sendfile_loop c (IoResult.moved n ∷ io) =
    let rc = min n (size_t (left c)) in
    let c' = move_pos c rc in
    let rest = sendfile_loop c' io in
    if ltb 0 rc && leb_ℤ c'.ta.resp_body_pos c'.ta.resp_body_end
    then rest
    else (c', IoResult.moved rc)

-- A connection of HTTP/1.0 is not kept.
unfoldable pub keep_alive : HttpVersion → Rc
keep_alive HttpVersion.http_1_0 = Rc.fail
keep_alive HttpVersion.http_1_1 = Rc.ok

-- The lines behind the loop: the state, and whether the connection stays.
unfoldable pub finish : Client → Client × Rc
unfolding keep_alive
finish c = (
  set_state c TransactionState.done,
  if status_is_error c.ta.resp_status then Rc.fail else keep_alive c.ta.req_version,
)

unfoldable pub is_head : Method → Bool
is_head Method.head = true
is_head _ = false

-- `rc < 0` behind the loop.
unfoldable pub not_finished : Client → IoResult → Client × Rc
unfolding finish
not_finished c IoResult.would_block = (c, Rc.ok)
not_finished c IoResult.broken = (c, Rc.fail)
not_finished c (IoResult.moved n) = finish c

-- The loop's client and last result.
unfoldable pub after_sendfile : Client × IoResult → (Client × Rc) × List ℤ
unfolding not_finished close_fd_to_zero
after_sendfile (c, rc) =
    if ltb_ℤ c.ta.resp_body_end c.ta.resp_body_pos
    then (finish (close_fd_to_zero c).0, (close_fd_to_zero c).1)
    else (not_finished c rc, [])

-- `kitserv_http_send_response_file`, with the descriptors that it closes.
unfoldable pub send_response_file : Client → List IoResult → (Client × Rc) × List ℤ
unfolding after_sendfile is_head
send_response_file c io =
    if ltb_ℤ (pos 0) c.ta.resp_fd && not (is_head c.ta.req_method)
    then after_sendfile (sendfile_loop c io)
    else (finish c, [])
