-- ===== src/Send/Stops.antt =====
-- The states in which the sending functions of src/http.c stop.
use kitserv.Prelude.{
  ◌≡◌, refl, ◌∙◌, ◌⊎◌, inl, inr, true, not, ◌&&◌, List, [], ◌∷◌, min, ltb, if_both,
}
use kitserv.Prelude.Int.{ℤ, pos, size_t, ltb_ℤ, leb_ℤ}
use kitserv.Status.{status_is_error}
use kitserv.Client.{Client, Iovec, Rc, TransactionState}
use kitserv.Send.{
  IoResult, advance, total, resp_bufs, set_bufs, send_loop, send_response, close_fd_to_zero,
  move_pos, left, sendfile_loop, finish, is_head, not_finished, after_sendfile, send_response_file,
}

set_bufs-state : (c : Client) (bufs : List Iovec) → (set_bufs c bufs).ta.state ≡ c.ta.state
set_bufs-state c [] = refl
set_bufs-state c (a ∷ []) = refl
set_bufs-state c (a ∷ b ∷ []) = refl
set_bufs-state c (a ∷ b ∷ d ∷ []) = refl
set_bufs-state c (a ∷ b ∷ d ∷ x ∷ bs) = refl

-- The state is the one of the response, or the one of the file.
abbrev pub StaysOrMoves : Client × Rc → Type 0
StaysOrMoves r =
    (r.0.ta.state ≡ TransactionState.send) ⊎ (r.0.ta.state ≡ TransactionState.send_file)

pub send_response-StaysOrMoves :
    (c : Client) (io : List IoResult)
    → c.ta.state ≡ TransactionState.send
    → StaysOrMoves (send_response c io)
unfolding send_response send_loop
send_response-StaysOrMoves c [] e = inl e
send_response-StaysOrMoves c (IoResult.would_block ∷ io) e = inl e
send_response-StaysOrMoves c (IoResult.broken ∷ io) e = inl e
send_response-StaysOrMoves c (IoResult.moved n ∷ io) e =
    let moved = advance (min n (total (resp_bufs c))) (resp_bufs c) in
    if_both StaysOrMoves moved.1 (λ _. inr refl)
      (λ _. send_response-StaysOrMoves (set_bufs c moved.0) io (set_bufs-state c moved.0 ∙ e))

-- The call fails, or it blocks.
abbrev pub FailsOrBlocks : Client × Rc → Type 0
FailsOrBlocks (c, Rc.fail) = Unit
FailsOrBlocks (c, Rc.ok) = c.ta.state ≡ TransactionState.send_file

-- A client whose response is an error, in the state in which the file is sent.
abbrev pub SendsError : Client → Type 0
SendsError c = (status_is_error c.ta.resp_status ≡ true) × (c.ta.state ≡ TransactionState.send_file)

finish-FailsOrBlocks : (c : Client) → SendsError c → FailsOrBlocks (finish c)
unfolding finish
finish-FailsOrBlocks c e = rw e.0 tt

close_fd_to_zero-SendsError : (c : Client) → SendsError c → SendsError (close_fd_to_zero c).0
unfolding close_fd_to_zero
close_fd_to_zero-SendsError c e =
    if_both (λ (r : Client × List ℤ). SendsError r.0) (ltb_ℤ (pos 0) c.ta.resp_fd) (λ _. e) (λ _. e)

not_finished-FailsOrBlocks :
    (c : Client) (rc : IoResult) → SendsError c → FailsOrBlocks (not_finished c rc)
unfolding not_finished
not_finished-FailsOrBlocks c IoResult.would_block e = e.1
not_finished-FailsOrBlocks c IoResult.broken e = tt
not_finished-FailsOrBlocks c (IoResult.moved n) e = finish-FailsOrBlocks c e

after_sendfile-FailsOrBlocks :
    (r : Client × IoResult) → SendsError r.0 → FailsOrBlocks (after_sendfile r).0
unfolding after_sendfile
after_sendfile-FailsOrBlocks (c, rc) e =
    if_both (λ (r : (Client × Rc) × List ℤ). FailsOrBlocks r.0)
      (ltb_ℤ c.ta.resp_body_end c.ta.resp_body_pos)
      (λ _. finish-FailsOrBlocks (close_fd_to_zero c).0 (close_fd_to_zero-SendsError c e))
      (λ _. not_finished-FailsOrBlocks c rc e)

sendfile_loop-SendsError :
    (c : Client) (io : List IoResult) → SendsError c → SendsError (sendfile_loop c io).0
unfolding sendfile_loop
sendfile_loop-SendsError c [] e = e
sendfile_loop-SendsError c (IoResult.would_block ∷ io) e = e
sendfile_loop-SendsError c (IoResult.broken ∷ io) e = e
sendfile_loop-SendsError c (IoResult.moved n ∷ io) e =
    let rc = min n (size_t (left c)) in
    let d = move_pos c rc in
    if_both (λ (r : Client × IoResult). SendsError r.0)
      (ltb 0 rc && leb_ℤ d.ta.resp_body_pos d.ta.resp_body_end)
      (λ _. sendfile_loop-SendsError d io e) (λ _. e)

-- Behind an error response the connection ends, unless the socket blocks.
pub send_response_file-FailsOrBlocks :
    (c : Client) (io : List IoResult) → SendsError c → FailsOrBlocks (send_response_file c io).0
unfolding send_response_file
send_response_file-FailsOrBlocks c io e =
    if_both (λ (r : (Client × Rc) × List ℤ). FailsOrBlocks r.0)
      (ltb_ℤ (pos 0) c.ta.resp_fd && not (is_head c.ta.req_method))
      (λ _. after_sendfile-FailsOrBlocks (sendfile_loop c io) (sendfile_loop-SendsError c io e))
      (λ _. finish-FailsOrBlocks c e)
