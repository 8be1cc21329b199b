-- ===== src/Send/Owner.antt =====
-- The socket of the client in the sending functions of src/http.c.
use kitserv.Prelude.{◌≡◌, refl, ap, ◌∙◌, not, ◌&&◌, List, [], ◌∷◌, min, ltb, if_both}
use kitserv.Prelude.Int.{ℤ, pos, size_t, ltb_ℤ, leb_ℤ}
use kitserv.Status.{Status}
use kitserv.Client.Kept.{Kept, kept, kept_status}
use kitserv.Client.{Client, Iovec, Rc}
use kitserv.Send.{
  IoResult, advance, total, resp_bufs, set_bufs, send_loop, send_response, close_fd_to_zero,
  move_pos, left, sendfile_loop, finish, is_head, not_finished, after_sendfile, send_response_file,
}

set_bufs-kept_status :
    (c : Client) (bufs : List Iovec) → kept_status (set_bufs c bufs) ≡ kept_status c
set_bufs-kept_status c [] = refl
set_bufs-kept_status c (a ∷ []) = refl
set_bufs-kept_status c (a ∷ b ∷ []) = refl
set_bufs-kept_status c (a ∷ b ∷ d ∷ []) = refl
set_bufs-kept_status c (a ∷ b ∷ d ∷ x ∷ bs) = refl

module _ (before : Kept × Status) where
  abbrev ResultOwns : Client × Rc → Type 0
  ResultOwns r = kept_status r.0 ≡ before

  pub send_response-kept_status :
      (c : Client) (io : List IoResult)
      → kept_status c ≡ before
      → kept_status (send_response c io).0 ≡ before
  unfolding send_response send_loop
  send_response-kept_status c [] e = e
  send_response-kept_status c (IoResult.would_block ∷ io) e = e
  send_response-kept_status c (IoResult.broken ∷ io) e = e
  send_response-kept_status c (IoResult.moved n ∷ io) e =
      let moved = advance (min n (total (resp_bufs c))) (resp_bufs c) in
      let same = set_bufs-kept_status c moved.0 ∙ e in
      if_both ResultOwns moved.1 (λ _. same)
        (λ _. send_response-kept_status (set_bufs c moved.0) io same)

  pub close_fd_to_zero-kept_status :
      (c : Client) → kept_status c ≡ before → kept_status (close_fd_to_zero c).0 ≡ before
  unfolding close_fd_to_zero
  close_fd_to_zero-kept_status c e =
      if_both (λ (r : Client × List ℤ). kept_status r.0 ≡ before) (ltb_ℤ (pos 0) c.ta.resp_fd)
        (λ _. e) (λ _. e)

  sendfile_loop-kept_status :
      (c : Client) (io : List IoResult)
      → kept_status c ≡ before
      → kept_status (sendfile_loop c io).0 ≡ before
  unfolding sendfile_loop
  sendfile_loop-kept_status c [] e = e
  sendfile_loop-kept_status c (IoResult.would_block ∷ io) e = e
  sendfile_loop-kept_status c (IoResult.broken ∷ io) e = e
  sendfile_loop-kept_status c (IoResult.moved n ∷ io) e =
      let rc = min n (size_t (left c)) in
      let d = move_pos c rc in
      if_both (λ (r : Client × IoResult). kept_status r.0 ≡ before)
        (ltb 0 rc && leb_ℤ d.ta.resp_body_pos d.ta.resp_body_end)
        (λ _. sendfile_loop-kept_status d io e) (λ _. e)

  not_finished-kept_status :
      (c : Client) (rc : IoResult)
      → kept_status c ≡ before
      → kept_status (not_finished c rc).0 ≡ before
  unfolding not_finished finish
  not_finished-kept_status c IoResult.would_block e = e
  not_finished-kept_status c IoResult.broken e = e
  not_finished-kept_status c (IoResult.moved n) e = e

  after_sendfile-kept_status :
      (r : Client × IoResult)
      → kept_status r.0 ≡ before
      → kept_status (after_sendfile r).0.0 ≡ before
  unfolding after_sendfile finish
  after_sendfile-kept_status (c, rc) e =
      if_both (λ (r : (Client × Rc) × List ℤ). kept_status r.0.0 ≡ before)
        (ltb_ℤ c.ta.resp_body_end c.ta.resp_body_pos) (λ _. close_fd_to_zero-kept_status c e)
        (λ _. not_finished-kept_status c rc e)

  pub send_response_file-kept_status :
      (c : Client) (io : List IoResult)
      → kept_status c ≡ before
      → kept_status (send_response_file c io).0.0 ≡ before
  unfolding send_response_file finish
  send_response_file-kept_status c io e =
      if_both (λ (r : (Client × Rc) × List ℤ). kept_status r.0.0 ≡ before)
        (ltb_ℤ (pos 0) c.ta.resp_fd && not (is_head c.ta.req_method))
        (λ _. after_sendfile-kept_status (sendfile_loop c io) (sendfile_loop-kept_status c io e))
        (λ _. e)

pub close_fd_to_zero-kept :
    (before : Kept) (c : Client) → kept c ≡ before → kept (close_fd_to_zero c).0 ≡ before
close_fd_to_zero-kept before c e =
    ap (λ t. t.0) (close_fd_to_zero-kept_status (kept_status c) c refl) ∙ e
