-- ===== src/Send/Complete.antt =====
-- `kitserv_http_send_response_file` of src/http.c while `sendfile` makes progress.
use kitserv.Prelude.{
  ℕ, suc, ◌+◌, ◌-◌, ◌≤◌, ◌<◌, ◌≡◌, refl, ap, ◌∙◌, inl, inr, ◌&&◌, List, [], ◌∷◌, arith, length, ltb,
  min, Bool-cases,
}
use kitserv.Prelude.Int.{ℤ, pos, size_t, ◌+ℤ◌, leb_ℤ}
use kitserv.Client.{Client, TransactionState, Method}
use kitserv.Send.{
  IoResult, sendfile_loop, send_response_file, after_sendfile, left, move_pos, finish,
  close_fd_to_zero,
}
use kitserv.Send.File.{left_lem, pos-add, with_body, sends_file}

-- Every result is a count, and not 0.
abbrev pub AllMove : List IoResult → Type 0
AllMove [] = Unit
AllMove (IoResult.moved n ∷ io) = (0 < n) × AllMove io
AllMove (IoResult.would_block ∷ io) = ⊥
AllMove (IoResult.broken ∷ io) = ⊥

-- The offset is past the end, and the descriptor is there still.
abbrev AllSent : ℕ → ℤ → Client × IoResult → Type 0
AllSent b fd r =
    (r.0.ta.resp_body_pos ≡ pos (b + 1)) × (r.0.ta.resp_body_end ≡ pos b) × (r.0.ta.resp_fd ≡ fd)

sendfile_loop-AllSent :
    (c : Client) (io : List IoResult) (a b : ℕ)
    → c.ta.resp_body_pos ≡ pos a
    → c.ta.resp_body_end ≡ pos b
    → a ≤ b
    → AllMove io
    → b + 1 - a ≤ length io
    → AllSent b c.ta.resp_fd (sendfile_loop c io)
unfolding sendfile_loop
sendfile_loop-AllSent c [] a b e f h m l = absurd (omega arith)
sendfile_loop-AllSent c (IoResult.would_block ∷ io) a b e f h m l = absurd m
sendfile_loop-AllSent c (IoResult.broken ∷ io) a b e f h m l = absurd m
sendfile_loop-AllSent c (IoResult.moved n ∷ io) a b e f h m l =
    let k = min n (size_t (left c)) in
    let room : k ≡ min n (b + 1 - a) =
      omega (arith, ap size_t (left_lem c a b e f (omega arith))) in
    let c' = move_pos c k in
    let e' : c'.ta.resp_body_pos ≡ pos (a + k) = ap (λ z. z +ℤ pos k) e ∙ pos-add a k in
    elim (Bool-cases (ltb 0 k && leb_ℤ c'.ta.resp_body_pos c'.ta.resp_body_end)) [
      | inl on ↦
          let below : a + k ≤ b = ground (arith, e', f) in
          rw on (sendfile_loop-AllSent c' io (a + k) b e' f below m.1 (omega arith))
      | inr off ↦
          let past : a + k ≡ b + 1 = ground (arith, e', f) in rw off (e' ∙ ap pos past, f, refl)
    ]

after_sendfile_all :
    (r : Client × IoResult) (b fd : ℕ)
    → AllSent b (pos (suc fd)) r
    → ((after_sendfile r).0.0.ta.state ≡ TransactionState.done)
      × ((after_sendfile r).0.0.ta.resp_body_pos ≡ pos (b + 1))
      × ((after_sendfile r).0.0.ta.resp_fd ≡ pos 0)
      × ((after_sendfile r).1 ≡ pos (suc fd) ∷ [])
unfolding after_sendfile finish close_fd_to_zero
after_sendfile_all (c, rc) b fd (e, f, d) = ground (arith, e, f, d)

-- For a GET with a range of an open file that is not yet sent: if each result of `sendfile` moves a byte or
-- more, then as many results as there are bytes in the range are enough for the whole range to be sent.
-- Then the transaction is done, and the descriptor is closed, once.
pub send_response_file_completes :
    (c : Client) (io : List IoResult) (fd a b : ℕ)
    → c.ta.resp_fd ≡ pos (suc fd)
    → c.ta.req_method ≡ Method.get
    → c.ta.resp_body_pos ≡ pos a
    → c.ta.resp_body_end ≡ pos b
    → a ≤ b
    → AllMove io
    → b + 1 - a ≤ length io
    → let (res, closed) = send_response_file c io in
      (res.0.ta.state ≡ TransactionState.done)
      × (res.0.ta.resp_body_pos ≡ pos (b + 1))
      × (res.0.ta.resp_fd ≡ pos 0)
      × (closed ≡ pos (suc fd) ∷ [])
send_response_file_completes c io fd a b d g e f h m l =
    let (p, q, r) = sendfile_loop-AllSent c io a b e f h m l in
    rw (sends_file c io (with_body c fd d g))
      (after_sendfile_all (sendfile_loop c io) b fd (p, q, r ∙ d))
