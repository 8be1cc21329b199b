-- ===== src/Send/File.antt =====
-- What `kitserv_http_send_response_file` of src/http.c sends.
use kitserv.Prelude.{
  ℕ, suc, ◌+◌, ◌-◌, ◌≤◌, ◌≡◌, refl, ap, ◌∙◌, ◌⊎◌, inl, inr, true, not, ◌&&◌, List, [], ◌∷◌, arith,
  ltb, min, Bool-cases,
}
use kitserv.Prelude.Int.{ℤ, pos, size_t, ◌+ℤ◌, ◌-ℤ◌, ltb_ℤ, leb_ℤ}
use kitserv.Client.{Client, TransactionState, Method, Rc}
use kitserv.Send.{
  IoResult, sendfile_loop, send_response_file, after_sendfile, is_head, left, move_pos,
}

pub left_lem :
    (c : Client) (a b : ℕ)
    → c.ta.resp_body_pos ≡ pos a
    → c.ta.resp_body_end ≡ pos b
    → a ≤ b + 1
    → left c ≡ pos (b + 1 - a)
unfolding ◌+ℤ◌ ◌-ℤ◌
left_lem c a b e f h = rw (e, f) (ground arith)

pub pos-add : (a k : ℕ) → pos a +ℤ pos k ≡ pos (a + k)
unfolding ◌+ℤ◌
pos-add a k = ground arith

-- The offset never passes the end of the range, and never goes back.
sendfile_loop-bounds :
    (c : Client) (io : List IoResult) (a b : ℕ)
    → c.ta.resp_body_pos ≡ pos a
    → c.ta.resp_body_end ≡ pos b
    → a ≤ b + 1
    → (n : ℕ) × ((sendfile_loop c io).0.ta.resp_body_pos ≡ pos n)
      × (a ≤ n)
      × (n ≤ b + 1)
      × ((sendfile_loop c io).0.ta.resp_body_end ≡ pos b)
      × ((sendfile_loop c io).0.ta.resp_fd ≡ c.ta.resp_fd)
unfolding sendfile_loop
sendfile_loop-bounds c [] a b e f h = (a, e, omega arith, h, f, refl)
sendfile_loop-bounds c (IoResult.would_block ∷ io) a b e f h = (a, e, omega arith, h, f, refl)
sendfile_loop-bounds c (IoResult.broken ∷ io) a b e f h = (a, e, omega arith, h, f, refl)
sendfile_loop-bounds c (IoResult.moved n ∷ io) a b e f h =
    let k = min n (size_t (left c)) in
    let room : k ≤ b + 1 - a = omega (arith, ap size_t (left_lem c a b e f h)) in
    let c' = move_pos c k in
    let e' : c'.ta.resp_body_pos ≡ pos (a + k) = ap (λ z. z +ℤ pos k) e ∙ pos-add a k in
    let (m, p, lo, hi, q, r) = sendfile_loop-bounds c' io (a + k) b e' f (omega arith) in
    elim (Bool-cases (ltb 0 k && leb_ℤ c'.ta.resp_body_pos c'.ta.resp_body_end)) [
      | inl on ↦ rw on (m, p, omega arith, hi, q, r)
      | inr off ↦ rw off (a + k, e', omega arith, omega arith, f, refl)
    ]

-- What is left behind: the whole range sent and the descriptor closed, or neither.
abbrev pub Left : ℕ → ℕ → ℕ → (Client × Rc) × List ℤ → Type 0
Left n b fd (res, closed) =
    (res.0.ta.resp_body_pos ≡ pos n)
    × (((n ≡ b + 1)
          × (closed ≡ pos (suc fd) ∷ [])
          × (res.0.ta.resp_fd ≡ pos 0)
          × (res.0.ta.state ≡ TransactionState.done))
        ⊎ ((n ≤ b) × (closed ≡ []) × (res.0.ta.resp_fd ≡ pos (suc fd))))

after_sendfile-Left :
    (c : Client) (rc : IoResult) (n b fd : ℕ)
    → c.ta.resp_body_pos ≡ pos n
    → c.ta.resp_body_end ≡ pos b
    → c.ta.resp_fd ≡ pos (suc fd)
    → n ≤ b + 1
    → Left n b fd (after_sendfile (c, rc))
unfolding after_sendfile
after_sendfile-Left c IoResult.would_block n b fd e f d h = ground arith
after_sendfile-Left c rc n b fd e f d h = ground arith

pub with_body :
    (c : Client) (fd : ℕ)
    → c.ta.resp_fd ≡ pos (suc fd)
    → c.ta.req_method ≡ Method.get
    → (ltb_ℤ (pos 0) c.ta.resp_fd && not (is_head c.ta.req_method)) ≡ true
unfolding is_head
with_body c fd d g = rw (d, g) (ground arith)

pub sends_file :
    (c : Client) (io : List IoResult)
    → (ltb_ℤ (pos 0) c.ta.resp_fd && not (is_head c.ta.req_method)) ≡ true
    → send_response_file c io ≡ after_sendfile (sendfile_loop c io)
unfolding send_response_file
sends_file c io t = rw t refl

-- For a GET whose range of an open file begins no later than one past its end: at any results of
-- `sendfile` the offset does not go back and stays in the range, so nothing past its end is sent.
-- The descriptor is closed exactly when the whole range has gone.
pub send_response_file_bounds :
    (c : Client) (io : List IoResult) (fd a b : ℕ)
    → c.ta.resp_fd ≡ pos (suc fd)
    → c.ta.req_method ≡ Method.get
    → c.ta.resp_body_pos ≡ pos a
    → c.ta.resp_body_end ≡ pos b
    → a ≤ b + 1
    → (n : ℕ) × (a ≤ n) × (n ≤ b + 1) × Left n b fd (send_response_file c io)
send_response_file_bounds c io fd a b d g e f h =
    let (n, p, lo, hi, q, r) = sendfile_loop-bounds c io a b e f h in
    let run = sendfile_loop c io in
    (
      n,
      lo,
      hi,
      rw (sends_file c io (with_body c fd d g))
          (after_sendfile-Left run.0 run.1 n b fd p q (r ∙ d) hi),
    )

-- The flaw, for a GET with a range of an open file that is not yet sent: when `sendfile` finds the
-- end of the file, the transaction is over although the rest of the range was not sent, and the
-- descriptor is left open.
pub send_response_file_leak :
    (c : Client) (io : List IoResult) (fd a b : ℕ)
    → c.ta.resp_fd ≡ pos (suc fd)
    → c.ta.req_method ≡ Method.get
    → c.ta.resp_body_pos ≡ pos a
    → c.ta.resp_body_end ≡ pos b
    → a ≤ b
    → let (res, closed) = send_response_file c (IoResult.moved 0 ∷ io) in
      (res.0.ta.state ≡ TransactionState.done) × (closed ≡ []) × (res.0.ta.resp_body_pos ≡ pos a)
unfolding send_response_file sendfile_loop ◌+ℤ◌
send_response_file_leak c io fd a b d g e f h = ground arith
