-- ===== src/Send/Writev.antt =====
-- What `kitserv_http_send_response` of src/http.c counts as sent.
use kitserv.Prelude.{
  ℕ, ◌+◌, ◌-◌, ◌≤◌, ◌<◌, ◌≡◌, refl, inl, inr, true, false, List, [], ◌∷◌, arith, min, Bool-cases,
}
use kitserv.Client.{Client, Iovec, TransactionState, Rc}
use kitserv.Send.{IoResult, advance, total, resp_bufs, set_bufs, send_response}

-- At most what was not sent remains: no byte is counted as unsent twice.
pub total-advance-le : (rc : ℕ) (bs : List Iovec) → total (advance rc bs).0 ≤ total bs - rc
unfolding advance
total-advance-le rc [] = omega arith
total-advance-le rc (b ∷ bs) = ground (arith, total-advance-le rc bs)

-- Every buffer is no longer than `rc`.
abbrev pub AllWithin : ℕ → List Iovec → Type 0
AllWithin rc [] = Unit
AllWithin rc (b ∷ bs) = (b.iov_len ≤ rc) × AllWithin rc bs

AllWithin-total : (rc : ℕ) (bs : List Iovec) → total bs ≤ rc → AllWithin rc bs
AllWithin-total rc [] h = tt
AllWithin-total rc (b ∷ bs) h = (omega arith, AllWithin-total rc bs (omega arith))

advance_all :
    (rc : ℕ) (bs : List Iovec)
    → AllWithin rc bs
    → ((advance rc bs).1 ≡ true) × (total (advance rc bs).0 ≡ 0)
unfolding advance
advance_all rc [] h = (refl, refl)
advance_all rc (b ∷ bs) h = ground (arith, advance_all rc bs h.1)

-- The count is exact in two cases: a write that ends inside the first buffer, which leaves the loop
-- there, and one of all the bytes, which ends it.
pub advance_exact :
    (rc : ℕ) (b : Iovec) (bs : List Iovec)
    → (rc < b.iov_len
        → (total (advance rc (b ∷ bs)).0 ≡ total (b ∷ bs) - rc) × ((advance rc (b ∷ bs)).1 ≡ false))
      × (rc ≡ total (b ∷ bs)
          → (total (advance rc (b ∷ bs)).0 ≡ 0) × ((advance rc (b ∷ bs)).1 ≡ true))
unfolding advance
advance_exact rc b bs = (
  λ h. ground arith,
  λ h. ground (arith, advance_all rc bs (AllWithin-total rc bs (omega arith))),
)

-- The flaw: a write that ends behind a first buffer that is not empty, but short of the end, loses
-- bytes. `rc` is taken off every buffer that it reaches, so fewer remain than were not sent.
pub advance_loses :
    (rc : ℕ) (b : Iovec) (bs : List Iovec)
    → 0 < b.iov_len
    → b.iov_len ≤ rc
    → rc < total (b ∷ bs)
    → total (advance rc (b ∷ bs)).0 + rc < total (b ∷ bs)
unfolding advance
advance_loses rc b bs p h k = ground (arith, total-advance-le rc bs)

-- A first write of the whole response moves the transaction on to the file, and succeeds.
pub send_response_whole :
    (c : Client) (io : List IoResult)
    → ((send_response c (IoResult.moved (total (resp_bufs c)) ∷ io)).1 ≡ Rc.ok)
      × ((send_response c (IoResult.moved (total (resp_bufs c)) ∷ io)).0.ta.state
          ≡ TransactionState.send_file)
unfolding send_response
send_response_whole c io =
    let n : min (total (resp_bufs c)) (total (resp_bufs c)) ≡ total (resp_bufs c) = omega arith in
    ground (
      arith,
      n,
      advance_exact (total (resp_bufs c)) c.ta.resp_buf0 (c.ta.resp_buf1 ∷ c.ta.resp_buf2 ∷ []),
    )

-- The flaw: a first write that is short of the whole but no shorter than any one of the three
-- buffers ends the sending too, although bytes of the response were not written.
pub send_response_short :
    (c : Client) (n : ℕ) (io : List IoResult)
    → AllWithin n (resp_bufs c)
    → n < total (resp_bufs c)
    → ((send_response c (IoResult.moved n ∷ io)).1 ≡ Rc.ok)
      × ((send_response c (IoResult.moved n ∷ io)).0.ta.state ≡ TransactionState.send_file)
unfolding send_response
send_response_short c n io w h =
    let m : min n (total (resp_bufs c)) ≡ n = omega arith in
    ground (arith, m, advance_all n (resp_bufs c) w)

-- The flaw: no list of results of `writev` makes the function fail, so a broken socket is taken
-- for one that blocks.
pub send_response_never_fails : (c : Client) (io : List IoResult) → (send_response c io).1 ≡ Rc.ok
unfolding send_response
send_response_never_fails c [] = refl
send_response_never_fails c (IoResult.would_block ∷ io) = refl
send_response_never_fails c (IoResult.broken ∷ io) = refl
send_response_never_fails c (IoResult.moved n ∷ io) =
    let r = advance (min n (total (resp_bufs c))) (resp_bufs c) in
    let later = send_response_never_fails (set_bufs c r.0) io in
    elim (Bool-cases r.1) [ inl e ↦ rw e refl | inr e ↦ rw e later ]
