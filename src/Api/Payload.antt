-- ===== src/Api/Payload.antt =====
-- What `kitserv_api_read_payload` of src/api.c hands out.
use kitserv.Prelude.{
  ℕ, zero, suc, ◌+◌, ◌-◌, ◌≤◌, ◌<◌, ◌≡◌, refl, ap, ◌∙◌, sym, ◌⊎◌, inl, inr, Bool-cases, none, some,
  [], ◌∷◌, ◌++◌, ltb, leb, min, arith, if_both, tests, length, drop, take, length-append,
  length-take, length-drop, append_assoc, append-nil, take-append-drop, drop-add, drop-take,
  drop_all, take_all,
}
use kitserv.Cstring.{Bytes}
use kitserv.Status.{Status}
use kitserv.Client.{Client}
use kitserv.Recv.{Arrival, Socket, ReadResult, read, index}
use kitserv.Api.{
  ReadPayload, some_written, after_payload_read, payload_loop, overread, set_payload_pos,
  read_payload,
}

-- How many bytes the socket gives before it blocks for the first time, fails or ends.
abbrev pub arrived : Socket → ℕ
arrived [] = 0
arrived (Arrival.again ∷ sk) = 0
arrived (Arrival.error ∷ sk) = 0
arrived (Arrival.bytes [] ∷ sk) = 0
arrived (Arrival.bytes (x ∷ b) ∷ sk) = length (x ∷ b) + arrived sk

-- All bytes that will ever arrive.
abbrev pub stream : Socket → Bytes
stream [] = []
stream (Arrival.again ∷ sk) = stream sk
stream (Arrival.error ∷ sk) = stream sk
stream (Arrival.bytes b ∷ sk) = b ++ stream sk

-- What one read leaves of these.
abbrev ReadKeeps : Socket → ℕ → ReadResult × Socket → Type 0
ReadKeeps sk n (ReadResult.got [], sk') = (stream sk ≡ stream sk') × (0 < n → arrived sk ≡ 0)
ReadKeeps sk n (ReadResult.got (x ∷ b), sk') =
    (length (x ∷ b) ≤ n)
    × (stream sk ≡ x ∷ b ++ stream sk')
    × (arrived sk ≡ length (x ∷ b) + arrived sk')
ReadKeeps sk n (ReadResult.would_block, sk') = (stream sk ≡ stream sk') × (arrived sk ≡ 0)
ReadKeeps sk n (ReadResult.broken, sk') = (stream sk ≡ stream sk') × (arrived sk ≡ 0)

arrived-bytes :
    (b : Bytes) (sk : Socket)
    → 0 < length b
    → arrived (Arrival.bytes b ∷ sk) ≡ length b + arrived sk
arrived-bytes [] sk h = absurd (omega arith)
arrived-bytes (x ∷ b) sk h = refl

-- A read that leaves the rest of an arrival.
read_cut :
    (n : ℕ) (x : ℕ) (b : Bytes) (sk : Socket)
    → suc n < length (x ∷ b)
    → ReadKeeps
        (Arrival.bytes (x ∷ b) ∷ sk)
        (suc n)
        (ReadResult.got (take (suc n) (x ∷ b)), Arrival.bytes (drop (suc n) (x ∷ b)) ∷ sk)
read_cut n x b sk h = (
  omega (arith, length-take {0} n b),
  ap (λ z. x ∷ z ++ stream sk) (sym (take-append-drop n b))
      ∙ ap (λ z. x ∷ z) (append_assoc (take n b) (drop n b) (stream sk)),
  omega (
    arith,
    length-take {0} n b,
    length-drop {0} n b,
    arrived-bytes (drop n b) sk (omega (arith, length-drop {0} n b)),
  ),
)

read-ReadKeeps : (sk : Socket) (n : ℕ) → ReadKeeps sk n (read sk n)
unfolding read
read-ReadKeeps sk zero = (refl, λ h. absurd (omega arith))
read-ReadKeeps [] (suc n) = (refl, refl)
read-ReadKeeps (Arrival.again ∷ sk) (suc n) = (refl, refl)
read-ReadKeeps (Arrival.error ∷ sk) (suc n) = (refl, refl)
read-ReadKeeps (Arrival.bytes [] ∷ sk) (suc n) =
    if_both (ReadKeeps (Arrival.bytes [] ∷ sk) (suc n)) (leb 0 (suc n)) (λ _. (refl, λ _. refl))
      (λ cut. absurd (omega tests))
read-ReadKeeps (Arrival.bytes (x ∷ b) ∷ sk) (suc n) =
    if_both (ReadKeeps (Arrival.bytes (x ∷ b) ∷ sk) (suc n)) (leb (length (x ∷ b)) (suc n))
      (λ fits. (omega tests, refl, refl)) (λ cut. read_cut n x b sk (omega tests))

-- The bytes handed out are the first ones of the payload, as many as were asked for or are there, and
-- the rest can still be read. -1 comes when none are there, or with the status HANGUP.
abbrev pub Hands : Bytes → ℕ → ℕ → ReadPayload → Type 0
Hands whole nbytes there none = ⊥
Hands whole nbytes there (some (none, c, sk)) =
    ((0 < nbytes) × (there ≡ 0)) ⊎ (c.ta.resp_status ≡ Status.hangup)
Hands whole nbytes there (some (some out, c, sk)) =
    (length out ≡ min nbytes there) × (whole ≡ out ++ overread c ++ stream sk)

module _ (whole : Bytes) (nbytes there : ℕ) (c : Client) where
  some_written-Hands :
      (out : Bytes) (sk : Socket)
      → 0 < nbytes
      → length out ≡ min nbytes there
      → whole ≡ out ++ overread c ++ stream sk
      → Hands whole nbytes there (some (some_written out, c, sk))
  some_written-Hands [] sk p h e = inl (p, omega arith)
  some_written-Hands (x ∷ out) sk p h e = (h, e)

  module _ (empty : overread c ≡ []) where
    no_rest :
        (written : Bytes) (sk : Socket) → written ++ stream sk ≡ written ++ overread c ++ stream sk
    no_rest written sk =
        ap (λ z. z ++ stream sk) (sym (append-nil written) ∙ ap (λ z. written ++ z) (sym empty))

    -- The loop, once the buffer is used up.
    after_payload_read-Hands :
        (next : Bytes → Socket → ReadPayload) (written : Bytes) (sk : Socket)
        (r : ReadResult × Socket)
        → length written < nbytes
        → there ≡ length written + arrived sk
        → whole ≡ written ++ stream sk
        → ReadKeeps sk (nbytes - length written) r
        → ((b : Bytes) (sk' : Socket)
            → length written < length b
            → length b ≤ nbytes
            → there ≡ length b + arrived sk'
            → whole ≡ b ++ stream sk'
            → Hands whole nbytes there (next b sk'))
        → Hands whole nbytes there (after_payload_read next c written r)
    unfolding after_payload_read
    after_payload_read-Hands next written sk (ReadResult.would_block, sk') l t w (s, a) k =
        some_written-Hands written sk' (omega arith) (omega arith)
          (w ∙ ap (λ z. written ++ z) s ∙ no_rest written sk')
    after_payload_read-Hands next written sk (ReadResult.broken, sk') l t w h k = inr refl
    after_payload_read-Hands next written sk (ReadResult.got [], sk') l t w (s, a) k =
        some_written-Hands written sk' (omega arith) (omega (arith, a (omega arith)))
          (w ∙ ap (λ z. written ++ z) s ∙ no_rest written sk')
    after_payload_read-Hands next written sk (ReadResult.got (x ∷ b), sk') l t w (f, s, a) k =
        k (written ++ x ∷ b) sk' (omega (arith, length-append written (x ∷ b)))
          (omega (arith, length-append written (x ∷ b)))
          (omega (arith, length-append written (x ∷ b)))
          (w ∙ ap (λ z. written ++ z) s ∙ sym (append_assoc written (x ∷ b) (stream sk')))

    payload_loop-Hands :
        (fuel : ℕ) (written : Bytes) (sk : Socket)
        → nbytes - length written < fuel
        → length written ≤ nbytes
        → there ≡ length written + arrived sk
        → whole ≡ written ++ stream sk
        → Hands whole nbytes there (payload_loop fuel nbytes c written sk)
    unfolding payload_loop
    payload_loop-Hands zero written sk f l t w = absurd (omega arith)
    payload_loop-Hands (suc fuel) written sk f l t w =
        if_both (Hands whole nbytes there) (ltb 0 (nbytes - length written))
          (λ go.
            after_payload_read-Hands (payload_loop fuel nbytes c) written sk
              (read sk (nbytes - length written)) (omega tests) t w
              (read-ReadKeeps sk (nbytes - length written))
              (λ b sk' lt le t' w'. payload_loop-Hands fuel b sk' (omega tests) le t' w'))
          (λ stop. (omega tests, w ∙ no_rest written sk))

-- What remains in the buffer behind the first `n` bytes.
overread-set_payload_pos :
    (c : Client) (n : ℕ)
    → overread (set_payload_pos c (c.ta.req_payload_pos + n)) ≡ drop n (overread c)
overread-set_payload_pos c n =
    let i = index c.ta.req_payload in
    let p = c.ta.req_payload_pos in
    let a : c.ta.req_payload_len - (p + n) ≡ c.ta.req_payload_len - p - n = omega arith in
    let b : i + (p + n) ≡ i + p + n = omega arith in
    ap (λ k. take k (drop (i + (p + n)) c.req_headers)) a
    ∙ ap (λ k. take (c.ta.req_payload_len - p - n) k)
        (ap (λ k. drop k c.req_headers) b ∙ drop-add (i + p) n c.req_headers)
    ∙ sym (drop-take n (c.ta.req_payload_len - p) (drop (i + p) c.req_headers))

length-overread :
    (c : Client)
    → index c.ta.req_payload + c.ta.req_payload_len ≤ length c.req_headers
    → length (overread c) ≡ c.ta.req_payload_len - c.ta.req_payload_pos
length-overread c h =
    let n = index c.ta.req_payload + c.ta.req_payload_pos in
    let m = c.ta.req_payload_len - c.ta.req_payload_pos in
    omega (arith, length-take {0} m (drop n c.req_headers), length-drop {0} n c.req_headers)

-- The loop makes no round when the bytes asked for are there.
payload_loop-full :
    (whole : Bytes) (nbytes there : ℕ) (c : Client) (written : Bytes) (sk : Socket)
    → length written ≡ nbytes
    → nbytes ≤ there
    → whole ≡ written ++ overread c ++ stream sk
    → Hands whole nbytes there (payload_loop (suc nbytes) nbytes c written sk)
unfolding payload_loop
payload_loop-full whole nbytes there c written sk l t w =
    if_both (Hands whole nbytes there) (ltb 0 (nbytes - length written))
      (λ go. absurd (omega tests)) (λ _. (omega arith, w))

-- When the payload in the buffer ends with the bytes received: whatever the socket does,
-- `kitserv_api_read_payload` hands out the first bytes of the payload, as many as were asked for or as
-- there are without waiting, and the rest, in order, can still be read. It gives -1 only when bytes were
-- asked for and none are there, or with the status HANGUP.
pub read_payload-Hands :
    (c : Client) (nbytes : ℕ) (sk : Socket)
    → index c.ta.req_payload + c.ta.req_payload_len ≤ length c.req_headers
    → Hands
        (overread c ++ stream sk)
        nbytes
        (length (overread c) + arrived sk)
        (read_payload c nbytes sk)
unfolding read_payload
read_payload-Hands c nbytes sk h =
    let rc = c.ta.req_payload_len - c.ta.req_payload_pos in
    let v = overread c in
    let n = min nbytes rc in
    let l = length-overread c h in
    let left = overread-set_payload_pos c n in
    let c' = set_payload_pos c (c.ta.req_payload_pos + n) in
    let t = length-take {0} n v in
    elim (Bool-cases (leb rc nbytes)) [
      | inl all ↦
          payload_loop-Hands (v ++ stream sk) nbytes (length v + arrived sk) c'
            (left ∙ drop_all n v (omega tests)) (suc nbytes) (take n v) sk (omega arith)
            (omega arith) (omega tests)
            (ap (λ z. z ++ stream sk) (sym (take_all n v (omega tests))))
      | inr some_left ↦
          payload_loop-full (v ++ stream sk) nbytes (length v + arrived sk) c' (take n v) sk
            (omega tests) (omega tests)
            (ap (λ z. z ++ stream sk)
              (sym (take-append-drop n v) ∙ ap (λ z. take n v ++ z) (sym left)))
    ]
