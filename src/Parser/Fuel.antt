-- ===== src/Parser/Fuel.antt =====
-- The fuel of the header loop of `kitserv_http_recv_request`.
use kitserv.Prelude.{
  ℕ, zero, suc, ◌+◌, ◌≤◌, ◌<◌, ◌≡◌, refl, ap, ◌∙◌, inl, inr, Option, none, some, arith, ◌==◌,
  length, set, length-set, Bool-cases,
}
use kitserv.Client.{Client, Rc}
use kitserv.Header.{headers, process_header-req_headers}
use kitserv.Parser.{
  Parse, scan, head_lf, after_header, split_header, head_found, head_line, head_loop,
}
use kitserv.Parser.Scan.{scan_bounds}

-- Two continuations agree on the lines that begin past `r` in a buffer of `l` bytes.
abbrev pub Agree : (Client → ℕ → ℕ → Parse) → (Client → ℕ → ℕ → Parse) → ℕ → ℕ → Type 0
Agree f g l r = (c : Client) (q : ℕ) → length c.req_headers ≡ l → r < q → q ≤ l → f c q q ≡ g c q q

module _ (f g : Client → ℕ → ℕ → Parse) where
  pub head_lf-cong :
      (c : Client) (p r : ℕ)
      → Agree f g (length c.req_headers) r
      → head_lf f c p r ≡ head_lf g c p r
  unfolding head_lf
  head_lf-cong c p r h = ground (arith, h c (r + 1))

  after_header-cong :
      (l r : ℕ) (res : Client × Rc)
      → length res.0.req_headers ≡ l
      → Agree f g l r
      → after_header f r res ≡ after_header g r res
  after_header-cong l r (c, Rc.fail) e h = refl
  after_header-cong l r (c, Rc.ok) e h =
      head_lf-cong c (r + 1) (r + 1)
        (λ d q k lt le. h d q (omega arith) (omega arith) (omega arith))

  split_header-cong :
      (c : Client) (p r : ℕ) (o : Option ℕ)
      → Agree f g (length c.req_headers) r
      → split_header f c p r o ≡ split_header g c p r o
  unfolding split_header
  split_header-cong c p r none h = refl
  split_header-cong c p r (some i) h =
      after_header-cong (length c.req_headers) r _
        (ap length (process_header-req_headers headers _ _ _) ∙ length-set c.req_headers (p + i) 0)
        h

  head_found-cong :
      (c : Client) (p r : ℕ)
      → Agree f g (length c.req_headers) r
      → head_found f c p r ≡ head_found g c p r
  unfolding head_found
  head_found-cong c p r h = elim (Bool-cases (r == p)) [
    | inl e ↦ rw e (head_lf-cong c p (r + 1) (λ d q k lt le. h d q k (omega arith) le))
    | inr e ↦ rw e (
        split_header-cong (record c { req_headers = set c.req_headers r 0 }) p r _
          (λ d q k lt le.
            let e' = length-set c.req_headers r 0 in h d q (omega arith) lt (omega arith)))
  ]

  pub head_line-cong :
      (c : Client) (p r : ℕ)
      → r ≤ length c.req_headers
      → Agree f g (length c.req_headers) r
      → head_line f c p r ≡ head_line g c p r
  unfolding head_line
  head_line-cong c p r k h =
      let e = scan b'\r' c.req_headers r in
      let b = scan_bounds b'\r' c.req_headers r k in
      ground (arith, head_found-cong c p e (λ d q x lt le. h d q x (omega arith) le))

pub head_loop_fuel :
    (f g : ℕ) (c : Client) (p r : ℕ)
    → r ≤ length c.req_headers
    → length c.req_headers < f + r
    → length c.req_headers < g + r
    → head_loop f c p r ≡ head_loop g c p r
unfolding head_loop
head_loop_fuel zero g c p r k h h' = absurd (omega arith)
head_loop_fuel (suc f) zero c p r k h h' = absurd (omega arith)
head_loop_fuel (suc f) (suc g) c p r k h h' =
    head_line-cong (head_loop f) (head_loop g) c p r k
      (λ d q x lt le. head_loop_fuel f g d q q (omega arith) (omega arith) (omega arith))
