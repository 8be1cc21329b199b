-- ===== src/Parser/Resume.antt =====
-- Resuming the parser of src/http.c when more bytes have come.
use kitserv.Prelude.{ℕ, ◌≤◌, ◌<◌, ◌≡◌, inl, inr, arith, leb, length, length-append, Bool-cases}
use kitserv.Cstring.{Bytes}
use kitserv.Client.{Client, ParseState, received}
use kitserv.Parser.{Parse, scan, parse}
use kitserv.Parser.Scan.{scan_bounds, stage, scan-append_found, scan-append_end}

-- More bytes have come: a parse that wanted them goes on from where it stopped.
unfoldable pub resume : Bytes → Parse → Parse
resume m (Parse.more s p r c) = parse s (received c m) p r
resume m (Parse.failed c) = Parse.failed (received c m)
resume m (Parse.finished p c) = Parse.finished p (received c m)
resume m Parse.exhausted = Parse.exhausted

module _ (m : Bytes) where
  pub resume-stage :
      (b : ℕ) (s : ParseState) (found found' : Client → ℕ → ℕ → Parse) (c : Client) (p r : ℕ)
      → r ≤ length c.req_headers
      → ((e : ℕ)
          → r ≤ e
          → e < length c.req_headers
          → found' (received c m) p e ≡ resume m (found c p e))
      → ((e : ℕ)
          → e ≡ length c.req_headers
          → stage b s found' (received c m) p e ≡ parse s (received c m) p e)
      → stage b s found' (received c m) p r ≡ resume m (stage b s found c p r)
  unfolding resume
  resume-stage b s found found' c p r k f g =
      let e = scan b c.req_headers r in
      let w = scan_bounds b c.req_headers r k in
      let whole = length-append {0} c.req_headers m in
      elim (Bool-cases (leb (length c.req_headers) e)) [
        | inl stop ↦
            rw (stop, scan-append_end b c.req_headers m r k (ground arith)) (g e (ground arith))
        | inr go ↦
            rw (go, scan-append_found b c.req_headers m r k (ground arith))
              (ground (arith, whole, f e (ground arith) (ground arith)))
      ]
