-- ===== src/Parser/Bounds.antt =====
-- Where the parser of `kitserv_http_recv_request` stops.
use kitserv.Prelude.{
  ℕ, zero, suc, ◌+◌, ◌-◌, ◌≤◌, ◌<◌, ◌≡◌, refl, ap, ◌∙◌, inl, inr, Option, none, some, arith, ◌==◌,
  length, drop, set, length-set, Bool-cases,
}
use kitserv.Cstring.{strchr}
use kitserv.Client.{Client, HttpVersion, Method, ParseState, Rc}
use kitserv.Header.{headers, process_header-req_headers}
use kitserv.UrlDecode.Refine.{length-url_decode}
use kitserv.Parser.{
  Parse, scan, head_lf, after_header, split_header, head_found, head_line, head_loop, head_fuel,
  req_head, req_head_lf, req_version_lf, version_known, version_found, version_of, req_version,
  take_query, take_path, path_checked, path_scanned, path_found, req_path, method_known,
  method_found, req_method, set_version, set_method, parse,
}
use kitserv.Parser.Scan.{scan_bounds, stage}

-- A parse of a buffer of `l` bytes has kept the length. When it wants more it has taken every byte,
-- and its block begins in the buffer; when it is finished, so does the payload. It never runs out of fuel.
abbrev pub InBounds : ℕ → Parse → Type 0
InBounds l (Parse.more s p r c) = (length c.req_headers ≡ l) × (p ≤ r) × (r ≡ l)
InBounds l (Parse.failed c) = length c.req_headers ≡ l
InBounds l (Parse.finished p c) = (length c.req_headers ≡ l) × (p ≤ l)
InBounds l Parse.exhausted = ⊥

-- What a line that begins past `r` leads to is in bounds.
abbrev pub Continues : (Client → ℕ → ℕ → Parse) → ℕ → ℕ → Type 0
Continues f l r =
    (c : Client) (q : ℕ) → length c.req_headers ≡ l → r < q → q ≤ l → InBounds l (f c q q)

module _ (f : Client → ℕ → ℕ → Parse) where
  head_lf-InBounds :
      (c : Client) (p r : ℕ)
      → p ≤ r
      → r ≤ length c.req_headers
      → Continues f (length c.req_headers) r
      → InBounds (length c.req_headers) (head_lf f c p r)
  unfolding head_lf
  head_lf-InBounds c p r h k n = ground (arith, n c (r + 1))

  after_header-InBounds :
      (l r : ℕ) (res : Client × Rc)
      → length res.0.req_headers ≡ l
      → r < l
      → Continues f l r
      → InBounds l (after_header f r res)
  after_header-InBounds l r (c, Rc.fail) e k n = e
  after_header-InBounds l r (c, Rc.ok) e k n = rw e at (
      head_lf-InBounds c (r + 1) (r + 1) (omega arith) (omega arith)
        (λ d q x lt le. rw (← e) at (n d q (omega arith) (omega arith) (omega arith))))

  split_header-InBounds :
      (c : Client) (p r : ℕ) (o : Option ℕ)
      → r < length c.req_headers
      → Continues f (length c.req_headers) r
      → InBounds (length c.req_headers) (split_header f c p r o)
  unfolding split_header
  split_header-InBounds c p r none k n = refl
  split_header-InBounds c p r (some i) k n =
      after_header-InBounds (length c.req_headers) r _
        (ap length (process_header-req_headers headers _ _ _) ∙ length-set c.req_headers (p + i) 0)
        k n

  head_found-InBounds :
      (c : Client) (p r : ℕ)
      → p ≤ r
      → r < length c.req_headers
      → Continues f (length c.req_headers) r
      → InBounds (length c.req_headers) (head_found f c p r)
  unfolding head_found
  head_found-InBounds c p r h k n = elim (Bool-cases (r == p)) [
    | inl e ↦ rw e (
        head_lf-InBounds c p (r + 1) (omega arith) (omega arith)
          (λ d q x lt le. n d q x (omega arith) le))
    | inr e ↦ rw e (
        let cut = record c { req_headers = set c.req_headers r 0 } in
        let same = length-set c.req_headers r 0 in
        rw same at (
          split_header-InBounds cut p r (strchr (drop p (set c.req_headers r 0)) b':') (omega arith)
            (λ d q x lt le. rw (← same) at (n d q (omega arith) lt (omega arith)))))
  ]

  head_line-InBounds :
      (c : Client) (p r : ℕ)
      → p ≤ r
      → r ≤ length c.req_headers
      → Continues f (length c.req_headers) r
      → InBounds (length c.req_headers) (head_line f c p r)
  unfolding head_line
  head_line-InBounds c p r h k n =
      let e = scan b'\r' c.req_headers r in
      let b = scan_bounds b'\r' c.req_headers r k in
      ground (
        arith,
        λ (lt : e < length c.req_headers).
            head_found-InBounds c p e (omega arith) lt (λ d q x lt le. n d q x (omega arith) le),
      )

head_loop-InBounds :
    (fuel : ℕ) (c : Client) (p r : ℕ)
    → p ≤ r
    → r ≤ length c.req_headers
    → length c.req_headers < fuel + r
    → InBounds (length c.req_headers) (head_loop fuel c p r)
unfolding head_loop
head_loop-InBounds zero c p r h k s = absurd (omega arith)
head_loop-InBounds (suc fuel) c p r h k s =
    head_line-InBounds (head_loop fuel) c p r h k (λ d q x lt le.
      rw x at (head_loop-InBounds fuel d q q (omega arith) (omega arith) (omega arith)))

module _ (c : Client) (p r : ℕ) (h : p ≤ r) (k : r ≤ length c.req_headers) where
  req_head-InBounds : InBounds (length c.req_headers) (req_head c p r)
  unfolding req_head
  req_head-InBounds = head_loop-InBounds (head_fuel c) c p r h k (omega arith)

  req_head_lf-InBounds : InBounds (length c.req_headers) (req_head_lf c p r)
  unfolding req_head_lf
  req_head_lf-InBounds = head_lf-InBounds (head_loop (head_fuel c)) c p r h k (λ d q x lt le.
      rw x at (head_loop-InBounds (head_fuel c) d q q (omega arith) (omega arith) (omega arith)))

req_version_lf-InBounds :
    (c : Client) (p r : ℕ)
    → p ≤ r
    → r ≤ length c.req_headers
    → InBounds (length c.req_headers) (req_version_lf c p r)
unfolding req_version_lf
req_version_lf-InBounds c p r h k =
    ground (arith, req_head-InBounds c (r + 1) (r + 1) (omega arith))

version_known-InBounds :
    (c : Client) (r : ℕ) (o : Option HttpVersion)
    → r < length c.req_headers
    → InBounds (length c.req_headers) (version_known c r o)
unfolding version_known
version_known-InBounds c r none k = refl
version_known-InBounds c r (some v) k =
    req_version_lf-InBounds (set_version c v) (r + 1) (r + 1) (omega arith) (omega arith)

-- A stage that scans for a delimiter.
stage-InBounds :
    (b : ℕ) (s : ParseState) (found : Client → ℕ → ℕ → Parse) (c : Client) (p r : ℕ)
    → p ≤ r
    → r ≤ length c.req_headers
    → ((e : ℕ) → r ≤ e → e < length c.req_headers → InBounds (length c.req_headers) (found c p e))
    → InBounds (length c.req_headers) (stage b s found c p r)
stage-InBounds b s found c p r h k f =
    ground (arith, scan_bounds b c.req_headers r k, f (scan b c.req_headers r))

req_version-InBounds :
    (c : Client) (p r : ℕ)
    → p ≤ r
    → r ≤ length c.req_headers
    → InBounds (length c.req_headers) (req_version c p r)
unfolding req_version version_found
req_version-InBounds c p r h k = stage-InBounds b'\r' _ version_found c p r h k (λ e _ lt.
    ground
      (arith, version_known-InBounds c e (version_of (drop (p + 5) c.req_headers) (e - (p + 5)))))

pub length-take_query :
    (c : Client) (s : Option ℕ) → length (take_query c s).req_headers ≡ length c.req_headers
unfolding take_query
length-take_query c none = refl
length-take_query c (some s) = length-url_decode _ (s + 1) ∙ length-set c.req_headers s 0

path_checked-InBounds :
    (c : Client) (p r : ℕ)
    → r < length c.req_headers
    → InBounds (length c.req_headers) (path_checked c p r)
unfolding path_checked
path_checked-InBounds c p r k = ground (arith, req_version-InBounds c (r + 1) (r + 1) (omega arith))

path_scanned-InBounds :
    (c : Client) (p r : ℕ) (o : Option (Option ℕ))
    → r < length c.req_headers
    → InBounds (length c.req_headers) (path_scanned c p r o)
unfolding path_scanned
path_scanned-InBounds c p r none k = refl
path_scanned-InBounds c p r (some s) k =
    let closed = record c { req_headers = set c.req_headers r 0 } in
    let e : length (take_path (take_query closed s) p).req_headers ≡ length c.req_headers =
      unfold take_path in
      length-url_decode _ p ∙ length-take_query closed s ∙ length-set c.req_headers r 0 in
    rw e at (path_checked-InBounds (take_path (take_query closed s) p) p r (omega arith))

req_path-InBounds :
    (c : Client) (p r : ℕ)
    → p ≤ r
    → r ≤ length c.req_headers
    → InBounds (length c.req_headers) (req_path c p r)
unfolding req_path path_found
req_path-InBounds c p r h k =
    stage-InBounds b' ' _ path_found c p r h k (λ e _ lt. path_scanned-InBounds c p e _ lt)

method_known-InBounds :
    (c : Client) (r : ℕ) (o : Option Method)
    → r < length c.req_headers
    → InBounds (length c.req_headers) (method_known c r o)
unfolding method_known
method_known-InBounds c r none k = refl
method_known-InBounds c r (some m) k =
    req_path-InBounds (set_method c m) (r + 1) (r + 1) (omega arith) (omega arith)

req_method-InBounds :
    (c : Client) (p r : ℕ)
    → p ≤ r
    → r ≤ length c.req_headers
    → InBounds (length c.req_headers) (req_method c p r)
unfolding req_method method_found
req_method-InBounds c p r h k =
    stage-InBounds b' ' _ method_found c p r h k (λ e _ lt. method_known-InBounds c e _ lt)

-- From any saved state with its positions inside the buffer, the parser ends with its positions inside the
-- buffer, whose length is the same: it never runs out of fuel, it wants more bytes only when it has taken
-- them all, and a payload begins inside the buffer.
pub parse-InBounds :
    (s : ParseState) (c : Client) (p r : ℕ)
    → p ≤ r
    → r ≤ length c.req_headers
    → InBounds (length c.req_headers) (parse s c p r)
unfolding parse
parse-InBounds ParseState.ps_new c p r h k = req_method-InBounds c 0 0 (omega arith) (omega arith)
parse-InBounds ParseState.req_method c p r h k = req_method-InBounds c p r h k
parse-InBounds ParseState.req_path c p r h k = req_path-InBounds c p r h k
parse-InBounds ParseState.req_version c p r h k = req_version-InBounds c p r h k
parse-InBounds ParseState.req_version_lf c p r h k = req_version_lf-InBounds c p r h k
parse-InBounds ParseState.req_head c p r h k = req_head-InBounds c p r h k
parse-InBounds ParseState.req_head_lf c p r h k = req_head_lf-InBounds c p r h k
