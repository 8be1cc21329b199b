-- ===== src/Parser/ResumeStages.antt =====
-- Resuming in each state of the parser of `kitserv_http_recv_request`.
use kitserv.Prelude.{
  ℕ, ◌+◌, ◌-◌, ◌≤◌, ◌<◌, ◌≡◌, refl, ◌∙◌, inl, inr, Option, none, some, arith, leb, ltb, length,
  drop, take, set, length-set, length-append, set-append, drop-append, take-append, length-drop,
  length-take, ◌++◌, Bool-cases, codes,
}
use kitserv.Cstring.{Bytes, string_at, has_prefix}
use kitserv.Cstring.Laws.{byte_at-append, HasNul, string_at-append, byte_at-set_self}
use kitserv.Traversal.{attempted_path_traversal}
use kitserv.UrlDecode.Refine.{length-url_decode}
use kitserv.UrlDecode.Append.{url_decode-append, url_decode-HasNul}
use kitserv.Client.{Client, HttpVersion, Method, ParseState, received}
use kitserv.Parser.{
  head_fuel, req_head, req_head_lf, req_version_lf, version_known, version_found, version_of,
  req_version, scan_path, take_query, take_path, path_checked, path_scanned, path_found, req_path,
  method_known, method_of, method_found, req_method, set_version, set_method, parse,
}
use kitserv.Parser.Bounds.{length-take_query}
use kitserv.Parser.Scan.{has_prefix-append}
use kitserv.Parser.Resume.{resume, resume-stage}
use kitserv.Parser.ResumeHead.{head_loop-resume, head_lf-resume}
use kitserv.Parser.Query.{
  version_of-append, method_of-append, scan_path-mark, MarkIn, take_query-received,
  take_query-HasNul,
}

module _ (m : Bytes) where
  whole : (c : Client) → length (c.req_headers ++ m) ≡ length c.req_headers + length m
  whole c = length-append c.req_headers m

  module _ (c : Client) (p r : ℕ) (h : p ≤ r) (k : r ≤ length c.req_headers) where
    req_head-resume : req_head (received c m) p r ≡ resume m (req_head c p r)
    unfolding req_head
    req_head-resume =
        head_loop-resume m (head_fuel c) (head_fuel (received c m)) c p r h k (omega arith)
          (omega (arith, whole c))

    req_head_lf-resume : req_head_lf (received c m) p r ≡ resume m (req_head_lf c p r)
    unfolding req_head_lf
    req_head_lf-resume =
        head_lf-resume m (head_fuel c) (head_fuel (received c m)) c p r k (omega (arith, whole c))
          (λ d q x lt le.
            head_loop-resume m (head_fuel c) (head_fuel (received c m)) d q q (omega arith)
              (omega arith) (omega arith) (omega (arith, whole c)))

  req_version_lf-resume :
      (c : Client) (p r : ℕ)
      → p ≤ r
      → r ≤ length c.req_headers
      → req_version_lf (received c m) p r ≡ resume m (req_version_lf c p r)
  unfolding req_version_lf resume
  req_version_lf-resume c p r h k = elim (Bool-cases (leb (length c.req_headers) r)) [
    | inl stop ↦ rw stop (unfold parse req_version_lf in refl)
    | inr go ↦
        rw (go, byte_at-append c.req_headers m r (ground arith))
          (ground (arith, whole c, req_head-resume c (r + 1) (r + 1) (omega arith)))
  ]

module _ (m : Bytes) where
  version_known-resume :
      (c : Client) (r : ℕ) (o : Option HttpVersion)
      → r < length c.req_headers
      → version_known (received c m) r o ≡ resume m (version_known c r o)
  unfolding version_known resume
  version_known-resume c r none k = refl
  version_known-resume c r (some v) k =
      req_version_lf-resume m (set_version c v) (r + 1) (r + 1) (omega arith) (omega arith)

  version_found-resume :
      (c : Client) (p r : ℕ)
      → p ≤ r
      → r < length c.req_headers
      → version_found (received c m) p r ≡ resume m (version_found c p r)
  unfolding version_found
  version_found-resume c p r h k = elim (Bool-cases (ltb (r - p) 5)) [
    | inl short ↦ rw short (unfold resume in refl)
    | inr long ↦
        rw
          (
            drop-append p c.req_headers m (omega arith),
            has_prefix-append (drop p c.req_headers) m (codes "HTTP/")
                (ground (arith, length-drop {0} p c.req_headers)),
            drop-append (p + 5) c.req_headers m (ground arith),
            version_of-append (drop (p + 5) c.req_headers) m (r - (p + 5))
                (omega (arith, length-drop {0} (p + 5) c.req_headers)),
          )
          (let o = version_of (drop (p + 5) c.req_headers) (r - (p + 5)) in
            elim (Bool-cases (has_prefix (drop p c.req_headers) (codes "HTTP/"))) [
              | inl good ↦ rw (long, good) (version_known-resume c r o k)
              | inr bad ↦ rw (long, bad) (unfold resume in refl)
            ])
  ]

  req_version-resume :
      (c : Client) (p r : ℕ)
      → p ≤ r
      → r ≤ length c.req_headers
      → req_version (received c m) p r ≡ resume m (req_version c p r)
  unfolding req_version
  req_version-resume c p r h k =
      resume-stage m b'\r' ParseState.req_version version_found version_found c p r k
        (λ e re lt. version_found-resume c p e (omega arith) lt)
        (λ e end. unfold parse req_version in refl)

  path_checked-resume :
      (c : Client) (p r : ℕ)
      → r < length c.req_headers
      → p ≤ length c.req_headers
      → HasNul (drop p c.req_headers)
      → path_checked (received c m) p r ≡ resume m (path_checked c p r)
  unfolding path_checked
  path_checked-resume c p r k h n =
      rw (string_at-append c.req_headers m p h n)
        (elim (Bool-cases (attempted_path_traversal (string_at c.req_headers p))) [
          | inl e ↦ rw e (unfold resume in refl)
          | inr e ↦ rw e (req_version-resume c (r + 1) (r + 1) (omega arith) (omega arith))
        ])

  take_path-received :
      (c : Client) (p : ℕ)
      → p ≤ length c.req_headers
      → HasNul (drop p c.req_headers)
      → take_path (received c m) p ≡ received (take_path c p) m
  unfolding take_path
  take_path-received c p h n = rw (url_decode-append c.req_headers p h n m)

  path_scanned-resume :
      (c : Client) (p r : ℕ) (o : Option (Option ℕ))
      → p ≤ r
      → r < length c.req_headers
      → ((s : Option ℕ) → o ≡ some s → MarkIn p r s)
      → path_scanned (received c m) p r o ≡ resume m (path_scanned c p r o)
  unfolding path_scanned
  path_scanned-resume c p r none h k b = unfold resume in refl
  path_scanned-resume c p r (some s) h k b =
      let closed = record c { req_headers = set c.req_headers r 0 } in
      let k' : r < length closed.req_headers = omega (arith, length-set c.req_headers r 0) in
      let z = byte_at-set_self c.req_headers r 0 k in
      let asked = take_query closed s in
      let same : length asked.req_headers ≡ length c.req_headers =
        length-take_query closed s ∙ length-set c.req_headers r 0 in
      let n = take_query-HasNul m closed r k' z p s h (b s refl) in
      let same' : length (take_path asked p).req_headers ≡ length c.req_headers =
        unfold take_path in length-url_decode asked.req_headers p ∙ same in
      rw
        (
          set-append c.req_headers m r 0 k,
          take_query-received m closed r k' z p s (b s refl),
          take_path-received asked p (omega arith) n,
        )
        (path_checked-resume (take_path asked p) p r (omega arith) (omega arith)
          (unfold take_path in url_decode-HasNul asked.req_headers p (omega arith) n))

  path_found-resume :
      (c : Client) (p r : ℕ)
      → p ≤ r
      → r < length c.req_headers
      → path_found (received c m) p r ≡ resume m (path_found c p r)
  unfolding path_found
  path_found-resume c p r h k =
      let seg = take (r - p) (drop p c.req_headers) in
      let size = length-drop {0} p c.req_headers in
      rw
        (
          drop-append p c.req_headers m (omega arith),
          take-append (r - p) (drop p c.req_headers) m (omega (arith, size)),
        )
        (path_scanned-resume c p r (scan_path p none seg) h k (λ s e.
          mark_in s (scan_path p none seg) e (λ t f.
            omega
              (arith, scan_path-mark p seg t f, length-take {0} (r - p) (drop p c.req_headers)))))
    where
      mark_in :
          (s : Option ℕ) (o : Option (Option ℕ))
          → o ≡ some s
          → ((t : ℕ) → o ≡ some (some t) → (p ≤ t) × (t < r))
          → MarkIn p r s
      mark_in none o e f = tt
      mark_in (some t) o e f = f t e

  req_path-resume :
      (c : Client) (p r : ℕ)
      → p ≤ r
      → r ≤ length c.req_headers
      → req_path (received c m) p r ≡ resume m (req_path c p r)
  unfolding req_path
  req_path-resume c p r h k =
      resume-stage m b' ' ParseState.req_path path_found path_found c p r k
        (λ e re lt. path_found-resume c p e (omega arith) lt)
        (λ e end. unfold parse req_path in refl)

  method_known-resume :
      (c : Client) (r : ℕ) (o : Option Method)
      → r < length c.req_headers
      → method_known (received c m) r o ≡ resume m (method_known c r o)
  unfolding method_known resume
  method_known-resume c r none k = refl
  method_known-resume c r (some v) k =
      req_path-resume (set_method c v) (r + 1) (r + 1) (omega arith) (omega arith)

  req_method-resume :
      (c : Client) (p r : ℕ)
      → p ≤ r
      → r ≤ length c.req_headers
      → req_method (received c m) p r ≡ resume m (req_method c p r)
  unfolding req_method
  req_method-resume c p r h k =
      resume-stage m b' ' ParseState.req_method method_found method_found c p r k
        (λ e re lt.
          unfold method_found in
          rw
            (
              drop-append p c.req_headers m (omega arith),
              method_of-append (drop p c.req_headers) m (e - p)
                  (omega (arith, length-drop {0} p c.req_headers)),
            )
            (method_known-resume c e (method_of (drop p c.req_headers) (e - p)) lt))
        (λ e end. unfold parse req_method in refl)

  -- From any saved state: parsing what was received together with what comes next is parsing the
  -- first part, and resuming on the rest.
  pub parse-resume :
      (s : ParseState) (c : Client) (p r : ℕ)
      → p ≤ r
      → r ≤ length c.req_headers
      → parse s (received c m) p r ≡ resume m (parse s c p r)
  unfolding parse
  parse-resume ParseState.ps_new c p r h k = req_method-resume c 0 0 (omega arith) (omega arith)
  parse-resume ParseState.req_method c p r h k = req_method-resume c p r h k
  parse-resume ParseState.req_path c p r h k = req_path-resume c p r h k
  parse-resume ParseState.req_version c p r h k = req_version-resume c p r h k
  parse-resume ParseState.req_version_lf c p r h k = req_version_lf-resume m c p r h k
  parse-resume ParseState.req_head c p r h k = req_head-resume m c p r h k
  parse-resume ParseState.req_head_lf c p r h k = req_head_lf-resume m c p r h k
