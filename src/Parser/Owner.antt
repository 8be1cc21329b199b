-- ===== src/Parser/Owner.antt =====
-- The socket of the client in the parser of `kitserv_http_recv_request` of src/http.c.
use kitserv.Prelude.{
  ℕ, zero, suc, ◌+◌, ◌-◌, ◌≡◌, ◌<◌, refl, ◌∙◌, not, true, arith, ◌||◌, Option, none, some, List, [],
  ◌∷◌, ◌==◌, ltb, length, length-set, ap, drop, take, set, codes, if_both, ◌&&◌,
}
use kitserv.Prelude.Int.{ℤ, pos, ltb_ℤ}
use kitserv.Cstring.{Bytes, byte_at, string_at, strchr, strtonum, has_prefix, str_case_eq}
use kitserv.Status.{status_is_error}
use kitserv.Client.{Client, TransactionState, HttpVersion, Method, ParseState, Rc}
use kitserv.Traversal.{attempted_path_traversal}
use kitserv.Header.{
  HeaderFunc, Header, headers, call_header, process_header, parse_header_content_length,
}
use kitserv.UrlDecode.Refine.{length-url_decode}
use kitserv.Parser.{
  Parse, scan, parse_past_end, head_lf, after_header, split_header, head_found, head_line,
  head_loop, head_fuel, req_head, req_head_lf, req_version_lf, version_known, version_found,
  version_of, req_version, take_query, take_path, path_checked, path_scanned, path_found, scan_path,
  req_path, method_known, method_found, method_of, req_method, set_version, set_method, parse,
}

-- The socket, the state and the number of bytes in the buffer.
abbrev pub Place : Type 0
Place = ℕ × TransactionState × ℕ

abbrev pub place : Client → Place
place c = (c.sockfd, c.ta.state, length c.req_headers)

-- A buffer of the same length.
with_buffer-place :
    (c : Client) (buf : Bytes)
    → length buf ≡ length c.req_headers
    → place (record c { req_headers = buf }) ≡ place c
with_buffer-place c buf h = ap (λ n. (c.sockfd, c.ta.state, n)) h

module _ (before : Place) where
  -- A failure sets an error status, and a payload does not begin at the start of the buffer.
  abbrev pub Owns : Parse → Type 0
  Owns (Parse.more s p r c) = place c ≡ before
  Owns (Parse.failed c) = (place c ≡ before) × (status_is_error c.ta.resp_status ≡ true)
  Owns (Parse.finished p c) = (place c ≡ before) × (0 < p)
  Owns Parse.exhausted = Unit

  abbrev HeaderOwns : Client × Rc → Type 0
  HeaderOwns (c, Rc.ok) = place c ≡ before
  HeaderOwns (c, Rc.fail) = (place c ≡ before) × (status_is_error c.ta.resp_status ≡ true)

  content_length-HeaderOwns :
      (c : Client) (o : Option ℤ) → place c ≡ before → HeaderOwns (parse_header_content_length c o)
  unfolding parse_header_content_length status_is_error
  content_length-HeaderOwns c none e = (e, refl)
  content_length-HeaderOwns c (some n) e =
      if_both HeaderOwns (ltb_ℤ n (pos 0)) (λ _. (e, refl)) (λ _. e)

  call_header-HeaderOwns :
      (f : HeaderFunc) (c : Client) (v : ℕ) → place c ≡ before → HeaderOwns (call_header f c v)
  unfolding call_header
  call_header-HeaderOwns HeaderFunc.content_length c v e =
      content_length-HeaderOwns c (strtonum (string_at c.req_headers v)) e
  call_header-HeaderOwns HeaderFunc.cookie c v e = e
  call_header-HeaderOwns HeaderFunc.range c v e = e
  call_header-HeaderOwns HeaderFunc.if_modified_since c v e = e
  call_header-HeaderOwns HeaderFunc.content_type c v e = e
  call_header-HeaderOwns HeaderFunc.content_disposition c v e = e

  process_header-HeaderOwns :
      (hs : List Header) (c : Client) (name : Bytes) (v : ℕ)
      → place c ≡ before
      → HeaderOwns (process_header hs c name v)
  unfolding process_header
  process_header-HeaderOwns [] c name v e = e
  process_header-HeaderOwns (h ∷ hs) c name v e =
      if_both HeaderOwns (length name == length h.name && str_case_eq name h.name)
        (λ _. call_header-HeaderOwns h.func c v e) (λ _. process_header-HeaderOwns hs c name v e)

  abbrev AllOwn : (Client → ℕ → ℕ → Parse) → Type 0
  AllOwn f = (c : Client) (p r : ℕ) → place c ≡ before → Owns (f c p r)

  module _ (f : Client → ℕ → ℕ → Parse) (all : AllOwn f) where
    head_lf-Owns : (c : Client) (p r : ℕ) → place c ≡ before → Owns (head_lf f c p r)
    unfolding head_lf status_is_error
    head_lf-Owns c p r e =
        if_both Owns (parse_past_end c r) (λ _. e)
          (λ _.
            if_both Owns (not (byte_at c.req_headers r == b'\n')) (λ _. (e, refl))
              (λ _. if_both Owns (r == p) (λ _. all c (r + 1) (r + 1) e) (λ _. (e, omega arith))))

    after_header-Owns : (r : ℕ) (res : Client × Rc) → HeaderOwns res → Owns (after_header f r res)
    after_header-Owns r (c, Rc.fail) e = e
    after_header-Owns r (c, Rc.ok) e = head_lf-Owns c (r + 1) (r + 1) e

    split_header-Owns :
        (c : Client) (p r : ℕ) (o : Option ℕ) → place c ≡ before → Owns (split_header f c p r o)
    unfolding split_header status_is_error
    split_header-Owns c p r none e = (e, refl)
    split_header-Owns c p r (some i) e = after_header-Owns r _ (
        process_header-HeaderOwns headers _ _ _
          (with_buffer-place c _ (length-set c.req_headers (p + i) 0) ∙ e))

    head_found-Owns : (c : Client) (p r : ℕ) → place c ≡ before → Owns (head_found f c p r)
    unfolding head_found
    head_found-Owns c p r e =
        if_both Owns (r == p) (λ _. head_lf-Owns c p (r + 1) e)
          (λ _.
            split_header-Owns (record c { req_headers = set c.req_headers r 0 }) p r
              (strchr (drop p (set c.req_headers r 0)) b':')
              (with_buffer-place c _ (length-set c.req_headers r 0) ∙ e))

    head_line-Owns : (c : Client) (p r : ℕ) → place c ≡ before → Owns (head_line f c p r)
    unfolding head_line
    head_line-Owns c p r e =
        if_both Owns (parse_past_end c (scan b'\r' c.req_headers r)) (λ _. e)
          (λ _. head_found-Owns c p (scan b'\r' c.req_headers r) e)

  head_loop-Owns : (fuel : ℕ) → AllOwn (head_loop fuel)
  unfolding head_loop
  head_loop-Owns zero c p r e = tt
  head_loop-Owns (suc fuel) c p r e = head_line-Owns (head_loop fuel) (head_loop-Owns fuel) c p r e

  req_head-Owns : AllOwn req_head
  unfolding req_head
  req_head-Owns c p r e = head_loop-Owns (head_fuel c) c p r e

  req_head_lf-Owns : AllOwn req_head_lf
  unfolding req_head_lf
  req_head_lf-Owns c p r e =
      head_lf-Owns (head_loop (head_fuel c)) (head_loop-Owns (head_fuel c)) c p r e

  req_version_lf-Owns : AllOwn req_version_lf
  unfolding req_version_lf status_is_error
  req_version_lf-Owns c p r e =
      if_both Owns (parse_past_end c r) (λ _. e)
        (λ _.
          if_both Owns (not (byte_at c.req_headers r == b'\n')) (λ _. (e, refl))
            (λ _. req_head-Owns c (r + 1) (r + 1) e))

  version_known-Owns :
      (c : Client) (r : ℕ) (o : Option HttpVersion) → place c ≡ before → Owns (version_known c r o)
  unfolding version_known status_is_error
  version_known-Owns c r none e = (e, refl)
  version_known-Owns c r (some v) e = req_version_lf-Owns (set_version c v) (r + 1) (r + 1) e

  req_version-Owns : AllOwn req_version
  unfolding req_version version_found status_is_error
  req_version-Owns c p r e =
      let q = scan b'\r' c.req_headers r in
      if_both Owns (parse_past_end c q) (λ _. e)
        (λ _.
          if_both Owns (ltb (q - p) 5 || not (has_prefix (drop p c.req_headers) (codes "HTTP/")))
            (λ _. (e, refl))
            (λ _. version_known-Owns c q (version_of (drop (p + 5) c.req_headers) (q - (p + 5))) e))

  take_query-place : (c : Client) (s : Option ℕ) → place (take_query c s) ≡ place c
  unfolding take_query
  take_query-place c none = refl
  take_query-place c (some s) =
      with_buffer-place c _
        (length-url_decode (set c.req_headers s 0) (s + 1) ∙ length-set c.req_headers s 0)

  path_scanned-Owns :
      (c : Client) (p r : ℕ) (o : Option (Option ℕ))
      → place c ≡ before
      → Owns (path_scanned c p r o)
  unfolding path_scanned path_checked take_path status_is_error
  path_scanned-Owns c p r none e = (e, refl)
  path_scanned-Owns c p r (some s) e =
      let closed = record c { req_headers = set c.req_headers r 0 } in
      let d = take_path (take_query closed s) p in
      let same : place d ≡ before =
        with_buffer-place (take_query closed s) _
          (length-url_decode (take_query closed s).req_headers p)
        ∙ take_query-place closed s
        ∙ with_buffer-place c _ (length-set c.req_headers r 0)
        ∙ e in
      if_both Owns (attempted_path_traversal (string_at d.req_headers p)) (λ _. (same, refl))
        (λ _. req_version-Owns d (r + 1) (r + 1) same)

  req_path-Owns : AllOwn req_path
  unfolding req_path path_found
  req_path-Owns c p r e =
      let q = scan b' ' c.req_headers r in
      if_both Owns (parse_past_end c q) (λ _. e)
        (λ _. path_scanned-Owns c p q (scan_path p none (take (q - p) (drop p c.req_headers))) e)

  method_known-Owns :
      (c : Client) (r : ℕ) (o : Option Method) → place c ≡ before → Owns (method_known c r o)
  unfolding method_known status_is_error
  method_known-Owns c r none e = (e, refl)
  method_known-Owns c r (some m) e = req_path-Owns (set_method c m) (r + 1) (r + 1) e

  req_method-Owns : AllOwn req_method
  unfolding req_method method_found
  req_method-Owns c p r e =
      let q = scan b' ' c.req_headers r in
      if_both Owns (parse_past_end c q) (λ _. e)
        (λ _. method_known-Owns c q (method_of (drop p c.req_headers) (q - p)) e)

  pub parse-Owns : (s : ParseState) (c : Client) (p r : ℕ) → place c ≡ before → Owns (parse s c p r)
  unfolding parse
  parse-Owns ParseState.ps_new c p r e = req_method-Owns c 0 0 e
  parse-Owns ParseState.req_method c p r e = req_method-Owns c p r e
  parse-Owns ParseState.req_path c p r e = req_path-Owns c p r e
  parse-Owns ParseState.req_version c p r e = req_version-Owns c p r e
  parse-Owns ParseState.req_version_lf c p r e = req_version_lf-Owns c p r e
  parse-Owns ParseState.req_head c p r e = req_head-Owns c p r e
  parse-Owns ParseState.req_head_lf c p r e = req_head_lf-Owns c p r e
