-- ===== src/Parser/ResumeHead.antt =====
-- Resuming inside the request head.
use kitserv.Prelude.{
  ℕ, zero, suc, ◌+◌, ◌-◌, ◌≤◌, ◌<◌, ◌≡◌, refl, ap, ◌∙◌, inl, inr, true, Option, none, some, ◌&&◌,
  arith, ◌==◌, leb, length, drop, set, length-set, length-append, set-append, drop-append,
  length-drop, List, [], ◌∷◌, ◌++◌, Bool-cases,
}
use kitserv.Prelude.Int.{ℤ, pos, ltb_ℤ}
use kitserv.Cstring.{Bytes, byte_at, string_at, strtonum, str_case_eq}
use kitserv.Cstring.Laws.{
  byte_at-append, HasNul, strchr-append, strchr-cases, HasNul-drop, string_at-append,
  byte_at-set_zero, byte_at-set_self, length-string_at-le, byte_at-drop,
}
use kitserv.Client.{Client, ParseState, Rc, received}
use kitserv.Header.{
  Header, HeaderFunc, headers, parse_header_content_length, process_header,
  process_header-req_headers, call_header,
}
use kitserv.Parser.{
  Parse, head_lf, after_header, split_header, head_found, head_line, head_loop, head_fuel, req_head,
  req_head_lf, skip_blanks, parse,
}
use kitserv.Parser.Fuel.{head_lf-cong, head_line-cong, head_loop_fuel}
use kitserv.Parser.Resume.{resume, resume-stage}

module _ (m : Bytes) where
  abbrev lift : Client × Rc → Client × Rc
  lift (c, rc) = (received c m, rc)

  content_length-received :
      (c : Client) (o : Option ℤ)
      → parse_header_content_length (received c m) o ≡ lift (parse_header_content_length c o)
  unfolding parse_header_content_length
  content_length-received c none = refl
  content_length-received c (some n) = elim (Bool-cases (ltb_ℤ n (pos 0))) [
    | inl e ↦ rw e
    | inr e ↦ rw e
  ]

  call_header-received :
      (f : HeaderFunc) (c : Client) (v : ℕ)
      → v ≤ length c.req_headers
      → HasNul (drop v c.req_headers)
      → call_header f (received c m) v ≡ lift (call_header f c v)
  unfolding call_header
  call_header-received HeaderFunc.cookie c v h n = refl
  call_header-received HeaderFunc.content_length c v h n =
      rw (string_at-append c.req_headers m v h n)
        (content_length-received c (strtonum (string_at c.req_headers v)))
  call_header-received _ c v h n = refl

  process_header-received :
      (hs : List Header) (c : Client) (name : Bytes) (v : ℕ)
      → v ≤ length c.req_headers
      → HasNul (drop v c.req_headers)
      → process_header hs (received c m) name v ≡ lift (process_header hs c name v)
  unfolding process_header
  process_header-received [] c name v h n = refl
  process_header-received (x ∷ hs) c name v h n =
      elim (Bool-cases (length name == length x.name && str_case_eq name x.name)) [
        | inl e ↦ rw e (call_header-received x.func c v h n)
        | inr e ↦ rw e (process_header-received hs c name v h n)
      ]

  skip_blanks-append :
      (xs : Bytes) (k : ℕ)
      → byte_at xs k ≡ 0
      → k < length xs
      → (skip_blanks (xs ++ m) ≡ skip_blanks xs) × (skip_blanks xs ≤ k)
  unfolding skip_blanks
  skip_blanks-append [] k e h = absurd (omega arith)
  skip_blanks-append (x ∷ xs) zero e h = ground arith
  skip_blanks-append (x ∷ xs) (suc k) e h = ground (arith, skip_blanks-append xs k e)

  -- The loop with fuel for the longer buffer, on lines past `r`, against the resumed one.
  abbrev Resumes : ℕ → ℕ → ℕ → ℕ → Type 0
  Resumes a b l r =
      (c : Client) (q : ℕ)
      → length c.req_headers ≡ l
      → r < q
      → q ≤ l
      → head_loop b (received c m) q q ≡ resume m (head_loop a c q q)

  head_lf_stop :
      (f : Client → ℕ → ℕ → Parse) (c : Client) (p r : ℕ)
      → leb (length c.req_headers) r ≡ true
      → head_lf f c p r ≡ Parse.more ParseState.req_head_lf p r c
  unfolding head_lf
  head_lf_stop f c p r h = rw h

  whole : (c : Client) → length (c.req_headers ++ m) ≡ length c.req_headers + length m
  whole c = length-append c.req_headers m

  module _ (a b : ℕ) where
    pub head_lf-resume :
        (c : Client) (p r : ℕ)
        → r ≤ length c.req_headers
        → length c.req_headers + length m < b + (r + 1)
        → Resumes a b (length c.req_headers) r
        → head_lf (head_loop b) (received c m) p r ≡ resume m (head_lf (head_loop a) c p r)
    unfolding resume head_lf
    head_lf-resume c p r k f n = elim (Bool-cases (leb (length c.req_headers) r)) [
      | inl stop ↦
          let e : r ≡ length c.req_headers = ground arith in
          rw (head_lf_stop (head_loop a) c p r stop) (
            unfold parse req_head_lf in
            head_lf-cong (head_loop b) (head_loop (head_fuel (received c m))) (received c m) p r
              (λ d q x lt le.
                head_loop_fuel b (head_fuel (received c m)) d q q (omega arith)
                  (omega (arith, whole c)) (omega (arith, whole c))))
      | inr go ↦
          rw (go, byte_at-append c.req_headers m r (ground arith))
            (unfold head_lf in ground (arith, whole c, n c (r + 1)))
    ]

    after_header-resume :
        (l r : ℕ) (res : Client × Rc)
        → length res.0.req_headers ≡ l
        → r < l
        → l + length m < b + (r + 1)
        → Resumes a b l r
        → after_header (head_loop b) r (lift res) ≡ resume m (after_header (head_loop a) r res)
    unfolding resume
    after_header-resume l r (c, Rc.fail) e k f n = refl
    after_header-resume l r (c, Rc.ok) e k f n =
        head_lf-resume c (r + 1) (r + 1) (omega arith) (omega arith)
          (λ d q x lt le. n d q (omega arith) (omega arith) (omega arith))

    -- The line is closed by the NUL at `r`.
    split_header-resume :
        (c : Client) (p r i : ℕ)
        → byte_at c.req_headers r ≡ 0
        → r < length c.req_headers
        → p + i < r
        → length c.req_headers + length m < b + (r + 1)
        → Resumes a b (length c.req_headers) r
        → split_header (head_loop b) (received c m) p r (some i)
          ≡ resume m (split_header (head_loop a) c p r (some i))
    unfolding split_header
    split_header-resume c p r i z k s f n =
        let buf = set c.req_headers (p + i) 0 in
        let c' = record c { req_headers = buf } in
        let same : length buf ≡ length c.req_headers = length-set c.req_headers (p + i) 0 in
        let nul : byte_at buf r ≡ 0 = byte_at-set_zero c.req_headers (p + i) r z in
        let blanks =
          skip_blanks-append (drop (p + i + 1) buf) (r - (p + i + 1))
            (byte_at-drop buf (p + i + 1) r (omega arith) ∙ nul)
            (omega (arith, length-drop {0} (p + i + 1) buf)) in
        let value = p + i + 1 + skip_blanks (drop (p + i + 1) buf) in
        rw
          (
            set-append c.req_headers m (p + i) 0 (omega arith),
            drop-append (p + i + 1) buf m (omega arith),
            blanks.0,
            string_at-append buf m p (omega arith)
                (HasNul-drop buf p r nul (omega arith) (omega arith)),
            process_header-received headers c' (string_at buf p) value (omega (arith, blanks.1))
                (HasNul-drop buf value r nul (omega (arith, blanks.1)) (omega arith)),
          )
          (after_header-resume (length c.req_headers) r _
            (ap length (process_header-req_headers headers c' (string_at buf p) value) ∙ same) k f
            n)

    head_found-resume :
        (c : Client) (p r : ℕ)
        → p ≤ r
        → r < length c.req_headers
        → length c.req_headers + length m < b + (r + 1)
        → Resumes a b (length c.req_headers) r
        → head_found (head_loop b) (received c m) p r ≡ resume m (head_found (head_loop a) c p r)
    unfolding head_found
    head_found-resume c p r h k f n = elim (Bool-cases (r == p)) [
      | inl e ↦ rw e (
          head_lf-resume c p (r + 1) (omega arith) (omega arith)
            (λ d q x lt le. n d q x (omega arith) le))
      | inr e ↦ rw e (
          let buf = set c.req_headers r 0 in
          let c' = record c { req_headers = buf } in
          let same : length buf ≡ length c.req_headers = length-set c.req_headers r 0 in
          let nul : byte_at buf r ≡ 0 = byte_at-set_self c.req_headers r 0 k in
          rw
            (
              set-append c.req_headers m r 0 k,
              drop-append p buf m (omega arith),
              strchr-append (drop p buf) m b':' (HasNul-drop buf p r nul h (omega arith)),
            )
            (elim (strchr-cases (drop p buf) b':' (omega arith)) [
              | inl absent ↦ rw absent (unfold split_header resume in refl)
              | inr (i, found, lt) ↦ rw found (
                  split_header-resume c' p r i nul (omega arith)
                    (omega (arith, length-string_at-le buf p r nul h (omega arith))) (omega arith)
                    (λ d q x l le. n d q (omega arith) l (omega arith)))
            ]))
    ]

    head_line-resume :
        (c : Client) (p r : ℕ)
        → p ≤ r
        → r ≤ length c.req_headers
        → length c.req_headers + length m < b + (r + 1)
        → Resumes a b (length c.req_headers) r
        → head_line (head_loop b) (received c m) p r ≡ resume m (head_line (head_loop a) c p r)
    unfolding head_line
    head_line-resume c p r h k f n =
        resume-stage m b'\r' ParseState.req_head (head_found (head_loop a))
          (head_found (head_loop b)) c p r k
          (λ e re lt.
            head_found-resume c p e (omega arith) lt (omega arith)
              (λ d q x l le. n d q x (omega arith) le))
          (λ e end.
            unfold parse req_head head_loop in
            head_line-cong (head_loop b) (head_loop (length (c.req_headers ++ m))) (received c m) p
              e (omega (arith, whole c))
              (λ d q x lt le.
                head_loop_fuel b (length (c.req_headers ++ m)) d q q (omega arith)
                  (omega (arith, whole c)) (omega (arith, whole c))))

pub head_loop-resume :
    (m : Bytes) (a b : ℕ) (c : Client) (p r : ℕ)
    → p ≤ r
    → r ≤ length c.req_headers
    → length c.req_headers < a + r
    → length c.req_headers + length m < b + r
    → head_loop b (received c m) p r ≡ resume m (head_loop a c p r)
unfolding head_loop
head_loop-resume m zero b c p r h k f g = absurd (omega arith)
head_loop-resume m (suc a) zero c p r h k f g = absurd (omega arith)
head_loop-resume m (suc a) (suc b) c p r h k f g =
    head_line-resume m a b c p r h k (omega arith) (λ d q x lt le.
      head_loop-resume m a b d q q (omega arith) (omega arith) (omega arith) (omega arith))
