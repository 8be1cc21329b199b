-- ===== src/Parser/HeaderLoop.antt =====
-- The headers of a request, one line after the other, in the switch of `kitserv_http_recv_request` of
-- src/http.c.
use kitserv.Prelude.{
  ℕ, zero, suc, ◌+◌, ◌<◌, ◌≡◌, refl, sym, ap, ◌∙◌, Option, none, some, List, [], ◌∷◌, ◌++◌, arith,
  length, drop, length-append, append_assoc, drop-length, length-drop, drop-add, subst,
}
use kitserv.Cstring.{Bytes, cstr, steps_to}
use kitserv.Cstring.Laws.{HasNul}
use kitserv.Status.{Status}
use kitserv.Client.{Client, Rc}
use kitserv.Header.{headers, process_header, process_header-req_headers}
use kitserv.UrlDecode.Place.{cstr-append_nul}
use kitserv.Parser.{Parse, scan, head_loop, head_line, head_found, head_lf, after_header}
use kitserv.Parser.RequestLine.{holding, drop-behind}
use kitserv.Parser.HeaderLine.{
  IsName, IsValue, header_text, split_line, head_line-header, cstr-IsText,
}
use kitserv.Parser.Headers.{
  Seen, func_of, see, At, At-append, Sees, Sees-append, line_of, Takes, process_header-Takes,
}

-- A name and a value for each header.
abbrev pub Headers : Type 0
Headers = List (Bytes × Bytes)

abbrev pub AreHeaders : Headers → Type 0
AreHeaders [] = Unit
AreHeaders ((k, v) ∷ hs) = IsName k × IsValue v × AreHeaders hs

-- The lines of the headers, in front of the rest.
abbrev pub headers_text : Headers → Bytes → Bytes
headers_text [] rest = rest
headers_text ((k, v) ∷ hs) rest = header_text k v ++ b'\r' ∷ b'\n' ∷ headers_text hs rest

abbrev pub then_see : (Seen → Option Seen) → Option Seen → Option Seen
then_see next none = none
then_see next (some s) = next s

-- What all of them add, in order.
abbrev pub see_all : Headers → Seen → Option Seen
see_all [] s = some s
see_all ((k, v) ∷ hs) s = then_see (λ t. see_all hs t) (see (func_of headers k) v s)

-- The head has ended in front of the payload, with what was seen; the request line and the strings in
-- the first bytes are as they were. Or a header was refused.
abbrev pub EndsHead : Bytes → Client → Option Seen → Bytes → Parse → Type 0
EndsHead pre c none payload (Parse.failed d) = d.ta.resp_status ≡ Status.bad_request
EndsHead pre c (some s) payload (Parse.finished p d) =
    (drop p d.req_headers ≡ payload)
    × Sees d.req_headers d s
    × (line_of d ≡ line_of c)
    × ((o : Option ℕ) (v : Option Bytes) → At pre o v → At d.req_headers o v)
EndsHead pre c _ payload _ = ⊥

-- An empty line ends the head.
empty_line :
    (next : Client → ℕ → ℕ → Parse) (c : Client) (p : ℕ) (payload : Bytes)
    → drop p c.req_headers ≡ b'\r' ∷ b'\n' ∷ payload
    → head_line next c p p ≡ Parse.finished (p + 2) c
unfolding head_line head_found head_lf steps_to
empty_line next c p payload e =
    let stop : scan b'\r' c.req_headers p ≡ p = ap (λ b. p + steps_to b'\r' b) e ∙ omega arith in
    let size = ap length e in
    let inside : p + 1 < length c.req_headers = omega (arith, length-drop p c.req_headers) in
    let behind : drop (p + 1) c.req_headers ≡ b'\n' ∷ payload =
      drop-add p 1 c.req_headers ∙ ap (λ b. drop 1 b) e in
    rw stop (ground (arith, behind, inside))

empty_line-EndsHead :
    (next : Client → ℕ → ℕ → Parse) (c : Client) (pre : Bytes) (s : Seen) (payload : Bytes)
    → Sees pre c s
    → EndsHead pre c
        (some s)
        payload
        (head_line next (holding c (pre ++ b'\r' ∷ b'\n' ∷ payload)) (length pre) (length pre))
empty_line-EndsHead next c pre s payload h =
    let tail = b'\r' ∷ b'\n' ∷ payload in
    let ends =
      empty_line next (holding c (pre ++ tail)) (length pre) payload (drop-length pre tail) in
    subst (EndsHead pre c (some s) payload) (sym ends) (
      drop-behind pre tail 2,
      Sees-append pre tail (holding c (pre ++ tail)) s h,
      refl,
      λ o v a. At-append pre tail o v a,
    )

-- The bytes of a line that was split, with its line feed.
abbrev line_done : Bytes → Bytes → Bytes
line_done k v = k ++ 0 ∷ b' ' ∷ (v ++ 0 ∷ b'\n' ∷ [])

line_done-append :
    (pre k v rest : Bytes) → pre ++ split_line k v rest ≡ (pre ++ line_done k v) ++ rest
line_done-append pre k v rest =
    ap (λ z. pre ++ (k ++ 0 ∷ b' ' ∷ z)) (sym (append_assoc v (0 ∷ b'\n' ∷ []) rest))
    ∙ ap (λ z. pre ++ z) (sym (append_assoc k (0 ∷ b' ' ∷ (v ++ 0 ∷ b'\n' ∷ [])) rest))
    ∙ sym (append_assoc pre (line_done k v) rest)

length-line_done :
    (pre k v : Bytes) → length (pre ++ line_done k v) ≡ length pre + length (header_text k v) + 2
length-line_done pre k v = omega (
  arith,
  length-append pre (line_done k v),
  length-append k (0 ∷ b' ' ∷ (v ++ 0 ∷ b'\n' ∷ [])),
  length-append v (0 ∷ b'\n' ∷ []),
  length-append k (b':' ∷ b' ' ∷ v),
)

-- The line feed behind a line that was split.
line_feed_at :
    (pre k v rest : Bytes)
    → drop (length pre + length (header_text k v) + 1) (pre ++ split_line k v rest) ≡ b'\n' ∷ rest
line_feed_at pre k v rest =
    let front = k ++ 0 ∷ b' ' ∷ (v ++ 0 ∷ []) in
    let post = b'\n' ∷ rest in
    let split : split_line k v rest ≡ front ++ post =
      ap (λ z. k ++ 0 ∷ b' ' ∷ z) (sym (append_assoc v (0 ∷ []) post))
      ∙ sym (append_assoc k (0 ∷ b' ' ∷ (v ++ 0 ∷ [])) post) in
    let size : length (header_text k v) + 1 ≡ length front + 0 = omega (
      arith,
      length-append k (b':' ∷ b' ' ∷ v),
      length-append k (0 ∷ b' ' ∷ (v ++ 0 ∷ [])),
      length-append v (0 ∷ []),
    ) in
    ap (λ i. drop i (pre ++ split_line k v rest)) (omega arith)
    ∙ drop-behind pre (split_line k v rest) (length (header_text k v) + 1)
    ∙ ap (λ z. drop (length (header_text k v) + 1) z) split
    ∙ ap (λ i. drop i (front ++ post)) size
    ∙ drop-behind front post 0

-- The value stands in the bytes of its line.
value-At :
    (pre k v : Bytes)
    → IsValue v
    → At (pre ++ line_done k v) (some (length pre + length k + 2)) (some v)
value-At pre k v w =
    let close = v ++ 0 ∷ b'\n' ∷ [] in
    let at : drop (length pre + length k + 2) (pre ++ line_done k v) ≡ close =
      ap (λ i. drop i (pre ++ line_done k v)) (omega arith)
      ∙ drop-behind pre (line_done k v) (length k + 2)
      ∙ drop-behind k (0 ∷ b' ' ∷ close) 2 in
    let text = cstr-append_nul v (b'\n' ∷ []) ∙ cstr-IsText v w.0 in
    let size = length-append v (0 ∷ b'\n' ∷ []) in
    (
      omega (arith, length-line_done pre k v, length-append k (b':' ∷ b' ' ∷ v)),
      subst HasNul (sym at) (omega (arith, ap length text, size)),
      ap cstr at ∙ text,
    )

line_feed :
    (next : Client → ℕ → ℕ → Parse) (d : Client) (r : ℕ) (post : Bytes)
    → drop (r + 1) d.req_headers ≡ b'\n' ∷ post
    → head_lf next d (r + 1) (r + 1) ≡ next d (r + 2) (r + 2)
unfolding head_lf
line_feed next d r post e =
    let size = ap length e in
    let inside : r + 1 < length d.req_headers = omega (arith, length-drop (r + 1) d.req_headers) in
    ground (arith, e, inside)

-- What ends behind a line has ended before it.
EndsHead-earlier :
    (pre done : Bytes) (c d : Client) (o : Option Seen) (payload : Bytes) (r : Parse)
    → line_of d ≡ line_of c
    → EndsHead (pre ++ done) d o payload r
    → EndsHead pre c o payload r
EndsHead-earlier pre done c d none payload (Parse.failed x) e h = h
EndsHead-earlier pre done c d none payload (Parse.finished p x) e h = h
EndsHead-earlier pre done c d none payload (Parse.more t p r x) e h = h
EndsHead-earlier pre done c d none payload Parse.exhausted e h = h
EndsHead-earlier pre done c d (some s) payload (Parse.finished p x) e h =
    (h.0, h.1, h.2 ∙ e, λ o v a. h.3 o v (At-append pre done o v a))
EndsHead-earlier pre done c d (some s) payload (Parse.more t p r x) e h = h
EndsHead-earlier pre done c d (some s) payload (Parse.failed x) e h = h
EndsHead-earlier pre done c d (some s) payload Parse.exhausted e h = h

module _ (next : Client → ℕ → ℕ → Parse) (c : Client) (pre k v rest payload : Bytes) (hs : Headers)
    (later : (d : Client) (t : Seen)
      → d.req_headers ≡ (pre ++ line_done k v) ++ rest
      → Sees (pre ++ line_done k v) d t
      → EndsHead
          (pre ++ line_done k v)
          d
          (see_all hs t)
          payload
          (next d (length (pre ++ line_done k v)) (length (pre ++ line_done k v)))) where
  after_header-EndsHead :
      (o : Option Seen) (r : Client × Rc)
      → r.0.req_headers ≡ (pre ++ line_done k v) ++ rest
      → Takes (pre ++ line_done k v) c o r
      → EndsHead pre c
          (then_see (λ t. see_all hs t) o)
          payload
          (after_header next (length pre + length (header_text k v)) r)
  after_header-EndsHead none (d, Rc.fail) e h = h.1
  after_header-EndsHead none (d, Rc.ok) e h = absurd (cc)
  after_header-EndsHead (some t) (d, Rc.fail) e h = absurd (cc)
  after_header-EndsHead (some t) (d, Rc.ok) e h =
      let size = length-line_done pre k v in
      let at : drop (length pre + length (header_text k v) + 1) d.req_headers ≡ b'\n' ∷ rest =
        ap (λ b. drop (length pre + length (header_text k v) + 1) b)
          (e ∙ sym (line_done-append pre k v rest))
        ∙ line_feed_at pre k v rest in
      subst (EndsHead pre c (see_all hs t) payload)
        (sym (
          line_feed next d (length pre + length (header_text k v)) rest at
          ∙ ap (λ n. next d n n) (sym size)))
        (EndsHead-earlier pre (line_done k v) c d (see_all hs t) payload _ h.2 (later d t e h.1))

-- The headers of a request are taken one after the other.
pub head_loop-EndsHead :
    (hs : Headers) (fuel : ℕ) (c : Client) (pre payload : Bytes) (s : Seen)
    → AreHeaders hs
    → length hs < fuel
    → c.req_headers ≡ pre ++ headers_text hs (b'\r' ∷ b'\n' ∷ payload)
    → Sees pre c s
    → EndsHead pre c (see_all hs s) payload (head_loop fuel c (length pre) (length pre))
unfolding head_loop
head_loop-EndsHead hs zero c pre payload s a f e h = absurd (omega arith)
head_loop-EndsHead [] (suc fuel) c pre payload s a f e h =
    subst
      (λ b.
        EndsHead pre c (some s) payload
          (head_line (head_loop fuel) (holding c b) (length pre) (length pre)))
      (sym e) (empty_line-EndsHead (head_loop fuel) c pre s payload h)
head_loop-EndsHead ((k, v) ∷ hs) (suc fuel) c pre payload s a f e h =
    let rest = headers_text hs (b'\r' ∷ b'\n' ∷ payload) in
    let cut = holding c (pre ++ split_line k v rest) in
    let whole = line_done-append pre k v rest in
    let r = process_header headers cut k (length pre + length k + 2) in
    let takes =
      process_header-Takes (pre ++ line_done k v) rest cut s (length pre + length k + 2) v whole
        (value-At pre k v a.1) (Sees-append pre (line_done k v) cut s h) k in
    subst
      (λ b.
        EndsHead pre c (see_all ((k, v) ∷ hs) s) payload
          (head_line (head_loop fuel) (holding c b) (length pre) (length pre)))
      (sym e)
      (subst (EndsHead pre c (see_all ((k, v) ∷ hs) s) payload)
        (sym (head_line-header (head_loop fuel) c pre k v rest a.0 a.1))
        (after_header-EndsHead (head_loop fuel) c pre k v rest payload hs
          (λ d t e' h'.
            head_loop-EndsHead hs fuel d (pre ++ line_done k v) payload t a.2 (omega arith) e' h')
          (see (func_of headers k) v s) r
          (process_header-req_headers headers cut k (length pre + length k + 2) ∙ whole) takes))
