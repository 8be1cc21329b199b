-- ===== src/Parser/Headers.antt =====
-- What the functions of the table of src/http.c take from the headers of a request, against the values as
-- strings.
use kitserv.Prelude.{
  ℕ, ◌≤◌, ◌≡◌, refl, sym, ap, ◌∙◌, true, inl, inr, Bool-cases, Option, none, some, List, [], ◌∷◌,
  ◌++◌, ◌==◌, arith, length, drop, length-append, drop-append, if◌then◌else◌, subst,
}
use kitserv.Prelude.Int.{ℤ, pos, ltb_ℤ}
use kitserv.Cstring.{Bytes, string_at, strtonum, str_case_eq}
use kitserv.Cstring.Laws.{HasNul, cstr-append, string_at-append}
use kitserv.Status.{Status}
use kitserv.Client.{Client, Rc, Method, HttpVersion}
use kitserv.Header.{
  HeaderFunc, Header, headers, call_header, parse_header_content_length, process_header,
}

-- The headers that the server reads, by their values.
pub record Seen : Type 0 where
  pub cookie : Option Bytes
  pub range : Option Bytes
  pub modified_since : Option Bytes
  pub mimetype : Option Bytes
  pub disposition : Option Bytes
  pub content_len : ℤ

-- What a name stands for, in any case.
abbrev pub func_of : List Header → Bytes → Option HeaderFunc
func_of [] k = none
func_of (h ∷ hs) k = if str_case_eq k h.name then some h.func else func_of hs k

abbrev measured : Seen → Option ℤ → Option Seen
measured s none = none
measured s (some n) = if ltb_ℤ n (pos 0) then none else some (record s { content_len = n })

-- The last value of a name counts; a length that is no number is refused.
abbrev pub see : Option HeaderFunc → Bytes → Seen → Option Seen
see none v s = some s
see (some HeaderFunc.cookie) v s = some (record s { cookie = some v })
see (some HeaderFunc.range) v s = some (record s { range = some v })
see (some HeaderFunc.if_modified_since) v s = some (record s { modified_since = some v })
see (some HeaderFunc.content_length) v s = measured s (strtonum v)
see (some HeaderFunc.content_type) v s = some (record s { mimetype = some v })
see (some HeaderFunc.content_disposition) v s = some (record s { disposition = some v })

-- A pointer to a string that ends in these bytes, or NULL.
abbrev pub At : Bytes → Option ℕ → Option Bytes → Type 0
At pre none none = Unit
At pre none (some v) = ⊥
At pre (some p) none = ⊥
At pre (some p) (some v) = (p ≤ length pre) × HasNul (drop p pre) × (string_at pre p ≡ v)

pub At-append :
    (pre more : Bytes) (o : Option ℕ) (v : Option Bytes) → At pre o v → At (pre ++ more) o v
At-append pre more none none h = tt
At-append pre more none (some v) h = h
At-append pre more (some p) none h = h
At-append pre more (some p) (some v) (le, nul, e) = (
  omega (arith, length-append pre more),
  subst HasNul (sym (drop-append p pre more le)) (HasNul-append (drop p pre) more nul),
  string_at-append pre more p le nul ∙ e,
)
  where
    HasNul-append : (xs ys : Bytes) → HasNul xs → HasNul (xs ++ ys)
    HasNul-append xs ys h = omega (arith, ap length (cstr-append xs ys h), length-append xs ys)

-- The client points to what was seen.
abbrev pub Sees : Bytes → Client → Seen → Type 0
Sees pre c s =
    At pre c.ta.req_fresh_cookies s.cookie
    × At pre c.ta.req_range s.range
    × At pre c.ta.req_modified_since s.modified_since
    × At pre c.ta.req_mimetype s.mimetype
    × At pre c.ta.req_disposition s.disposition
    × (c.ta.req_content_len ≡ s.content_len)

pub Sees-append : (pre more : Bytes) (c : Client) (s : Seen) → Sees pre c s → Sees (pre ++ more) c s
Sees-append pre more c s h = (
  At-append pre more c.ta.req_fresh_cookies s.cookie h.0,
  At-append pre more c.ta.req_range s.range h.1,
  At-append pre more c.ta.req_modified_since s.modified_since h.2,
  At-append pre more c.ta.req_mimetype s.mimetype h.3,
  At-append pre more c.ta.req_disposition s.disposition h.4,
  h.5,
)

-- What the request line has set.
abbrev pub line_of : Client → Method × HttpVersion × Option ℕ × Option ℕ
line_of c = (c.ta.req_method, c.ta.req_version, c.ta.req_path, c.ta.req_query)

-- A header was taken: by 0, with what the value adds to what was seen, or it is refused.
abbrev pub Takes : Bytes → Client → Option Seen → Client × Rc → Type 0
Takes pre c none r = (r.1 ≡ Rc.fail) × (r.0.ta.resp_status ≡ Status.bad_request)
Takes pre c (some s) r = (r.1 ≡ Rc.ok) × Sees pre r.0 s × (line_of r.0 ≡ line_of c)

abbrev call_named : Option HeaderFunc → Client → ℕ → Client × Rc
call_named none c p = (c, Rc.ok)
call_named (some f) c p = call_header f c p

str_case_eq-length : (s t : Bytes) → str_case_eq s t ≡ true → length s ≡ length t
unfolding str_case_eq
str_case_eq-length [] [] h = refl
str_case_eq-length [] (y ∷ t) h = absurd (cc)
str_case_eq-length (x ∷ s) [] h = absurd (cc)
str_case_eq-length (x ∷ s) (y ∷ t) h = ground (arith, str_case_eq-length s t)

process_header-named :
    (hs : List Header) (c : Client) (k : Bytes) (p : ℕ)
    → process_header hs c k p ≡ call_named (func_of hs k) c p
unfolding process_header
process_header-named [] c k p = refl
process_header-named (h ∷ hs) c k p = elim (Bool-cases (str_case_eq k h.name)) [
  | inl same ↦
      let size = str_case_eq-length k h.name same in
      let e : (length k == length h.name) ≡ true = ground arith in rw (same, e) refl
  | inr other ↦ ground (arith, other, process_header-named hs c k p)
]

measured-Takes :
    (pre : Bytes) (c : Client) (s : Seen) (o : Option ℤ)
    → Sees pre c s
    → Takes pre c (measured s o) (parse_header_content_length c o)
unfolding parse_header_content_length
measured-Takes pre c s none h = (refl, refl)
measured-Takes pre c s (some n) h = elim (Bool-cases (ltb_ℤ n (pos 0))) [
  | inl negative ↦ rw negative (refl, refl)
  | inr fits ↦ rw fits (refl, (h.0, h.1, h.2, h.3, h.4, refl), refl)
]

module _ (pre rest : Bytes) (c : Client) (s : Seen) (p : ℕ) (v : Bytes)
    (holds : c.req_headers ≡ pre ++ rest) (at : At pre (some p) (some v))
    (seen : Sees pre c s) where
  call_named-Takes : (o : Option HeaderFunc) → Takes pre c (see o v s) (call_named o c p)
  unfolding call_header
  call_named-Takes none = (refl, seen, refl)
  call_named-Takes (some HeaderFunc.cookie) =
      (refl, (at, seen.1, seen.2, seen.3, seen.4, seen.5), refl)
  call_named-Takes (some HeaderFunc.range) =
      (refl, (seen.0, at, seen.2, seen.3, seen.4, seen.5), refl)
  call_named-Takes (some HeaderFunc.if_modified_since) =
      (refl, (seen.0, seen.1, at, seen.3, seen.4, seen.5), refl)
  call_named-Takes (some HeaderFunc.content_length) =
      let text : string_at c.req_headers p ≡ v =
        ap (λ b. string_at b p) holds ∙ string_at-append pre rest p at.0 at.1 ∙ at.2 in
      rw text (measured-Takes pre c s (strtonum v) seen)
  call_named-Takes (some HeaderFunc.content_type) =
      (refl, (seen.0, seen.1, seen.2, at, seen.4, seen.5), refl)
  call_named-Takes (some HeaderFunc.content_disposition) =
      (refl, (seen.0, seen.1, seen.2, seen.3, at, seen.5), refl)

  -- A header whose value stands at `p` is taken by what its name stands for.
  pub process_header-Takes :
      (k : Bytes) → Takes pre c (see (func_of headers k) v s) (process_header headers c k p)
  process_header-Takes k =
      subst (Takes pre c (see (func_of headers k) v s)) (sym (process_header-named headers c k p))
        (call_named-Takes (func_of headers k))
