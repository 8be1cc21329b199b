-- ===== src/Response/HeaderAdd.antt =====
-- What `kitserv_http_header_add` leaves behind.
use kitserv.Prelude.{
  ℕ, zero, suc, ◌+◌, ◌-◌, ◌≤◌, ◌<◌, ◌≡◌, refl, ap, ◌∙◌, inl, inr, Bool-cases, true, false, [], ◌∷◌,
  ◌++◌, length, take, codes, ltb, arith, append_assoc, length-append, length-take, take_all,
}
use kitserv.Cstring.{Bytes}
use kitserv.Status.{Status}
use kitserv.Client.{Client, Rc, http_bufsz}
use kitserv.Response.Text.{crlf}
use kitserv.Response.Headers.{
  append_headers, header_add, headers_len, and_then, checked, str_append,
}

-- The header bytes that count: those before the offset.
abbrev pub headers_of : Client → Bytes
headers_of c = take (headers_len c) c.resp_headers

-- The offset stays inside the bytes written and leaves room for the NUL.
pub record IsFilled (c : Client) : Type 0 where
  pub written : headers_len c ≤ length c.resp_headers
  pub room : headers_len c < http_bufsz

-- An append that succeeds adds the whole text, keeps the bytes before it, and the client is well
-- formed again; one that fails keeps them too.
abbrev pub Adds : Client → Bytes → Client × Rc → Type 0
Adds c text (c', Rc.ok) =
    IsFilled c'
    × (headers_of c' ≡ headers_of c ++ text)
    × (headers_len c' ≡ headers_len c + length text)
    × (c'.ta.resp_status ≡ c.ta.resp_status)
    × ((k : ℕ) → k ≤ headers_len c → take k c'.resp_headers ≡ take k c.resp_headers)
Adds c text (c', Rc.fail) =
    ((k : ℕ) → k ≤ headers_len c → take k c'.resp_headers ≡ take k c.resp_headers)
    × (http_bufsz ≤ headers_len c + length text)

take_whole :
    (n : ℕ) (xs ys : Bytes)
    → n ≤ length xs
    → take (n + length ys) (take n xs ++ ys) ≡ take n xs ++ ys
take_whole n xs ys h =
    take_all (n + length ys) (take n xs ++ ys)
      (omega (arith, length-append (take n xs) ys, length-take n xs))

take_inside :
    (k n : ℕ) (xs ys : Bytes) → k ≤ n → n ≤ length xs → take k (take n xs ++ ys) ≡ take k xs
take_inside zero n xs ys h l = refl
take_inside (suc k) zero xs ys h l = absurd (omega arith)
take_inside (suc k) (suc n) [] ys h l = absurd (omega arith)
take_inside (suc k) (suc n) (x ∷ xs) ys h l =
    ap (◌∷◌ x) (take_inside k n xs ys (omega arith) (omega arith))

ltb-true : (a b : ℕ) → ltb a b ≡ true → a < b
ltb-true a b h = ground arith

ltb-false : (a b : ℕ) → ltb a b ≡ false → b ≤ a
ltb-false a b h = ground arith

pub append_headers-Adds :
    (c : Client) (text : Bytes) → IsFilled c → Adds c text (append_headers c text)
unfolding append_headers str_append
append_headers-Adds c text v = elim (Bool-cases (ltb (length text) (http_bufsz - headers_len c))) [
  | inl fits ↦ rw fits (
    record {
      written = omega (
        arith,
        v.written,
        length-append (take (headers_len c) c.resp_headers) text,
        length-take (headers_len c) c.resp_headers,
      );
      room = omega (arith, ltb-true (length text) (http_bufsz - headers_len c) fits);
    },
    take_whole (headers_len c) c.resp_headers text v.written,
    refl,
    refl,
    λ k h. take_inside k (headers_len c) c.resp_headers text h v.written,
  )
  | inr off ↦
      rw off (
        λ k h. refl,
        omega (arith, v.room, ltb-false (length text) (http_bufsz - headers_len c) off),
      )
]

and_then-Adds :
    (c : Client) (s t : Bytes) (r : Client × Rc) → Adds c s r → Adds c (s ++ t) (and_then r t)
and_then-Adds c s t (c', Rc.fail) (keep, full) = (keep, omega (arith, length-append s t))
and_then-Adds c s t (c', Rc.ok) (v, h, n, st, keep) =
    go (append_headers c' t) (append_headers-Adds c' t v)
  where
    go : (r : Client × Rc) → Adds c' t r → Adds c (s ++ t) r
    go (d, Rc.ok) (v2, h2, n2, st2, keep2) = (
      v2,
      h2 ∙ ap (λ z. z ++ t) h ∙ append_assoc (headers_of c) s t,
      omega (arith, length-append s t, n, n2),
      st2 ∙ st,
      λ k l. keep2 k (omega (arith, n)) ∙ keep k l,
    )
    go (d, Rc.fail) (keep2, full) =
        (λ k l. keep2 k (omega (arith, n)) ∙ keep k l, omega (arith, length-append s t, n))

-- The line of a header.
abbrev pub header_line : Bytes → Bytes → Bytes
header_line key value = ((key ++ codes ": ") ++ value) ++ crlf

-- The whole line, or nothing and 507.
abbrev pub AddsOrNothing : Client → Bytes → Client × Rc → Type 0
AddsOrNothing c text (c', Rc.ok) =
    IsFilled c'
    × (headers_of c' ≡ headers_of c ++ text)
    × (headers_len c + length text < http_bufsz)
    × (c'.ta.resp_status ≡ c.ta.resp_status)
AddsOrNothing c text (c', Rc.fail) =
    IsFilled c'
    × (headers_of c' ≡ headers_of c)
    × (http_bufsz ≤ headers_len c + length text)
    × (c'.ta.resp_status ≡ Status.insufficient_storage)

-- For any well-formed client, key and value, `kitserv_http_header_add` either adds the whole line
-- `key: value` and leaves the status, and it does so when the line and a NUL fit in the 4096 bytes; or,
-- when they do not, the headers stay what they were and the status is 507. Both leave the client well
-- formed.
pub header_add-AddsOrNothing :
    (c : Client) (key value : Bytes)
    → IsFilled c
    → AddsOrNothing c (header_line key value) (header_add c key value)
unfolding header_add checked
header_add-AddsOrNothing c key value v = go _ (
    and_then-Adds c ((key ++ codes ": ") ++ value) crlf _
      (and_then-Adds c (key ++ codes ": ") value _ (append_headers-Adds c (key ++ codes ": ") v)))
  where
    go :
        (r : Client × Rc)
        → Adds c (header_line key value) r
        → AddsOrNothing c (header_line key value) (checked (headers_len c) r)
    go (d, Rc.ok) (v2, h, n, st, keep) = (v2, h, omega (arith, n, v2.room), st)
    go (d, Rc.fail) (keep, full) = (
      record {
        written = omega (
          arith,
          v.written,
          ap length (keep (headers_len c) (omega arith)),
          length-take (headers_len c) d.resp_headers,
          length-take (headers_len c) c.resp_headers,
        );
        room = v.room;
      },
      keep (headers_len c) (omega arith),
      full,
      refl,
    )
