-- ===== src/Response/Whole.antt =====
-- `kitserv_http_prepare_response` when everything fits.
use kitserv.Prelude.{
  ℕ, zero, suc, ◌+◌, ◌<◌, ◌≡◌, ◌≢◌, refl, ap, subst, ◌∙◌, ◌⊎◌, inl, inr, false, some, ◌++◌, length,
  codes, arith, append_assoc, length-append, length-take,
}
use kitserv.Prelude.Int.{ℤ, pos, negsuc, ◌+ℤ◌, ◌-ℤ◌}
use kitserv.Cstring.{Bytes}
use kitserv.Status.{status_is_error}
use kitserv.Client.{Client, Rc, Method, TransactionState, http_bufsz}
use kitserv.Buffer.{Alloc}
use kitserv.Send.{is_head}
use kitserv.Response.Text.{crlf, print_int}
use kitserv.Response.Headers.{
  append_headers, stored, header_add, header_add_content_length, headers_len,
}
use kitserv.Response.{
  response_length, success, then_server, then_crlf, end_headers, set_bases, set_start, is_zero,
  or_error, is_hangup, prepare_response,
}
use kitserv.Response.StartLine.{status_line, prepare_resp_start_lem}
use kitserv.Response.Stores.{Stores, Stores-trans, append_headers-Stores, header_add-Stores}
use kitserv.Response.HeaderAdd.{
  Adds, AddsOrNothing, IsFilled, headers_of, header_line, append_headers-Adds,
  header_add-AddsOrNothing,
}

-- A client to which all of a text was added.
abbrev Added : Client → Bytes → (Client × Rc) → Type 0
Added c text r =
    (d : Client) × (r ≡ (d, Rc.ok))
    × IsFilled d
    × (headers_of d ≡ headers_of c ++ text)
    × (headers_len d ≡ headers_len c + length text)

headers_len_lem : (c : Client) → IsFilled c → length (headers_of c) ≡ headers_len c
headers_len_lem c v = omega (arith, v.written, length-take (headers_len c) c.resp_headers)

header_add-Added :
    (c : Client) (key value : Bytes)
    → IsFilled c
    → headers_len c + length (header_line key value) < http_bufsz
    → Added c (header_line key value) (header_add c key value)
header_add-Added c key value v fits =
    go (header_add c key value) (header_add-AddsOrNothing c key value v)
  where
    go :
        (r : Client × Rc)
        → AddsOrNothing c (header_line key value) r
        → Added c (header_line key value) r
    go (d, Rc.fail) (w, h, full, st) = absurd (omega (arith, full, fits))
    go (d, Rc.ok) (w, h, room, st) = (
      d,
      refl,
      w,
      h,
      omega (
        arith,
        headers_len_lem d w,
        headers_len_lem c v,
        ap length h,
        length-append (headers_of c) (header_line key value),
      ),
    )

append_headers-Added :
    (c : Client) (text : Bytes)
    → IsFilled c
    → headers_len c + length text < http_bufsz
    → Added c text (append_headers c text)
append_headers-Added c text v fits = go (append_headers c text) (append_headers-Adds c text v)
  where
    go : (r : Client × Rc) → Adds c text r → Added c text r
    go (d, Rc.fail) (keep, full) = absurd (omega (arith, full, fits))
    go (d, Rc.ok) (w, h, n, st, keep) = (d, refl, w, h, n)

-- `content-length: n`
abbrev pub length_line : ℕ → Bytes
length_line n = header_line (codes "content-length") (print_int (pos n))

abbrev pub server_line : Bytes
server_line = header_line (codes "server") (codes "kitserv")

-- The lines that are added behind the headers, for `n` bytes, with the empty one.
abbrev pub last_lines : ℕ → Bytes
last_lines n = (length_line n ++ server_line) ++ crlf

-- There are `n` bytes to send, from the position `p` on: the rest of the body, or the range of a file.
abbrev pub HasLength : Client → ℕ → ℕ → Type 0
HasLength c p n =
    (c.ta.resp_body_pos ≡ pos p)
    × (((c.ta.resp_fd ≡ pos 0) × (p + n ≡ length c.resp_body.bytes))
        ⊎ ((k : ℕ) × (e : ℕ) × (c.ta.resp_fd ≡ pos (suc k))
            × (c.ta.resp_body_end ≡ pos e)
            × (p + n ≡ e + 1)))

-- A response that is ready to be sent: the three buffers are the first line, the headers with the lines
-- added, and the `n` bytes of the body, if there is no file and the method is not HEAD.
pub record IsPrepared (c : Client) (p n : ℕ) (d : Client) : Type 0 where
  pub state : d.ta.state ≡ TransactionState.send
  pub start : d.resp_start ≡ status_line c
  pub headers : headers_of d ≡ headers_of c ++ last_lines n
  pub first : d.ta.resp_buf0 ≡ record { iov_base = 0; iov_len = length (status_line c) }
  pub second :
      d.ta.resp_buf1 ≡ record { iov_base = 0; iov_len = headers_len c + length (last_lines n) }
  pub body :
      c.ta.resp_fd ≡ pos 0
      → c.ta.req_method ≢ Method.head
      → d.ta.resp_buf2 ≡ record { iov_base = p; iov_len = n }
  pub no_body :
      (c.ta.resp_fd ≢ pos 0) ⊎ (c.ta.req_method ≡ Method.head) → d.ta.resp_buf2 ≡ c.ta.resp_buf2

response_length_lem : (c : Client) (p n : ℕ) → HasLength c p n → response_length c ≡ pos n
unfolding response_length is_zero ◌-ℤ◌ ◌+ℤ◌
response_length_lem c p n (e, inl (f, l)) = rw (e, f) (ground arith)
response_length_lem c p n (e, inr (k, m, f, g, l)) = rw (e, f, g) (ground arith)

is_head_ne : (m : Method) → m ≢ Method.head → is_head m ≡ false
unfolding is_head
is_head_ne Method.unset h = refl
is_head_ne Method.get h = refl
is_head_ne Method.put h = refl
is_head_ne Method.head h = absurd (h refl)
is_head_ne Method.post h = refl
is_head_ne Method.delete h = refl

is_zero_ne : (n : ℤ) → n ≢ pos 0 → is_zero n ≡ false
unfolding is_zero
is_zero_ne (pos zero) h = absurd (h refl)
is_zero_ne (pos (suc n)) h = refl
is_zero_ne (negsuc n) h = refl

set_bases_body :
    (c : Client) (p n : ℕ)
    → HasLength c p n
    → c.ta.resp_fd ≡ pos 0
    → c.ta.req_method ≢ Method.head
    → (set_bases c).ta.resp_buf2 ≡ record { iov_base = p; iov_len = n }
unfolding set_bases is_zero ◌-ℤ◌
set_bases_body c p n (e, inl (f, l)) z m = rw (is_head_ne c.ta.req_method m, e, f) (ground arith)
set_bases_body c p n (e, inr (k, x, f, g, l)) z m = absurd (ground arith)

set_bases_none :
    (c : Client)
    → (c.ta.resp_fd ≢ pos 0) ⊎ (c.ta.req_method ≡ Method.head)
    → (set_bases c).ta.resp_buf2 ≡ c.ta.resp_buf2
unfolding set_bases is_head
set_bases_none c (inl h) = rw (is_zero_ne c.ta.resp_fd h) refl
set_bases_none c (inr h) = rw h (ground arith)

-- The buffers behind the success: `d` is the client with the headers complete.
set_bases-IsPrepared :
    (c d : Client) (p n : ℕ)
    → HasLength c p n
    → d
      ≡ stored (set_start c (status_line c, length (status_line c))) (d.resp_headers, headers_len d)
    → headers_of d ≡ headers_of c ++ last_lines n
    → headers_len d ≡ headers_len c + length (last_lines n)
    → IsPrepared c p n (set_bases d)
unfolding set_bases
set_bases-IsPrepared c d p n h e hs l =
    let base =
      stored (set_start c (status_line c, length (status_line c)))
        (d.resp_headers, headers_len d) in
    record {
      state = refl;
      start = ap (λ z. z.resp_start) e;
      headers = hs;
      first = ap (λ z. record z.ta.resp_buf0 { iov_base = 0 }) e;
      second = ap (λ k. record { iov_base = 0; iov_len = k }) l;
      body = λ f m. ap (λ z. (set_bases z).ta.resp_buf2) e ∙ set_bases_body base p n h f m;
      no_body = λ f. ap (λ z. (set_bases z).ta.resp_buf2) e ∙ set_bases_none base f;
    }

success_lem :
    (c : Client) (p n : ℕ)
    → IsFilled c
    → HasLength c p n
    → headers_len c + length (last_lines n) < http_bufsz
    → (d : Client) × (success c ≡ (d, Rc.ok)) × IsPrepared c p n d
unfolding success header_add_content_length end_headers
success_lem c p n v g fits =
    let s = set_start c (status_line c, length (status_line c)) in
    let l1 = length-append (length_line n) server_line in
    let l2 = length-append (length_line n ++ server_line) crlf in
    let w : IsFilled s = record { written = v.written; room = v.room } in
    let (a, ea, va, ha, na) =
      header_add-Added s (codes "content-length") (print_int (pos n)) w
        (omega (arith, l1, l2, fits)) in
    let (b, eb, vb, hb, nb) =
      header_add-Added a (codes "server") (codes "kitserv") va (omega (arith, l1, l2, fits, na)) in
    let (d, ed, vd, hd, nd) =
      append_headers-Added b crlf vb (omega (arith, l1, l2, fits, na, nb)) in
    let sa : Stores s (a, Rc.ok) =
      subst (Stores s) ea (header_add-Stores s (codes "content-length") (print_int (pos n))) in
    let sb : Stores a (b, Rc.ok) =
      subst (Stores a) eb (header_add-Stores a (codes "server") (codes "kitserv")) in
    let sd : Stores b (d, Rc.ok) = subst (Stores b) ed (append_headers-Stores b crlf) in
    let sc = Stores-trans s a (d, Rc.ok) sa (Stores-trans a b (d, Rc.ok) sb sd) in
    (
      set_bases d,
      ap (λ z. then_server (header_add_content_length z (response_length z)))
            (prepare_resp_start_lem c)
          ∙ ap (λ z. then_server (header_add s (codes "content-length") (print_int z)))
              (response_length_lem s p n g)
          ∙ ap then_server ea
          ∙ ap then_crlf eb
          ∙ ap end_headers ed,
      set_bases-IsPrepared c d p n g sc
          (hd
            ∙ ap (λ z. z ++ crlf)
                (hb
                  ∙ ap (λ z. z ++ server_line) ha
                  ∙ append_assoc (headers_of c) (length_line n) server_line)
            ∙ append_assoc (headers_of c) (length_line n ++ server_line) crlf)
          (omega (arith, l1, l2, na, nb, nd)),
    )

-- A client with well-formed headers, whose status is neither an error nor a hangup, which has `n` bytes to
-- send, the rest of its body or the range of its file, and whose headers have room for the lines that
-- follow: the response is prepared, for any allocator, and is then to be sent. Its first line is the
-- version and the status. Its headers are those that were set, then `content-length` with `n`, `server`
-- and the empty line. The first two buffers are these, in whole, and the third is the `n` bytes of the
-- body, unless there is a file or the method is HEAD, when it stays what it was.
pub prepare_response_fits :
    (realloc : Alloc) (c : Client) (p n : ℕ)
    → IsFilled c
    → is_hangup c.ta.resp_status ≡ false
    → status_is_error c.ta.resp_status ≡ false
    → HasLength c p n
    → headers_len c + length (last_lines n) < http_bufsz
    → (d : Client) × (prepare_response realloc c ≡ some (d, Rc.ok)) × IsPrepared c p n d
unfolding prepare_response
prepare_response_fits realloc c p n v h e g fits =
    let (d, s, st) = success_lem c p n v g fits in (d, rw (h, e) (ap (or_error realloc) s), st)
