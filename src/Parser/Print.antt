-- ===== src/Parser/Print.antt =====
-- Requests as a client writes them, in the switch of `kitserv_http_recv_request` of src/http.c.
use kitserv.Prelude.{
  ℕ, suc, ◌≤◌, ◌≡◌, refl, sym, ap, ◌∙◌, false, Option, none, some, [], ◌∷◌, arith, length, drop,
  length-append, subst,
}
use kitserv.Cstring.{Bytes, cstr, string_at}
use kitserv.Status.{Status}
use kitserv.Client.{Client, cleared, Method, HttpVersion, ParseState}
use kitserv.Traversal.{attempted_path_traversal}
use kitserv.Prelude.Int.{pos}
use kitserv.UrlDecode.{decoded}
use kitserv.Parser.HeaderLine.{header_text}
use kitserv.Parser.Headers.{Seen, At, Sees}
use kitserv.Parser.HeaderLoop.{
  Headers, AreHeaders, headers_text, see_all, EndsHead, head_loop-EndsHead,
}
use kitserv.Parser.{Parse, parse, req_head}
use kitserv.Parser.RequestLine.{IsNamed}
use kitserv.Parser.Target.{IsTarget}
use kitserv.Parser.Line.{
  request_text, behind_line, parse-request_line, decoded_query, done_line, length-done_line,
  behind_line-split, path_At, query_At, behind_line-line_of,
}

-- The string at a pointer.
abbrev pub text_at : Bytes → Option ℕ → Option Bytes
text_at buf none = none
text_at buf (some p) = some (string_at buf p)

text_at-At : (buf : Bytes) (o : Option ℕ) (v : Option Bytes) → At buf o v → text_at buf o ≡ v
text_at-At buf none none h = refl
text_at-At buf none (some v) h = absurd h
text_at-At buf (some p) none h = absurd h
text_at-At buf (some p) (some v) h = ap some h.2

-- The strings of the headers and the length.
abbrev pub HasHeaders : Client → Seen → Type 0
HasHeaders d s =
    (text_at d.req_headers d.ta.req_fresh_cookies ≡ s.cookie)
    × (text_at d.req_headers d.ta.req_range ≡ s.range)
    × (text_at d.req_headers d.ta.req_modified_since ≡ s.modified_since)
    × (text_at d.req_headers d.ta.req_mimetype ≡ s.mimetype)
    × (text_at d.req_headers d.ta.req_disposition ≡ s.disposition)
    × (d.ta.req_content_len ≡ s.content_len)

HasHeaders-Sees : (d : Client) (s : Seen) → Sees d.req_headers d s → HasHeaders d s
HasHeaders-Sees d s h = (
  text_at-At d.req_headers d.ta.req_fresh_cookies s.cookie h.0,
  text_at-At d.req_headers d.ta.req_range s.range h.1,
  text_at-At d.req_headers d.ta.req_modified_since s.modified_since h.2,
  text_at-At d.req_headers d.ta.req_mimetype s.mimetype h.3,
  text_at-At d.req_headers d.ta.req_disposition s.disposition h.4,
  h.5,
)

-- Nothing was seen yet.
abbrev pub unseen : Seen
unseen = record {
  cookie = none;
  range = none;
  modified_since = none;
  mimetype = none;
  disposition = none;
  content_len = pos 0;
}

-- The parser has ended with the parts of a request, and in front of its payload; with nothing seen, the
-- request was refused.
abbrev pub Reads :
    Method → Bytes → Option Bytes → HttpVersion → Option Seen → Bytes → Parse → Type 0
Reads m t o v none payload (Parse.failed d) = d.ta.resp_status ≡ Status.bad_request
Reads m t o v (some s) payload (Parse.finished p d) =
    (d.ta.req_method ≡ m)
    × (text_at d.req_headers d.ta.req_path ≡ some (cstr (decoded t)))
    × (text_at d.req_headers d.ta.req_query ≡ decoded_query o)
    × (d.ta.req_version ≡ v)
    × HasHeaders d s
    × (drop p d.req_headers ≡ payload)
Reads m t o v _ payload _ = ⊥

-- The client of a new transaction, with these bytes received.
abbrev pub starting : Client → Bytes → Client
starting c buf = record c { req_headers = buf; ta = cleared }

behind_line-Sees :
    (c : Client) (m : Method) (t : Bytes) (o : Option Bytes) (v : HttpVersion) (rest pre : Bytes)
    → Sees pre (behind_line (starting c []) m t o v rest) unseen
behind_line-Sees c m t none v rest pre = (tt, tt, tt, tt, tt, refl)
behind_line-Sees c m t (some q) v rest pre = (tt, tt, tt, tt, tt, refl)

module _ (c : Client) (m : Method) (t : Bytes) (o : Option Bytes) (v : HttpVersion)
    (rest payload : Bytes) where
  EndsHead-Reads :
      (s : Option Seen) (r : Parse)
      → EndsHead (done_line m t o v) (behind_line (starting c []) m t o v rest) s payload r
      → Reads m t o v s payload r
  EndsHead-Reads none (Parse.failed d) h = h
  EndsHead-Reads none (Parse.finished p d) h = h
  EndsHead-Reads none (Parse.more ps p r d) h = h
  EndsHead-Reads none Parse.exhausted h = h
  EndsHead-Reads (some s) (Parse.finished p d) h =
      let line = behind_line-line_of (starting c []) m t o v rest in
      let (left, seen, same, kept) = h in
      let path = ap (λ l. l.2) same in
      let query = ap (λ l. l.3) same in
      (
        ap (λ l. l.0) same ∙ line.0,
        ap (λ p. text_at d.req_headers p) path
            ∙ text_at-At d.req_headers _ _ (kept _ _ (path_At (starting c []) m t o v rest)),
        ap (λ p. text_at d.req_headers p) query
            ∙ text_at-At d.req_headers _ _ (kept _ _ (query_At (starting c []) m t o v rest refl)),
        ap (λ l. l.1) same ∙ line.1,
        HasHeaders-Sees d s seen,
        left,
      )
  EndsHead-Reads (some s) (Parse.more ps p r d) h = h
  EndsHead-Reads (some s) (Parse.failed d) h = h
  EndsHead-Reads (some s) Parse.exhausted h = h

length-headers_text : (hs : Headers) (rest : Bytes) → length hs ≤ length (headers_text hs rest)
length-headers_text [] rest = omega arith
length-headers_text ((k, v) ∷ hs) rest = omega (
  arith,
  length-append (header_text k v) (b'\r' ∷ b'\n' ∷ headers_text hs rest),
  length-headers_text hs rest,
)

-- A request that is written with a method of the server, a path and perhaps a query of printable bytes
-- without spaces (and without `?` in the path), a version, headers of printable bytes whose values begin
-- with no space, and any payload is read back, if the decoded path does not go up: the parser ends in front
-- of the payload, with the method, the decoded path and query as strings in the buffer, the version, and
-- for each header that the server reads its last value, whatever the case of its name. Only if a
-- content-length is no number, or a negative one, it fails, with the status 400.
pub parse-request_text :
    (c : Client) (m : Method) (t : Bytes) (o : Option Bytes) (v : HttpVersion) (hs : Headers)
    (payload : Bytes)
    → IsNamed m
    → IsTarget t o
    → attempted_path_traversal (cstr (decoded t)) ≡ false
    → AreHeaders hs
    → Reads m t o v (see_all hs unseen) payload (
        parse ParseState.ps_new
          (starting c (request_text m t o v (headers_text hs (b'\r' ∷ b'\n' ∷ payload))))
          0
          0)
unfolding req_head
parse-request_text c m t o v hs payload n w safe a =
    let rest = headers_text hs (b'\r' ∷ b'\n' ∷ payload) in
    let d = behind_line (starting c []) m t o v rest in
    let whole = behind_line-split (starting c []) m t o v rest in
    let size = ap length whole in
    let ends =
      head_loop-EndsHead hs (suc (length d.req_headers)) d (done_line m t o v) payload unseen a
        (omega (
          arith,
          length-headers_text hs (b'\r' ∷ b'\n' ∷ payload),
          length-append (done_line m t o v) rest,
        ))
        whole (behind_line-Sees c m t o v rest (done_line m t o v)) in
    subst (Reads m t o v (see_all hs unseen) payload)
      (sym (
        parse-request_line (starting c []) m t o v rest n w safe
        ∙ ap (λ k. req_head d k k) (sym (length-done_line m t o v))))
      (EndsHead-Reads c m t o v rest payload (see_all hs unseen) _ ends)
