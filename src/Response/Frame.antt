-- ===== src/Response/Frame.antt =====
-- What the functions of src/http.c that add headers leave as it was.
use kitserv.Prelude.{ℕ, ◌≡◌, refl, ◌∙◌, Option, none, some, ◌++◌, codes, subst}
use kitserv.Cstring.{Bytes}
use kitserv.Status.{Status}
use kitserv.Client.Kept.{kept}
use kitserv.Client.{Client, Rc}
use kitserv.Response.Text.{crlf}
use kitserv.Response.Headers.{
  str_append, append_headers, appended, and_then, checked, headers_len, header_add,
}

-- The socket, the request, the descriptor and the place of the body are the same.
pub record Keeps (c d : Client) : Type 0 where
  pub same : kept d ≡ kept c
  pub buffer : d.req_headers ≡ c.req_headers
  pub payload : d.ta.req_payload ≡ c.ta.req_payload
  pub payload_pos : d.ta.req_payload_pos ≡ c.ta.req_payload_pos
  pub payload_len : d.ta.req_payload_len ≡ c.ta.req_payload_len
  pub method : d.ta.req_method ≡ c.ta.req_method
  pub fd : d.ta.resp_fd ≡ c.ta.resp_fd
  pub state : d.ta.state ≡ c.ta.state
  pub range : d.ta.range_requested ≡ c.ta.range_requested
  pub body_end : d.ta.resp_body_end ≡ c.ta.resp_body_end

pub Keeps-refl : (c : Client) → Keeps c c
Keeps-refl c = record {
  same = refl;
  buffer = refl;
  payload = refl;
  payload_pos = refl;
  payload_len = refl;
  method = refl;
  fd = refl;
  state = refl;
  range = refl;
  body_end = refl;
}

pub Keeps-trans : (a b c : Client) → Keeps a b → Keeps b c → Keeps a c
Keeps-trans a b c p q = record {
  same = q.same ∙ p.same;
  buffer = q.buffer ∙ p.buffer;
  payload = q.payload ∙ p.payload;
  payload_pos = q.payload_pos ∙ p.payload_pos;
  payload_len = q.payload_len ∙ p.payload_len;
  method = q.method ∙ p.method;
  fd = q.fd ∙ p.fd;
  state = q.state ∙ p.state;
  range = q.range ∙ p.range;
  body_end = q.body_end ∙ p.body_end;
}

appended-Keeps : (c : Client) (o : Option (Bytes × ℕ)) → Keeps c (appended c o).0
appended-Keeps c none = Keeps-refl c
appended-Keeps c (some r) = record {
  same = refl;
  buffer = refl;
  payload = refl;
  payload_pos = refl;
  payload_len = refl;
  method = refl;
  fd = refl;
  state = refl;
  range = refl;
  body_end = refl;
}

pub append_headers-Keeps : (c : Client) (text : Bytes) → Keeps c (append_headers c text).0
unfolding append_headers
append_headers-Keeps c text = appended-Keeps c (str_append c.resp_headers (headers_len c) 4096 text)

and_then-Keeps :
    (c : Client) (r : Client × Rc) (text : Bytes) → Keeps c r.0 → Keeps c (and_then r text).0
and_then-Keeps c (d, Rc.ok) text h = Keeps-trans c d _ h (append_headers-Keeps d text)
and_then-Keeps c (d, Rc.fail) text h = h

checked-Keeps : (c : Client) (n : ℕ) (r : Client × Rc) → Keeps c r.0 → Keeps c (checked n r).0
unfolding checked
checked-Keeps c n (d, Rc.ok) h = h
checked-Keeps c n (d, Rc.fail) h = record {
  same = h.same;
  buffer = h.buffer;
  payload = h.payload;
  payload_pos = h.payload_pos;
  payload_len = h.payload_len;
  method = h.method;
  fd = h.fd;
  state = h.state;
  range = h.range;
  body_end = h.body_end;
}

pub header_add-Keeps : (c : Client) (key value : Bytes) → Keeps c (header_add c key value).0
unfolding header_add
header_add-Keeps c key value =
    let name = key ++ codes ": " in
    let first = append_headers c name in
    checked-Keeps c (headers_len c) (and_then (and_then first value) crlf) (
      and_then-Keeps c (and_then first value) crlf
        (and_then-Keeps c first value (append_headers-Keeps c name)))

appended-status :
    (c : Client) (o : Option (Bytes × ℕ)) → (appended c o).0.ta.resp_status ≡ c.ta.resp_status
appended-status c none = refl
appended-status c (some r) = refl

pub append_headers-status :
    (c : Client) (text : Bytes) → (append_headers c text).0.ta.resp_status ≡ c.ta.resp_status
unfolding append_headers
append_headers-status c text =
    appended-status c (str_append c.resp_headers (headers_len c) 4096 text)

and_then-status :
    (r : Client × Rc) (text : Bytes) → (and_then r text).0.ta.resp_status ≡ r.0.ta.resp_status
and_then-status (d, Rc.ok) text = append_headers-status d text
and_then-status (d, Rc.fail) text = refl

-- The status is the same behind 0, and 507 behind -1.
abbrev pub StatusOf : Status → Client × Rc → Type 0
StatusOf s (d, Rc.ok) = d.ta.resp_status ≡ s
StatusOf s (d, Rc.fail) = d.ta.resp_status ≡ Status.insufficient_storage

checked-StatusOf : (n : ℕ) (r : Client × Rc) → StatusOf r.0.ta.resp_status (checked n r)
unfolding checked
checked-StatusOf n (d, Rc.ok) = refl
checked-StatusOf n (d, Rc.fail) = refl

pub header_add-StatusOf :
    (c : Client) (key value : Bytes) → StatusOf c.ta.resp_status (header_add c key value)
unfolding header_add
header_add-StatusOf c key value =
    let first = append_headers c (key ++ codes ": ") in
    subst (λ s. StatusOf s (checked (headers_len c) (and_then (and_then first value) crlf)))
      (and_then-status (and_then first value) crlf
        ∙ and_then-status first value
        ∙ append_headers-status c (key ++ codes ": "))
      (checked-StatusOf (headers_len c) (and_then (and_then first value) crlf))
