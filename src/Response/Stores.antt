-- ===== src/Response/Stores.antt =====
-- What an append to the headers, in src/http.c, changes of a client: they and their length, and nothing else.
use kitserv.Prelude.{ℕ, ◌≡◌, refl, ap, ◌∙◌, Option, none, some, ◌++◌, codes}
use kitserv.Cstring.{Bytes}
use kitserv.Client.{Client, Rc, http_bufsz}
use kitserv.Response.Text.{crlf}
use kitserv.Response.Headers.{
  append_headers, appended, and_then, checked, stored, str_append, header_add, headers_len,
}

-- All that an append changes is the headers and their length.
abbrev pub Stores : Client → Client × Rc → Type 0
Stores c (d, Rc.ok) = d ≡ stored c (d.resp_headers, headers_len d)
Stores c (d, Rc.fail) = Unit

pub append_headers-Stores : (c : Client) (text : Bytes) → Stores c (append_headers c text)
unfolding append_headers
append_headers-Stores c text = go (str_append c.resp_headers (headers_len c) http_bufsz text)
  where
    go : (o : Option (Bytes × ℕ)) → Stores c (appended c o)
    go none = tt
    go (some r) = refl

pub Stores-trans :
    (c d : Client) (r : Client × Rc)
    → d ≡ stored c (d.resp_headers, headers_len d)
    → Stores d r
    → Stores c r
Stores-trans c d (e, Rc.ok) h k = k ∙ ap (λ z. stored z (e.resp_headers, headers_len e)) h
Stores-trans c d (e, Rc.fail) h k = tt

and_then-Stores :
    (c : Client) (r : Client × Rc) (text : Bytes) → Stores c r → Stores c (and_then r text)
and_then-Stores c (d, Rc.ok) text h =
    Stores-trans c d (append_headers d text) h (append_headers-Stores d text)
and_then-Stores c (d, Rc.fail) text h = tt

pub header_add-Stores : (c : Client) (key value : Bytes) → Stores c (header_add c key value)
unfolding header_add checked
header_add-Stores c key value =
    let name = key ++ codes ": " in
    let first = append_headers c name in
    go (and_then (and_then first value) crlf) (
      and_then-Stores c (and_then first value) crlf
        (and_then-Stores c first value (append_headers-Stores c name)))
  where
    go : (r : Client × Rc) → Stores c r → Stores c (checked (headers_len c) r)
    go (d, Rc.ok) h = h
    go (d, Rc.fail) h = tt
