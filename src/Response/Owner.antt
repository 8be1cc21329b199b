-- ===== src/Response/Owner.antt =====
-- The socket of the client in `kitserv_http_prepare_response` of src/http.c.
use kitserv.Prelude.{
  ltb, ◌≡◌, refl, ap, ◌∙◌, Bool, true, Option, none, some, ◌==◌, length, ◌-◌, take, codes, if_both,
}
use kitserv.Cstring.{Bytes}
use kitserv.Status.{Status, status_is_error}
use kitserv.Client.Kept.{Kept, kept, kept_status}
use kitserv.Client.{Client, Rc}
use kitserv.Buffer.{Alloc, Appended, buffer_append}
use kitserv.Send.{close_fd_to_zero}
use kitserv.Send.Owner.{close_fd_to_zero-kept_status}
use kitserv.Response.Text.{crlf, error_text, print_int}
use kitserv.Response.Headers.{
  append_headers, header_add, header_add_content_length, header_add_content_type, header_add_allow,
  allow_body,
}
use kitserv.Response.Frame.{
  append_headers-Keeps, append_headers-status, header_add-Keeps, StatusOf, header_add-StatusOf,
}
use kitserv.Response.{
  prepare_resp_start, response_length, success, then_server, then_crlf, end_headers, set_bases,
  or_error, is_hangup, error_response, then_success, then_body, then_path, path_text, emptied,
  body_text, wiped, body_appended, append_body, is_method_not_allowed, prepare_error_response_body,
  prepare_error_response_headers, prepare_response,
}

module _ (before : Kept) (bad : Bool) where
  -- What is kept, and an error status if there was one.
  abbrev pub Holds : Client → Type 0
  Holds c = (kept c ≡ before) × (bad ≡ true → status_is_error c.ta.resp_status ≡ true)

  append_headers-Holds : (c : Client) (text : Bytes) → Holds c → Holds (append_headers c text).0
  append_headers-Holds c text e = (
    (append_headers-Keeps c text).same ∙ e.0,
    λ b. ap status_is_error (append_headers-status c text) ∙ e.1 b,
  )

  header_add-Holds : (c : Client) (key value : Bytes) → Holds c → Holds (header_add c key value).0
  unfolding status_is_error
  header_add-Holds c key value e = (
    (header_add-Keeps c key value).same ∙ e.0,
    λ b. status_of (header_add c key value) (header_add-StatusOf c key value) (e.1 b),
  )
    where
      status_of :
          (r : Client × Rc)
          → StatusOf c.ta.resp_status r
          → status_is_error c.ta.resp_status ≡ true
          → status_is_error r.0.ta.resp_status ≡ true
      status_of (d, Rc.ok) h k = ap status_is_error h ∙ k
      status_of (d, Rc.fail) h k = rw h refl

  close_fd_to_zero-Holds : (c : Client) → Holds c → Holds (close_fd_to_zero c).0
  close_fd_to_zero-Holds c e =
      let h = close_fd_to_zero-kept_status (kept_status c) c refl in
      (ap (λ t. t.0) h ∙ e.0, λ b. ap (λ t. status_is_error t.1) h ∙ e.1 b)

  abbrev pub MayOwn : Option (Client × Rc) → Type 0
  MayOwn none = Unit
  MayOwn (some r) = Holds r.0

  end_headers-Holds : (r : Client × Rc) → Holds r.0 → Holds (end_headers r).0
  unfolding end_headers set_bases
  end_headers-Holds (c, Rc.ok) e = e
  end_headers-Holds (c, Rc.fail) e = e

  then_crlf-Holds : (r : Client × Rc) → Holds r.0 → Holds (then_crlf r).0
  then_crlf-Holds (c, Rc.ok) e =
      end_headers-Holds (append_headers c crlf) (append_headers-Holds c crlf e)
  then_crlf-Holds (c, Rc.fail) e = e

  then_server-Holds : (r : Client × Rc) → Holds r.0 → Holds (then_server r).0
  then_server-Holds (c, Rc.ok) e =
      then_crlf-Holds (header_add c (codes "server") (codes "kitserv"))
        (header_add-Holds c (codes "server") (codes "kitserv") e)
  then_server-Holds (c, Rc.fail) e = e

  success-Holds : (c : Client) → Holds c → Holds (success c).0
  unfolding success prepare_resp_start header_add_content_length
  success-Holds c e =
      let started = prepare_resp_start c in
      then_server-Holds (header_add_content_length started (response_length started))
        (header_add-Holds started (codes "content-length") (print_int (response_length started)) e)

  body_appended-MayOwn : (c : Client) (a : Appended) → Holds c → MayOwn (body_appended c a)
  body_appended-MayOwn c (Appended.done b) e = e
  body_appended-MayOwn c (Appended.no_memory b) e = e
  body_appended-MayOwn c Appended.overrun e = tt
  body_appended-MayOwn c Appended.freed e = tt

  append_body-MayOwn :
      (realloc : Alloc) (c : Client) (text : Bytes) → Holds c → MayOwn (append_body realloc c text)
  unfolding append_body
  append_body-MayOwn realloc c text e =
      body_appended-MayOwn c (buffer_append realloc c.resp_body text) e

  then_path-MayOwn :
      (realloc : Alloc) (s : Status) (o : Option (Client × Rc))
      → MayOwn o
      → MayOwn (then_path realloc s o)
  then_path-MayOwn realloc Status.not_found (some (c, Rc.ok)) e =
      append_body-MayOwn realloc c (path_text c c.ta.req_path) e
  then_path-MayOwn realloc _ o e = e

  body_text-MayOwn : (realloc : Alloc) (r : Client × Rc) → Holds r.0 → MayOwn (body_text realloc r)
  body_text-MayOwn realloc (c, Rc.fail) e = e
  body_text-MayOwn realloc (c, Rc.ok) e =
      then_path-MayOwn realloc c.ta.resp_status
        (append_body realloc c (error_text c.ta.resp_status))
        (append_body-MayOwn realloc c (error_text c.ta.resp_status) e)

  error_body-MayOwn :
      (realloc : Alloc) (c : Client) → Holds c → MayOwn (prepare_error_response_body realloc c)
  unfolding prepare_error_response_body header_add_content_type
  error_body-MayOwn realloc c e =
      let d = (close_fd_to_zero (emptied c)).0 in
      body_text-MayOwn realloc (header_add_content_type d (codes "text/plain")) (
        header_add-Holds d (codes "content-type") (codes "text/plain")
          (close_fd_to_zero-Holds (emptied c) e))

  error_headers-MayOwn : (c : Client) → Holds c → MayOwn (prepare_error_response_headers c)
  unfolding prepare_error_response_headers header_add_allow
  error_headers-MayOwn c e =
      let w = wiped c in
      let body = allow_body w.ta.api_allow_flags in
      if_both MayOwn (is_method_not_allowed c.ta.resp_status)
        (λ _.
          if_both MayOwn (w.ta.api_allow_flags == 0)
            (λ _. header_add-Holds w (codes "allow") (codes "GET, HEAD") e)
            (λ _.
              if_both MayOwn (ltb 2 (length body))
                (λ _. header_add-Holds w (codes "allow") (take (length body - 2) body) e)
                (λ _. tt)))
        (λ _. e)

  then_body-MayOwn :
      (realloc : Alloc) (o : Option (Client × Rc)) → MayOwn o → MayOwn (then_body realloc o)
  then_body-MayOwn realloc none e = tt
  then_body-MayOwn realloc (some (c, Rc.ok)) e = error_body-MayOwn realloc c e
  then_body-MayOwn realloc (some (c, Rc.fail)) e = e

  then_success-MayOwn : (o : Option (Client × Rc)) → MayOwn o → MayOwn (then_success o)
  then_success-MayOwn none e = tt
  then_success-MayOwn (some (c, Rc.ok)) e = success-Holds c e
  then_success-MayOwn (some (c, Rc.fail)) e = e

  error_response-MayOwn :
      (realloc : Alloc) (c : Client) → Holds c → MayOwn (error_response realloc c)
  unfolding error_response
  error_response-MayOwn realloc c e =
      if_both MayOwn c.ta.preserve_body_on_error (λ _. success-Holds c e)
        (λ _. then_success-MayOwn _ (
          if_both MayOwn c.ta.preserve_headers_on_error (λ _. error_body-MayOwn realloc c e)
            (λ _.
              then_body-MayOwn realloc (prepare_error_response_headers c)
                (error_headers-MayOwn c e))))

  or_error-MayOwn : (realloc : Alloc) (r : Client × Rc) → Holds r.0 → MayOwn (or_error realloc r)
  or_error-MayOwn realloc (c, Rc.ok) e = e
  or_error-MayOwn realloc (c, Rc.fail) e = error_response-MayOwn realloc c e

  pub prepare_response-MayOwn :
      (realloc : Alloc) (c : Client) → Holds c → MayOwn (prepare_response realloc c)
  unfolding prepare_response
  prepare_response-MayOwn realloc c e =
      if_both MayOwn (is_hangup c.ta.resp_status) (λ _. e)
        (λ _.
          if_both MayOwn (status_is_error c.ta.resp_status) (λ _. error_response-MayOwn realloc c e)
            (λ _. or_error-MayOwn realloc (success c) (success-Holds c e)))
