-- ===== src/Response/State.antt =====
-- The state that `kitserv_http_prepare_response` of src/http.c leaves.
use kitserv.Prelude.{◌≡◌, refl, Option, none, some, if_both, if◌then◌else◌}
use kitserv.Status.{status_is_error}
use kitserv.Client.{Client, Rc, TransactionState}
use kitserv.Buffer.{Alloc}
use kitserv.Response.Headers.{append_headers, header_add_content_length}
use kitserv.Response.Text.{crlf}
use kitserv.Response.{
  prepare_resp_start, response_length, success, then_server, then_crlf, end_headers, set_bases,
  or_error, is_hangup, error_response, then_success, then_body, prepare_error_response_body,
  prepare_error_response_headers, prepare_response,
}

-- Behind 0 the response is to be sent.
abbrev pub Sends : Client × Rc → Type 0
Sends (c, Rc.ok) = c.ta.state ≡ TransactionState.send
Sends (c, Rc.fail) = Unit

abbrev pub MaySend : Option (Client × Rc) → Type 0
MaySend none = Unit
MaySend (some r) = Sends r

end_headers-Sends : (r : Client × Rc) → Sends (end_headers r)
unfolding end_headers set_bases
end_headers-Sends (c, Rc.ok) = refl
end_headers-Sends (c, Rc.fail) = tt

then_crlf-Sends : (r : Client × Rc) → Sends (then_crlf r)
then_crlf-Sends (c, Rc.ok) = end_headers-Sends (append_headers c crlf)
then_crlf-Sends (c, Rc.fail) = tt

then_server-Sends : (r : Client × Rc) → Sends (then_server r)
then_server-Sends (c, Rc.ok) = then_crlf-Sends _
then_server-Sends (c, Rc.fail) = tt

success-Sends : (c : Client) → Sends (success c)
unfolding success
success-Sends c =
    then_server-Sends
      (header_add_content_length (prepare_resp_start c) (response_length (prepare_resp_start c)))

then_success-MaySend : (o : Option (Client × Rc)) → MaySend (then_success o)
then_success-MaySend none = tt
then_success-MaySend (some (c, Rc.ok)) = success-Sends c
then_success-MaySend (some (c, Rc.fail)) = tt

error_response-MaySend : (realloc : Alloc) (c : Client) → MaySend (error_response realloc c)
unfolding error_response
error_response-MaySend realloc c =
    if_both MaySend c.ta.preserve_body_on_error (λ _. success-Sends c)
      (λ _. then_success-MaySend (
        if c.ta.preserve_headers_on_error
        then prepare_error_response_body realloc c
        else then_body realloc (prepare_error_response_headers c)))

or_error-MaySend : (realloc : Alloc) (r : Client × Rc) → Sends r → MaySend (or_error realloc r)
or_error-MaySend realloc (c, Rc.ok) h = h
or_error-MaySend realloc (c, Rc.fail) h = error_response-MaySend realloc c

pub prepare_response-MaySend : (realloc : Alloc) (c : Client) → MaySend (prepare_response realloc c)
unfolding prepare_response
prepare_response-MaySend realloc c =
    if_both MaySend (is_hangup c.ta.resp_status) (λ _. tt)
      (λ _.
        if_both MaySend (status_is_error c.ta.resp_status) (λ _. error_response-MaySend realloc c)
          (λ _. or_error-MaySend realloc (success c) (success-Sends c)))
