-- ===== src/Finalize/Pipeline.antt =====
-- From one request of a connection to the next: `kitserv_http_finalize_transaction` of src/http.c.
use kitserv.Prelude.{◌≡◌, []}
use kitserv.Client.{Client, cleared}
use kitserv.Buffer.Append.{IsValid}
use kitserv.Recv.Total.{IsReceiving}

-- A client to which a new transaction begins: the next request can be received.
pub record IsFresh (c : Client) : Type 0 where
  pub receiving : IsReceiving c
  pub clear : c.ta ≡ cleared
  pub valid : IsValid c.resp_body
  pub no_body : c.resp_body.bytes ≡ []
