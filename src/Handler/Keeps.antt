-- ===== src/Handler/Keeps.antt =====
-- What the calls of include/kitserv.h leave of the request.
use kitserv.Prelude.{
  ℕ, zero, suc, ◌+◌, ◌-◌, ◌≤◌, ◌≡◌, refl, ◌∙◌, Option, none, some, [], ◌∷◌, ◌++◌, if_both, length,
  arith, ltb, codes, min, take, ◌||◌,
}
use kitserv.Prelude.Int.{pos, ltb_ℤ}
use kitserv.Cstring.{Bytes}
use kitserv.Client.{Client, Rc}
use kitserv.Client.Kept.{kept}
use kitserv.Buffer.{Appended, buffer_append, buffer_appendva}
use kitserv.Recv.{Socket, ReadResult, read}
use kitserv.Recv.Owner.{coming, read-coming}
use kitserv.Cookies.Keeps.{MayKeep, get_request_cookie-MayKeep, get_request_cookie_n-MayKeep}
use kitserv.Cookies.{get_request_cookie, get_request_cookie_n}
use kitserv.Response.Headers.{header_add, header_add_content_type, header_add_content_type_guess}
use kitserv.Response.Frame.{header_add-Keeps}
use kitserv.Response.Text.{guess_mime_type}
use kitserv.Static.{Errno}
use kitserv.Static.Respond.{dated, handle_static_path, header_add_last_modified}
use kitserv.Static.Owner.{handle_static_path-Owns}
use kitserv.Api
use kitserv.Api.{
  ReadPayload, WriteBody, set_body, after_payload_read, payload_loop, set_payload_pos, overread,
}
use kitserv.Serve.{Server, Request}
use kitserv.Serve.Request.{RequestOwns}
use kitserv.Serve.Ends.{KeepsRequest}
use kitserv.Handler.{
  Call, Answer, Handler, Called, coded, looked_up, payload_read, body_written, context_of, perform,
  and_on, run, with_handlers,
}

module _ (c : Client) (sk : Socket) where
  -- The client has its socket, the bytes of its buffer and the place of its payload still, and no more
  -- bytes are to come.
  abbrev Keeps : Client → Socket → Type 0
  Keeps d sk' = (kept d ≡ kept c) × (coming sk' ≤ coming sk)

  abbrev CalledKeeps : Called → Type 0
  CalledKeeps none = Unit
  CalledKeeps (some (a, d, sk')) = Keeps d sk'

  coded-CalledKeeps : (r : Client × Rc) → kept r.0 ≡ kept c → CalledKeeps (coded sk r)
  coded-CalledKeeps r h = (h, omega arith)

  looked_up-CalledKeeps :
      (o : Option (Client × Option ℕ)) → MayKeep c o → CalledKeeps (looked_up sk o)
  looked_up-CalledKeeps none h = tt
  looked_up-CalledKeeps (some (d, o)) h = (h, omega arith)

  body_written-CalledKeeps : (a : Appended) → CalledKeeps (body_written sk (set_body c a))
  body_written-CalledKeeps (Appended.done b) = (refl, omega arith)
  body_written-CalledKeeps (Appended.no_memory b) = (refl, omega arith)
  body_written-CalledKeeps Appended.overrun = tt
  body_written-CalledKeeps Appended.freed = tt

  after_payload_read-CalledKeeps :
      (next : Bytes → Socket → ReadPayload) (d : Client) (written : Bytes) (r : ReadResult × Socket)
      → kept d ≡ kept c
      → coming r.1 ≤ coming sk
      → ((out : Bytes) (sk' : Socket)
          → coming sk' ≤ coming sk
          → CalledKeeps (payload_read (next out sk')))
      → CalledKeeps (payload_read (after_payload_read next d written r))
  unfolding after_payload_read
  after_payload_read-CalledKeeps next d written (ReadResult.would_block, sk') e h k = (e, h)
  after_payload_read-CalledKeeps next d written (ReadResult.broken, sk') e h k = (e, h)
  after_payload_read-CalledKeeps next d written (ReadResult.got [], sk') e h k = (e, h)
  after_payload_read-CalledKeeps next d written (ReadResult.got (x ∷ b), sk') e h k =
      k (written ++ x ∷ b) sk' h

  payload_loop-CalledKeeps :
      (fuel nbytes : ℕ) (d : Client) (written : Bytes) (sk' : Socket)
      → kept d ≡ kept c
      → coming sk' ≤ coming sk
      → CalledKeeps (payload_read (payload_loop fuel nbytes d written sk'))
  unfolding payload_loop
  payload_loop-CalledKeeps zero nbytes d written sk' e h = tt
  payload_loop-CalledKeeps (suc fuel) nbytes d written sk' e h =
      let wanted = nbytes - length written in
      if_both (λ r. CalledKeeps (payload_read r)) (ltb 0 wanted)
        (λ _.
          after_payload_read-CalledKeeps (payload_loop fuel nbytes d) d written (read sk' wanted) e
            (omega (arith, read-coming sk' wanted))
            (λ out sk'' l. payload_loop-CalledKeeps fuel nbytes d out sk'' e l))
        (λ _. (e, h))

  dated-kept : (o : Option Bytes) → kept (dated c o).0 ≡ kept c
  dated-kept none = refl
  dated-kept (some text) = (header_add-Keeps c (codes "last-modified") text).same

  perform-CalledKeeps :
      (server : Server) (errno : Errno) (k : Call) → CalledKeeps (perform server errno k c sk)
  unfolding perform header_add_content_type header_add_content_type_guess header_add_last_modified
      Api.read_payload Api.write_body Api.write_body_fmt Api.reset_headers Api.reset_body
      Api.send_file Api.set_send_range
  perform-CalledKeeps server errno (Call.header_add key value) =
      coded-CalledKeeps (header_add c key value) (header_add-Keeps c key value).same
  perform-CalledKeeps server errno (Call.header_add_content_type mime) =
      coded-CalledKeeps (header_add_content_type c mime)
        (header_add-Keeps c (codes "content-type") mime).same
  perform-CalledKeeps server errno (Call.header_add_content_type_guess extension) =
      coded-CalledKeeps (header_add_content_type_guess c extension)
        (header_add-Keeps c (codes "content-type") (guess_mime_type extension)).same
  perform-CalledKeeps server errno (Call.header_add_last_modified time) =
      coded-CalledKeeps (header_add_last_modified server.host c time)
        (dated-kept (server.host.print_date time))
  perform-CalledKeeps server errno (Call.handle_static_path path ctx) =
      coded-CalledKeeps (handle_static_path server.host (context_of server ctx) c errno path).0
        (handle_static_path-Owns (kept c) server.host (context_of server ctx) c errno path refl)
  perform-CalledKeeps server errno (Call.get_request_cookie key) =
      looked_up-CalledKeeps (get_request_cookie c key) (get_request_cookie-MayKeep c key)
  perform-CalledKeeps server errno (Call.get_request_cookie_n key keylen) =
      looked_up-CalledKeeps (get_request_cookie_n c key keylen)
        (get_request_cookie_n-MayKeep c key keylen)
  perform-CalledKeeps server errno (Call.read_payload nbytes) =
      let n = min nbytes (c.ta.req_payload_len - c.ta.req_payload_pos) in
      payload_loop-CalledKeeps (suc nbytes) nbytes (set_payload_pos c (c.ta.req_payload_pos + n))
        (take n (overread c)) sk refl (omega arith)
  perform-CalledKeeps server errno (Call.write_body buf) =
      body_written-CalledKeeps (buffer_append server.realloc c.resp_body buf)
  perform-CalledKeeps server errno (Call.write_body_fmt text) =
      body_written-CalledKeeps (buffer_appendva server.realloc c.resp_body text)
  perform-CalledKeeps server errno (Call.set_send_range from to) =
      if_both (λ (r : Client × Rc). CalledKeeps (coded sk r))
        (ltb_ℤ from (pos 0) || ltb_ℤ to (pos 0)) (λ _. (refl, omega arith))
        (λ _. (refl, omega arith))
  perform-CalledKeeps server errno _ = (refl, omega arith)

-- What a handler leaves, from a client and a socket that its calls have kept so far.
module _ (before : Client) (now : Socket) where
  and_on-Keeps :
      (next : Answer → Client → Socket → Request) (c : Client) (sk : Socket) (o : Called)
      → Keeps before now c sk
      → CalledKeeps c sk o
      → ((a : Answer) (d : Client) (sk' : Socket)
          → Keeps before now d sk'
          → RequestOwns (Keeps before now) (next a d sk'))
      → RequestOwns (Keeps before now) (and_on next o)
  and_on-Keeps next c sk none h l k = tt
  and_on-Keeps next c sk (some (a, d, sk')) h l k = k a d sk' (l.0 ∙ h.0, omega arith)

  run-Keeps :
      (server : Server) (errno : Errno) (k : Handler) (c : Client) (sk : Socket)
      → Keeps before now c sk
      → RequestOwns (Keeps before now) (run server errno k c sk)
  unfolding run
  run-Keeps server errno Handler.returns c sk h = h
  run-Keeps server errno (Handler.calls k next) c sk h =
      and_on-Keeps (λ a d sk'. run server errno (next a) d sk') c sk (perform server errno k c sk) h
        (perform-CalledKeeps c sk server errno k)
        (λ a d sk' l. run-Keeps server errno (next a) d sk' l)

-- A handler that uses the client only by the calls of include/kitserv.h, however many it makes and
-- whatever it does with what they return, leaves the socket of the client, the number of bytes in its
-- buffer and the place of its payload as they are, and no more bytes to come, unless it aborts.
pub run-RequestOwns :
    (server : Server) (errno : Errno) (k : Handler) (c : Client) (sk : Socket)
    → RequestOwns (λ d sk'. (kept d ≡ kept c) × (coming sk' ≤ coming sk)) (run server errno k c sk)
run-RequestOwns server errno k c sk = run-Keeps c sk server errno k c sk (refl, omega arith)

pub with_handlers-KeepsRequest :
    (server : Server) (errno : Errno) (handlers : ℕ → Option ℕ → Handler)
    → KeepsRequest (with_handlers server errno handlers)
with_handlers-KeepsRequest server errno handlers h c state sk =
    run-RequestOwns server errno (handlers h state) c sk
