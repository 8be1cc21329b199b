-- ===== src/Client/Kept.antt =====
-- What the stages of a transaction behind its parser are to leave as it is.
use kitserv.Prelude.{ℕ, Option, length}
use kitserv.Status.{Status}
use kitserv.Client.{Client}

-- The socket, the bytes in the buffer, and where the payload begins.
abbrev pub Kept : Type 0
Kept = ℕ × ℕ × Option ℕ

abbrev pub kept : Client → Kept
kept c = (c.sockfd, length c.req_headers, c.ta.req_payload)

-- And the status.
abbrev pub kept_status : Client → Kept × Status
kept_status c = (kept c, c.ta.resp_status)
