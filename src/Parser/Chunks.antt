-- ===== src/Parser/Chunks.antt =====
-- The parser of `kitserv_http_recv_request` and a request that comes in several reads.
use kitserv.Prelude.{
  ℕ, ◌≤◌, ◌≡◌, ap, ◌∙◌, sym, arith, length, length-append, List, [], ◌∷◌, ◌++◌, append_assoc,
  append-nil,
}
use kitserv.Cstring.{Bytes}
use kitserv.Client.{Client, ParseState, received}
use kitserv.Parser.{Parse, parse}
use kitserv.Parser.Resume.{resume}
use kitserv.Parser.ResumeStages.{parse-resume}

-- The reads of one request, one after the other.
pub feed : Parse → List Bytes → Parse
feed o [] = o
feed o (b ∷ bs) = feed (resume b o) bs

abbrev pub concat : List Bytes → Bytes
concat [] = []
concat (b ∷ bs) = b ++ concat bs

-- From any saved state with its positions inside the buffer: however the bytes that follow are cut
-- into reads, also in the middle of a token or a line end, the parser ends as on the whole input
-- at once, with the same client.
pub feed-parse :
    (bs : List Bytes) (s : ParseState) (c : Client) (p r : ℕ)
    → p ≤ r
    → r ≤ length c.req_headers
    → feed (parse s c p r) bs ≡ parse s (received c (concat bs)) p r
unfolding feed
feed-parse [] s c p r h k = rw append-nil
feed-parse (b ∷ bs) s c p r h k =
    ap (λ o. feed o bs) (sym (parse-resume b s c p r h k))
    ∙ feed-parse bs s (received c b) p r h (omega (arith, length-append {0} c.req_headers b))
    ∙ rw append_assoc
