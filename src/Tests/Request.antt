-- ===== src/Tests/Request.antt =====
-- The results on requests, at concrete inputs.
use kitserv.Prelude.{
  ◌-◌, ◌<◌, ◌≡◌, refl, ◌↔◌, true, false, some, List, [], ◌∷◌, ◌++◌, codes, arith, min,
}
use kitserv.Prelude.Int.{pos}
use kitserv.Cstring.{Bytes, is_xdigit, hex_value}
use kitserv.Client.{TransactionState, ParseState, Rc, received, Method, HttpVersion}
use kitserv.Parser.HeaderLoop.{Headers, headers_text, see_all}
use kitserv.Parser.Line.{request_text}
use kitserv.Parser.Print.{unseen, starting, Reads, parse-request_text}
use kitserv.UrlDecode.{url_decode, decoded}
use kitserv.UrlDecode.Refine.{overwrite, url_decode_lem}
use kitserv.UrlDecode.RoundTrip.{url_decode-percent_encoded}
use kitserv.Traversal.{attempted_path_traversal, strstr_dots}
use kitserv.Traversal.Laws.{
  AtSegmentStart, AtSegmentEnd, HasDotsSegment, attempted_path_traversal_first,
  attempted_path_traversal_missed, pre_test, pre_test_lem,
}
use kitserv.Parser.{parse}
use kitserv.Parser.Chunks.{feed, feed-parse, concat}
use kitserv.Recv.{Arrival, recv_request}
use kitserv.Recv.Total.{Returns, recv_request-Returns}
use kitserv.Range.{minus_one, parse_range_string, range_known}
use kitserv.Range.Laws.{parse_range_string_lem, range_known-exact, range_known_suffix}
use kitserv.Tests.Data.{new_client, crlf}

abbrev parts : List Bytes
parts = codes "T /a" ∷ codes "%20b?c HTT" ∷ (codes "P/1.1" ++ crlf ++ crlf) ∷ []

feed-parse_example :
    feed (parse ParseState.ps_new (record new_client { req_headers = codes "GE" }) 0 2) parts
    ≡ parse ParseState.ps_new
        (received (record new_client { req_headers = codes "GE" }) (concat parts))
        0
        2
feed-parse_example =
    feed-parse parts ParseState.ps_new (record new_client { req_headers = codes "GE" }) 0 2
      (omega arith) (omega arith)

recv_request-Returns_example :
    Returns TransactionState.read
      (recv_request (Arrival.bytes (codes "GET /") ∷ Arrival.again ∷ []) new_client)
recv_request-Returns_example =
    recv_request-Returns (Arrival.bytes (codes "GET /") ∷ Arrival.again ∷ []) new_client
      (omega arith, omega arith, omega arith)

abbrev encoded : Bytes
encoded = codes "/a%20b" ++ 0 ∷ codes "rest"

url_decode_lem_example : url_decode encoded 1 ≡ overwrite encoded 1 (codes "a b" ++ 0 ∷ [])
unfolding decoded is_xdigit hex_value
url_decode_lem_example = url_decode_lem encoded 1 (ground arith)

abbrev escaped : Bytes
escaped = codes "%2F%2E" ++ 0 ∷ []

url_decode-percent_encoded_example :
    url_decode escaped 0 ≡ overwrite escaped 0 (codes "/." ++ 0 ∷ [])
url_decode-percent_encoded_example =
    url_decode-percent_encoded escaped 0 (codes "/.") (omega arith, (omega arith, tt))
      (ground arith) refl

attempted_path_traversal_first_example :
    (attempted_path_traversal (codes "/a/" ++ b'.' ∷ b'.' ∷ codes "/b") ≡ true)
    ↔ (AtSegmentStart (codes "/a/") × AtSegmentEnd (codes "/b"))
unfolding strstr_dots
attempted_path_traversal_first_example =
    attempted_path_traversal_first (codes "/a/") (codes "/b") refl (ground arith)

attempted_path_traversal_missed_example :
    HasDotsSegment (codes "/a../../b") × (attempted_path_traversal (codes "/a../../b") ≡ false)
unfolding strstr_dots pre_test
attempted_path_traversal_missed_example =
    attempted_path_traversal_missed (codes "/a") (codes "b") refl
      (λ s. absurd (ground (arith, (pre_test_lem (codes "/a")).1 s)))

parse_range_string_lem_example :
    (parse_range_string (codes "bytes=2-5") ≡ some (pos 2, pos 5))
    × (parse_range_string (codes "bytes=2-") ≡ some (pos 2, minus_one))
    × (parse_range_string (codes "bytes=-5") ≡ some (minus_one, pos 5))
parse_range_string_lem_example =
    parse_range_string_lem b'2' [] b'5' [] (refl, tt) (refl, tt) (omega arith) (omega arith)

range_known-exact_example :
    let whole = range_known new_client (pos 10) in
    (whole (some (pos 2, pos 50)) ≡ (
      record new_client {
        ta = record new_client.ta { resp_body_pos = pos 2; resp_body_end = pos (min 50 (10 - 1)) };
      },
      Rc.ok,
    ))
    × (whole (some (pos 2, minus_one)) ≡ (
      record new_client {
        ta = record new_client.ta { resp_body_pos = pos 2; resp_body_end = pos 9 };
      },
      Rc.ok,
    ))
    × (50 < 10
        → whole (some (minus_one, pos 50)) ≡ (
          record new_client {
            ta = record new_client.ta { resp_body_pos = pos (10 - 50); resp_body_end = pos 9 };
          },
          Rc.ok,
        ))
range_known-exact_example =
    range_known-exact new_client 10 2 50 (omega arith) (omega arith) (omega arith)

range_known_suffix_example : range_known new_client (pos 10) (some (minus_one, pos 20)) ≡ (
  record new_client { ta = record new_client.ta { resp_body_pos = pos 1; resp_body_end = pos 9 } },
  Rc.ok,
)
range_known_suffix_example = range_known_suffix new_client 10 20 (omega arith) (omega arith)

abbrev posted : Headers
posted = (codes "Content-Length", codes "2") ∷ (codes "Cookie", codes "a=b; c=d") ∷ []

parse-request_text_example :
    Reads Method.post
      (codes "/a%20b")
      (some (codes "c=1"))
      HttpVersion.http_1_1
      (see_all posted unseen)
      (codes "hi")
      (parse ParseState.ps_new
        (starting new_client (
          request_text Method.post
            (codes "/a%20b")
            (some (codes "c=1"))
            HttpVersion.http_1_1
            (headers_text posted (crlf ++ codes "hi"))))
        0
        0)
unfolding decoded is_xdigit hex_value attempted_path_traversal strstr_dots
parse-request_text_example =
    parse-request_text new_client Method.post (codes "/a%20b") (some (codes "c=1"))
      HttpVersion.http_1_1 posted (codes "hi") tt (ground arith) refl (ground arith)
