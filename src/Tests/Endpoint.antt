-- ===== src/Tests/Endpoint.antt =====
-- The results on what a handler calls, on static files and on a round of the server, at concrete inputs.
use kitserv.Cookies.Total.{LooksUp, get_request_cookie_n-LooksUp}
use kitserv.Prelude.{
  List, zero, suc, ℕ, ◌≡◌, refl, true, false, Option, none, some, [], ◌∷◌, ◌++◌, codes, arith,
  if◌then◌else◌,
}
use kitserv.Prelude.Int.{pos}
use kitserv.Cstring.{Bytes, str_eq}
use kitserv.Client.{Cookie, Client, Method, cleared, with_status}
use kitserv.Status.{Status}
use kitserv.Recv.{Socket, Arrival}
use kitserv.Cookies.{get_request_cookie_n}
use kitserv.Cookies.Text.{Pair, cookie_text}
use kitserv.Cookies.Lookup.{Points, get_request_cookie_n-value_of}
use kitserv.Api.{read_payload}
use kitserv.Api.Payload.{Hands, read_payload-Hands}
use kitserv.Static.{Host, RequestContext, Errno, Stat, Search, is_unset, find_path}
use kitserv.Static.Fallbacks.{find_path_lem}
use kitserv.Static.Respond.{handle_static_path}
use kitserv.Static.Safety.{Handles, handle_static_path-Handles}
use kitserv.Serve.{Server, World}
use kitserv.Tests.Data.{new_client, request}
use kitserv.Tests.Server.{fixed}

abbrev theme : Pair
theme = (codes "theme", codes "dark")

abbrev lang : Pair
lang = (codes "lang", codes "en")

abbrev cookie_client : Client
cookie_client = record new_client {
  req_headers = codes "Cookie: " ++ (cookie_text false theme (lang ∷ []) ++ 0 ∷ codes "rest");
  ta = record cleared { req_fresh_cookies = some 8 };
}

get_request_cookie_n-value_of_example :
    (d : Client) × (o : Option ℕ) × (get_request_cookie_n cookie_client (some (codes "lang")) 4
      ≡ some (d, o))
    × Points d.req_headers o (some (codes "en"))
unfolding str_eq
get_request_cookie_n-value_of_example =
    get_request_cookie_n-value_of cookie_client (codes "Cookie: ") (codes "rest") theme (lang ∷ [])
      (codes "lang") refl refl (ground arith) (ground arith) (omega arith) (omega arith)

-- A client whose payload has three bytes in the buffer, of which one was read.
abbrev payload_client : Client
payload_client = record new_client {
  req_headers = codes "headabc";
  ta = record cleared { req_payload = some 4; req_payload_len = 3; req_payload_pos = 1 };
}

abbrev arriving : Socket
arriving = Arrival.bytes (codes "de") ∷ Arrival.again ∷ []

read_payload-Hands_example : Hands (codes "bcde") 6 4 (read_payload payload_client 6 arriving)
read_payload-Hands_example = read_payload-Hands payload_client 6 arriving (omega arith)

abbrev only : Bytes → Stat → Bytes → Stat
only name s path = if str_eq path name then s else Stat.failed Errno.other

abbrev host : Host
host = record {
  stat = only (codes "www//a.html") (Stat.regular 10 (pos 0));
  open_file = λ name. some 6;
  read_date = λ text. none;
  print_date = λ time. some (codes "today");
}

abbrev context : RequestContext
context = record {
  root = codes "www";
  root_fallback = none;
  fallback = none;
  use_http_append_fallback = true;
}

abbrev get_client : Client
get_client = record new_client {
  req_headers = codes "/a" ++ 0 ∷ [];
  ta = record cleared { req_method = Method.get; req_path = some 0 };
}

find_path_lem_example :
    find_path host context get_client Errno.other (codes "/a")
    ≡ Search.found get_client (record { fname = codes "www//a.html"; size = 10; mtime = pos 0 })
unfolding is_unset str_eq
find_path_lem_example =
    find_path_lem host context get_client (codes "/a") refl
      (omega arith, ground arith, (omega arith, ground arith, tt))

handle_static_path-Handles_example :
    Handles host (handle_static_path host context get_client Errno.other (codes "/a"))
unfolding is_unset
handle_static_path-Handles_example =
    handle_static_path-Handles host context get_client Errno.other (codes "/a") refl refl

abbrev pub server : Server
server = record {
  api_tree = none;
  handler = λ h c state sk. some (with_status c Status.ok, sk);
  context = context;
  host = host;
  realloc = fixed;
}

abbrev pub world : World
world = record { socket = Arrival.bytes request ∷ []; writes = []; files = []; errno = Errno.other }

abbrev blanks : ℕ → List Cookie
blanks zero = []
blanks (suc n) = record { key = 0; value = 0; keylen = 0 } ∷ blanks n

-- The client with its array of cookies.
abbrev array_client : Client
array_client = record cookie_client { req_cookies = blanks 50 }

get_request_cookie_n-LooksUp_example :
    LooksUp array_client (get_request_cookie_n array_client (some (codes "lang")) 4)
get_request_cookie_n-LooksUp_example =
    get_request_cookie_n-LooksUp array_client (some (codes "lang")) 4 (refl, omega arith)
