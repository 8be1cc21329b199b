-- ===== src/Tests/Data.antt =====
-- A client, a request and buffers to test with.
use kitserv.Prelude.{suc, true, some, [], ◌∷◌, ◌++◌, codes}
use kitserv.Prelude.Int.{pos}
use kitserv.Cstring.{Bytes}
use kitserv.Status.{Status}
use kitserv.Client.{Client, Buffer, Method, cleared}

abbrev pub crlf : Bytes
crlf = 13 ∷ 10 ∷ []

abbrev pub empty_buffer : Buffer
empty_buffer = record { alloc = 16; bytes = []; max = 16 }

abbrev pub new_client : Client
new_client = record {
  req_headers = [];
  req_cookies = [];
  resp_start = [];
  resp_headers = [];
  resp_body = empty_buffer;
  ta = cleared;
  sockfd = 5;
}

abbrev pub request : Bytes
request = codes "GET /a%20b?c HTTP/1.1" ++ crlf ++ codes "Range: bytes=0-4" ++ crlf ++ crlf

-- A client that asks for a range of a file.
abbrev pub range_client : Client
range_client = record new_client {
  req_headers = codes "bytes=2-5" ++ 0 ∷ [];
  ta = record cleared { range_requested = true; req_range = some 0 };
}

-- A client that is sent the bytes 2 to 5 of an open file.
abbrev pub file_client : Client
file_client = record new_client {
  ta = record cleared {
    req_method = Method.get;
    resp_status = Status.partial_content;
    resp_fd = pos (suc 6);
    resp_body_pos = pos 2;
    resp_body_end = pos 5;
  };
}

-- A client whose response is three buffers of 3, 4 and 2 bytes.
abbrev pub sending_client : Client
sending_client = record new_client {
  ta = record cleared {
    resp_buf0 = record { iov_base = 0; iov_len = 3 };
    resp_buf1 = record { iov_base = 0; iov_len = 4 };
    resp_buf2 = record { iov_base = 0; iov_len = 2 };
  };
}

-- A client of which a request is served, with the status 200.
abbrev pub served_client : Client
served_client = record new_client { ta = record cleared { resp_status = Status.ok } }
