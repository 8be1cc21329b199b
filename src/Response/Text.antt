-- ===== src/Response/Text.antt =====
-- The texts of a response in src/http.c: version, status line, the body of an error, and the types of
-- files by their extension.
use kitserv.Prelude.{
  ℕ, zero, suc, ◌+◌, ◌/◌, ◌%◌, Option, none, some, List, [], ◌∷◌, ◌++◌, ltb, if◌then◌else◌, codes,
}
use kitserv.Prelude.Int.{ℤ, pos, negsuc}
use kitserv.Cstring.{Bytes, str_case_eq}
use kitserv.Status.{Status}
use kitserv.Client.{HttpVersion}

abbrev pub crlf : Bytes
crlf = 13 ∷ 10 ∷ []

unfoldable pub get_version_string : HttpVersion → Bytes
get_version_string HttpVersion.http_1_1 = codes "HTTP/1.1 "
get_version_string HttpVersion.http_1_0 = codes "HTTP/1.0 "

abbrev status_words : Status → Bytes
status_words Status.ok = codes "200 OK"
status_words Status.no_content = codes "204 No Content"
status_words Status.partial_content = codes "206 Partial Content"
status_words Status.not_modified = codes "304 Not Modified"
status_words Status.bad_request = codes "400 Bad Request"
status_words Status.permission_denied = codes "403 Permission Denied"
status_words Status.not_found = codes "404 Not Found"
status_words Status.method_not_allowed = codes "405 Method Not Allowed"
status_words Status.request_timeout = codes "408 Request Timeout"
status_words Status.content_too_large = codes "413 Content Too Large"
status_words Status.uri_too_long = codes "414 URI Too Long"
status_words Status.range_not_satisfiable = codes "416 Range Not Satisfiable"
status_words Status.header_fields_too_large = codes "431 Request Header Fields Too Large"
status_words Status.not_implemented = codes "501 Not Implemented"
status_words Status.service_unavailable = codes "503 Service Unavailable"
status_words Status.version_not_supported = codes "505 Version Not Supported"
status_words Status.insufficient_storage = codes "507 Insufficient Storage"
status_words Status.unset = codes "500 Internal Server Error"
status_words Status.internal_error = codes "500 Internal Server Error"
status_words Status.hangup = codes "500 Internal Server Error"

unfoldable pub get_status_string : Status → Bytes
get_status_string s = status_words s ++ crlf

-- The texts of `prepare_error_response_body`, that of 404 without the path.
unfoldable pub error_text : Status → Bytes
error_text Status.bad_request = codes "Bad request."
error_text Status.permission_denied = codes "Permission denied."
error_text Status.not_found = codes "Not found: "
error_text Status.method_not_allowed = codes "Method not allowed."
error_text Status.request_timeout = codes "Request timeout."
error_text Status.content_too_large = codes "Content too large."
error_text Status.uri_too_long = codes "URI too long."
error_text Status.range_not_satisfiable = codes "Range not satisfiable."
error_text Status.header_fields_too_large = codes "Request header fields too large."
error_text Status.not_implemented = codes "Not implemented."
error_text Status.service_unavailable = codes "Service unavailable."
error_text Status.version_not_supported = codes "Version not supported."
error_text Status.insufficient_storage = codes "Insufficient storage."
error_text _ = codes "Internal server error."

-- The type of the first extension of the list that is equal, in any case.
unfoldable pub mime_in : List (Bytes × Bytes) → Bytes → Bytes
mime_in [] extension = codes "application/octet-stream"
mime_in ((e, t) ∷ rest) extension = if str_case_eq extension e then t else mime_in rest extension

abbrev pub mime_types : List (Bytes × Bytes)
mime_types =
    (codes ".js", codes "text/javascript")
    ∷ (codes ".html", codes "text/html")
    ∷ (codes ".htm", codes "text/html")
    ∷ (codes ".css", codes "text/css")
    ∷ (codes ".json", codes "application/json")
    ∷ (codes ".svg", codes "image/svg+xml")
    ∷ (codes ".png", codes "image/png")
    ∷ (codes ".jpg", codes "image/jpeg")
    ∷ (codes ".jpeg", codes "image/jpeg")
    ∷ (codes ".txt", codes "text/plain")
    ∷ (codes ".md", codes "text/plain")
    ∷ (codes ".gif", codes "image/gif")
    ∷ (codes ".mp4", codes "video/mp4")
    ∷ (codes ".zip", codes "applicaton/zip")
    ∷ []

unfoldable pub guess_mime_type : Option Bytes → Bytes
unfolding mime_in
guess_mime_type none = codes "application/octet-stream"
guess_mime_type (some extension) = mime_in mime_types extension

-- The digits of a number before those that stand. On fuel: one digit for each unit.
unfoldable pub digits : ℕ → ℕ → Bytes → Bytes
digits zero n acc = acc
digits (suc fuel) n acc =
    let more = digits fuel (n / 10) ((b'0' + n % 10) ∷ acc) in
    if ltb n 10 then (b'0' + n) ∷ acc else more

-- `%ld`, of a number of 64 bits: it has at most 20 digits.
unfoldable pub print_int : ℤ → Bytes
unfolding digits
print_int (pos n) = digits 20 n []
print_int (negsuc n) = b'-' ∷ digits 20 (suc n) []
