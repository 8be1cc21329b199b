-- ===== src/Response/StartLine.antt =====
-- The first line of a response, `prepare_resp_start` of src/http.c.
use kitserv.Prelude.{◌+◌, ◌<◌, ◌≡◌, refl, some, ◌++◌, length, arith, length-append, take, take_all}
use kitserv.Cstring.{Bytes}
use kitserv.Status.{Status}
use kitserv.Client.{Client, HttpVersion}
use kitserv.Response.Text.{get_version_string, get_status_string}
use kitserv.Response.Headers.{str_append}
use kitserv.Response.{prepare_resp_start, set_start}

-- The first line.
abbrev pub status_line : Client → Bytes
status_line c = get_version_string c.ta.req_version ++ get_status_string c.ta.resp_status

version_room : (v : HttpVersion) → length (get_version_string v) ≡ 9
unfolding get_version_string
version_room HttpVersion.http_1_1 = refl
version_room HttpVersion.http_1_0 = refl

status_room : (s : Status) → length (get_status_string s) < 200
unfolding get_status_string
status_room Status.ok = omega arith
status_room Status.no_content = omega arith
status_room Status.partial_content = omega arith
status_room Status.not_modified = omega arith
status_room Status.bad_request = omega arith
status_room Status.permission_denied = omega arith
status_room Status.not_found = omega arith
status_room Status.method_not_allowed = omega arith
status_room Status.request_timeout = omega arith
status_room Status.content_too_large = omega arith
status_room Status.uri_too_long = omega arith
status_room Status.range_not_satisfiable = omega arith
status_room Status.header_fields_too_large = omega arith
status_room Status.not_implemented = omega arith
status_room Status.service_unavailable = omega arith
status_room Status.version_not_supported = omega arith
status_room Status.insufficient_storage = omega arith
status_room Status.unset = omega arith
status_room Status.internal_error = omega arith
status_room Status.hangup = omega arith

str_append_start :
    (buf text : Bytes) → length text < 256 → str_append buf 0 256 text ≡ some (text, length text)
unfolding str_append
str_append_start buf text h = ground arith

str_append_next :
    (first text : Bytes)
    → length first + length text < 256
    → str_append first (length first) 256 text ≡ some (first ++ text, length (first ++ text))
unfolding str_append
str_append_next first text h =
    let t : take (length first) first ≡ first = take_all (length first) first (omega arith) in
    ground (arith, t, length-append first text)

-- The first line always fits.
pub prepare_resp_start_lem :
    (c : Client) → prepare_resp_start c ≡ set_start c (status_line c, length (status_line c))
unfolding prepare_resp_start
prepare_resp_start_lem c =
    let v = version_room c.ta.req_version in
    let s = status_room c.ta.resp_status in
    rw
      (
        str_append_start c.resp_start (get_version_string c.ta.req_version) (omega arith),
        str_append_next (get_version_string c.ta.req_version) (get_status_string c.ta.resp_status)
            (omega arith),
      )
      refl
