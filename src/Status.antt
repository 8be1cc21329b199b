-- ===== src/Status.antt =====
-- `enum kitserv_http_response_status` of include/kitserv.h.
use kitserv.Prelude.{ℕ, Bool, leb}

pub data Status : Type 0 where
  unset hangup : Status
  ok no_content partial_content not_modified : Status
  bad_request permission_denied not_found method_not_allowed request_timeout : Status
  content_too_large uri_too_long range_not_satisfiable header_fields_too_large : Status
  internal_error not_implemented service_unavailable version_not_supported : Status
  insufficient_storage : Status

unfoldable pub status_code : Status → ℕ
status_code unset = 0
status_code hangup = 1
status_code ok = 200
status_code no_content = 204
status_code partial_content = 206
status_code not_modified = 304
status_code bad_request = 400
status_code permission_denied = 403
status_code not_found = 404
status_code method_not_allowed = 405
status_code request_timeout = 408
status_code content_too_large = 413
status_code uri_too_long = 414
status_code range_not_satisfiable = 416
status_code header_fields_too_large = 431
status_code internal_error = 500
status_code not_implemented = 501
status_code service_unavailable = 503
status_code version_not_supported = 505
status_code insufficient_storage = 507

-- `status_is_error` of src/http.c.
unfoldable pub status_is_error : Status → Bool
unfolding status_code
status_is_error s = leb 400 (status_code s)
