-- ===== src/Static.antt =====
-- `kitserv_http_handle_static_path` of src/http.c. The file system and the C library's dates are a
-- parameter, `Host`. Here: the search for the file. Static/Respond has what follows `path_set`.
pub mod Respond
pub mod Fallbacks
pub mod Descriptor
pub mod Safety
pub mod Owner
use kitserv.Prelude.{
  ℕ, zero, suc, ◌+◌, ◌-◌, Bool, true, false, not, ◌&&◌, ◌||◌, Option, none, some, List, [], ◌∷◌,
  ◌++◌, ◌==◌, leb, ltb, if◌then◌else◌, length, codes,
}
use kitserv.Prelude.Int.{ℤ, pos, negsuc, ◌-ℤ◌, leb_ℤ}
use kitserv.Cstring.{Bytes, string_at, str_eq}
use kitserv.Status.{Status}
use kitserv.Client.{Client, Method, Rc, method_bits, with_status}
use kitserv.Range.{parse_range_request}
use kitserv.Response.Text.{print_int}
use kitserv.Response.Headers.{
  has_bit, header_add, header_add_content_type_guess, header_add_content_range,
}
use kitserv.Send.{close_fd_to_zero}

-- `EACCES`, which the code tests for, or another value.
pub data Errno : Type 0 where
  access_denied other : Errno

-- What `stat` gives: a regular file, anything else, or -1.
pub data Stat : Type 0 where
  regular : (size : ℕ) (mtime : ℤ) → Stat
  not_regular : Stat
  failed : Errno → Stat

pub record Host : Type 0 where
  pub stat : Bytes → Stat
  -- `open(fname, O_RDONLY)`, a descriptor of 1 or more
  pub open_file : Bytes → Option ℕ
  -- `strptime` with `timegm`, of a date header
  pub read_date : Bytes → Option ℤ
  -- `gmtime_r` with `strftime`
  pub print_date : ℤ → Option Bytes

-- `struct kitserv_request_context`
pub record RequestContext : Type 0 where
  pub root : Bytes
  pub root_fallback : Option Bytes
  pub fallback : Option Bytes
  pub use_http_append_fallback : Bool

-- `PATH_MAX` of Linux.
abbrev pub path_max : ℕ
path_max = 4096

-- A file that was found: its name, size and time of modification.
pub record Found : Type 0 where
  pub fname : Bytes
  pub size : ℕ
  pub mtime : ℤ

-- `if (errno == EACCES) ...; return -1`
unfoldable pub denied : Client → Errno → Client
denied c Errno.access_denied = with_status c Status.permission_denied
denied c Errno.other = c

-- The file, or the client and `errno` behind -1. A file that is not regular leaves `errno` as it was.
pub data Verified : Type 0 where
  found : Found → Verified
  missing : Client → Errno → Verified

abbrev pub stated : Client → Errno → Bytes → Stat → Verified
stated c errno path (Stat.regular size mtime) =
    Verified.found (record { fname = path; size = size; mtime = mtime })
stated c errno path Stat.not_regular = Verified.missing (denied c errno) errno
stated c errno path (Stat.failed e) = Verified.missing (denied c e) e

-- `verify_static_path`. `path` is the whole name, which the code cuts to its array; it is not looked
-- at where it does not fit.
unfoldable pub verify_static_path : Host → Client → Errno → Bytes → Verified
unfolding denied
verify_static_path host c errno path =
    if leb path_max (length path)
    then Verified.missing (with_status c Status.uri_too_long) Errno.other
    else stated c errno path (host.stat path)

-- The search for the file: it is found, or the status is set and the function has failed.
pub data Search : Type 0 where
  found : Client → Found → Search
  stopped : Client → Search

unfoldable pub is_unset : Status → Bool
is_unset Status.unset = true
is_unset _ = false

abbrev pub go_on : (Client → Errno → Search) → Client → Verified → Search
go_on next c (Verified.found f) = Search.found c f
go_on next c (Verified.missing c' errno) =
    if is_unset c'.ta.resp_status then next c' errno else Search.stopped c'

-- One of the three candidates, and what follows if it is not there and no status is set.
unfoldable pub candidate : Host → Bytes → (Client → Errno → Search) → Client → Errno → Search
unfolding verify_static_path is_unset
candidate host path next c errno = go_on next c (verify_static_path host c errno path)

abbrev pub in_root : RequestContext → Bytes → Bytes
in_root ctx path = ctx.root ++ b'/' ∷ path

-- `client->ta.req_path`, as a string.
abbrev pub path_of : Client → Option ℕ → Bytes
path_of c none = []
path_of c (some p) = string_at c.req_headers p

abbrev pub root_name : RequestContext → Bool → Option Bytes → Bytes → Bytes
root_name ctx true (some f) path = in_root ctx f
root_name ctx true none path = in_root ctx path
root_name ctx false f path = in_root ctx path

-- The name of the first candidate: the root's fallback at `/`, or the path.
abbrev pub direct_name : RequestContext → Client → Bytes → Bytes
direct_name ctx c path =
    root_name ctx (str_eq (path_of c c.ta.req_path) (codes "/")) ctx.root_fallback path

abbrev pub not_found : Client → Errno → Search
not_found c errno = Search.stopped (with_status c Status.not_found)

abbrev pub try_fallback : Host → RequestContext → Option Bytes → Client → Errno → Search
try_fallback host ctx none = not_found
try_fallback host ctx (some f) = candidate host (in_root ctx f) not_found

abbrev pub try_html : Host → RequestContext → Bytes → Bool → Client → Errno → Search
try_html host ctx path false = try_fallback host ctx ctx.fallback
try_html host ctx path true =
    candidate host (in_root ctx path ++ codes ".html") (try_fallback host ctx ctx.fallback)

unfoldable pub find_path : Host → RequestContext → Client → Errno → Bytes → Search
unfolding candidate
find_path host ctx c errno path =
    candidate host (direct_name ctx c path) (try_html host ctx path ctx.use_http_append_fallback) c
      errno
