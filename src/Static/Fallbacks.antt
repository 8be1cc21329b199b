-- ===== src/Static/Fallbacks.antt =====
-- Which file `kitserv_http_handle_static_path` of src/http.c serves.
use kitserv.Prelude.{
  ◌<◌, ◌≡◌, ◌≢◌, refl, Bool, true, false, Option, none, some, List, [], ◌∷◌, ◌++◌, length, codes,
  arith, if◌then◌else◌,
}
use kitserv.Cstring.{Bytes, str_eq}
use kitserv.Status.{Status}
use kitserv.Client.{Client, with_status}
use kitserv.Static.{
  Host, RequestContext, Errno, Stat, Found, Search, denied, verify_static_path, candidate, in_root,
  root_name, path_of, find_path, is_unset, path_max, try_fallback, try_html, not_found,
}

abbrev html_name : RequestContext → Bytes → Bool → List Bytes → List Bytes
html_name ctx path false rest = rest
html_name ctx path true rest = (in_root ctx path ++ codes ".html") ∷ rest

abbrev fallback_name : RequestContext → Option Bytes → List Bytes
fallback_name ctx none = []
fallback_name ctx (some f) = in_root ctx f ∷ []

-- The root's fallback, if there is one and the request is for `/`, and the path otherwise.
abbrev pub main_name : RequestContext → Bool → Option Bytes → Bytes → Bytes
main_name ctx is_root none path = in_root ctx path
main_name ctx is_root (some f) path = if is_root then in_root ctx f else in_root ctx path

root_name-main_name :
    (ctx : RequestContext) (is_root : Bool) (f : Option Bytes) (path : Bytes)
    → root_name ctx is_root f path ≡ main_name ctx is_root f path
root_name-main_name ctx true none path = refl
root_name-main_name ctx true (some f) path = refl
root_name-main_name ctx false none path = refl
root_name-main_name ctx false (some f) path = refl

-- The names that may be served, in order: the path (or the fallback for `/`), the path with `.html`,
-- and the fallback, each if it is configured.
abbrev pub candidates : RequestContext → Client → Bytes → List Bytes
candidates ctx c path =
    main_name ctx (str_eq (path_of c c.ta.req_path) (codes "/")) ctx.root_fallback path
    ∷ html_name ctx path ctx.use_http_append_fallback (fallback_name ctx ctx.fallback)

abbrev regular_or : Bytes → Option Found → Stat → Option Found
regular_or name next (Stat.regular size mtime) =
    some (record { fname = name; size = size; mtime = mtime })
regular_or name next _ = next

-- The first name that is a regular file.
abbrev pub first_regular : Host → List Bytes → Option Found
first_regular host [] = none
first_regular host (name ∷ names) = regular_or name (first_regular host names) (host.stat name)

-- Every name fits and may be looked at.
abbrev pub AllReadable : Host → List Bytes → Type 0
AllReadable host [] = Unit
AllReadable host (name ∷ names) =
    (length name < path_max)
    × (host.stat name ≢ Stat.failed Errno.access_denied)
    × AllReadable host names

abbrev pub outcome : Client → Option Found → Search
outcome c none = Search.stopped (with_status c Status.not_found)
outcome c (some f) = Search.found c f

module _ (host : Host) (c : Client) (fresh : is_unset c.ta.resp_status ≡ true) where
  -- A candidate before a search that gives the first of the names left.
  candidate_lem :
      (name : Bytes) (names : List Bytes) (next : Client → Errno → Search)
      → length name < path_max
      → host.stat name ≢ Stat.failed Errno.access_denied
      → next c Errno.other ≡ outcome c (first_regular host names)
      → candidate host name next c Errno.other ≡ outcome c (first_regular host (name ∷ names))
  unfolding candidate verify_static_path denied
  candidate_lem name names next l r h = ground arith

  try_fallback_lem :
      (ctx : RequestContext) (f : Option Bytes)
      → AllReadable host (fallback_name ctx f)
      → try_fallback host ctx f c Errno.other ≡ outcome c (first_regular host (fallback_name ctx f))
  try_fallback_lem ctx none r = refl
  try_fallback_lem ctx (some f) r = candidate_lem (in_root ctx f) [] not_found r.0 r.1 refl

  try_html_lem :
      (ctx : RequestContext) (path : Bytes) (html : Bool)
      → AllReadable host (html_name ctx path html (fallback_name ctx ctx.fallback))
      → try_html host ctx path html c Errno.other
        ≡ outcome c (first_regular host (html_name ctx path html (fallback_name ctx ctx.fallback)))
  try_html_lem ctx path false r = try_fallback_lem ctx ctx.fallback r
  try_html_lem ctx path true r =
      candidate_lem (in_root ctx path ++ codes ".html") (fallback_name ctx ctx.fallback)
        (try_fallback host ctx ctx.fallback) r.0 r.1 (try_fallback_lem ctx ctx.fallback r.2)

-- For a client with no status set, `errno` not EACCES, and candidates that all fit in PATH_MAX and may
-- be looked at: the search finds the first candidate that is a regular file, in the order path (or the
-- root's fallback for `/`), path with `.html`, fallback; with none, it stops with 404.
pub find_path_lem :
    (host : Host) (ctx : RequestContext) (c : Client) (path : Bytes)
    → is_unset c.ta.resp_status ≡ true
    → AllReadable host (candidates ctx c path)
    → find_path host ctx c Errno.other path ≡ outcome c (first_regular host (candidates ctx c path))
unfolding find_path
find_path_lem host ctx c path fresh r =
    rw
      (root_name-main_name ctx (str_eq (path_of c c.ta.req_path) (codes "/")) ctx.root_fallback
        path)
      (candidate_lem host c fresh
        (main_name ctx (str_eq (path_of c c.ta.req_path) (codes "/")) ctx.root_fallback path)
        (html_name ctx path ctx.use_http_append_fallback (fallback_name ctx ctx.fallback))
        (try_html host ctx path ctx.use_http_append_fallback) r.0 r.1
        (try_html_lem host c fresh ctx path ctx.use_http_append_fallback r.2))
