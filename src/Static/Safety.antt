-- ===== src/Static/Safety.antt =====
-- What `kitserv_http_handle_static_path` of src/http.c leaves: the status, and the file that it opened.
use kitserv.Prelude.{
  ℕ, suc, ◌≡◌, refl, ◌∙◌, ◌⊎◌, inl, inr, Bool, if_both, true, false, Option, none, some, [], ◌++◌,
  codes, arith, leb, length,
}
use kitserv.Prelude.Int.{ℤ, pos, negsuc}
use kitserv.Cstring.{Bytes}
use kitserv.Status.{Status, status_is_error}
use kitserv.Client.{Client, Rc, with_status, method_bits}
use kitserv.Response.Headers.{has_bit}
use kitserv.Static.{
  Host, RequestContext, Errno, Found, Search, find_path, candidate, verify_static_path, Verified,
  is_unset, denied, go_on, stated, Stat, path_max, not_found, try_fallback, try_html, in_root,
  direct_name,
}
use kitserv.Static.Respond.{
  Handled, set_fd, server_error, path_set, handle_static_path, opened, searched, is_get,
}
use kitserv.Static.Descriptor.{Leaves, set_range-Leaves}

-- The descriptor is one that was opened, or -1 for HEAD, or there is none.
abbrev pub IsOpened : Host → ℤ → Type 0
IsOpened host fd =
    (fd ≡ pos 0)
    ⊎ (fd ≡ negsuc 0)
    ⊎ ((name : Bytes) × (n : ℕ) × (host.open_file name ≡ some n) × (fd ≡ pos (suc n)))

abbrev pub Handles : Host → Handled → Type 0
Handles host r = (fd : ℤ) × IsOpened host fd × Leaves fd r

failed-Handles :
    (host : Host) (c : Client)
    → c.ta.resp_fd ≡ pos 0
    → status_is_error c.ta.resp_status ≡ true
    → Handles host ((c, Rc.fail), [])
failed-Handles host c e s = (pos 0, inl refl, (s, rw e (omega arith), (e, refl)))

opened-Handles :
    (host : Host) (f : Found) (c : Client) (o : Option ℕ)
    → host.open_file f.fname ≡ o
    → c.ta.resp_fd ≡ pos 0
    → Handles host (opened host f c o)
unfolding status_is_error
opened-Handles host f c none h e = failed-Handles host (server_error c) e refl
opened-Handles host f c (some fd) h e = (
  pos (suc fd),
  inr (inr (f.fname, fd, h, refl)),
  set_range-Leaves host f (pos (suc fd)) (set_fd c (pos (suc fd))) refl,
)

path_set-Handles :
    (host : Host) (f : Found) (c : Client) → c.ta.resp_fd ≡ pos 0 → Handles host (path_set host f c)
unfolding path_set
path_set-Handles host f c e =
    if_both (Handles host) (is_get c.ta.req_method)
      (λ _. opened-Handles host f c (host.open_file f.fname) refl e)
      (λ _.
        (negsuc 0, inr (inl refl), set_range-Leaves host f (negsuc 0) (set_fd c (negsuc 0)) refl))

-- A search that begins without a status finds a file for the same client, or stops with an error.
abbrev Searches : Client → Search → Type 0
Searches c (Search.found d f) = d ≡ c
Searches c (Search.stopped d) =
    (d.ta.resp_fd ≡ c.ta.resp_fd) × (status_is_error d.ta.resp_status ≡ true)

module _ (host : Host) (c : Client) (fresh : is_unset c.ta.resp_status ≡ true) where
  missing-Searches :
      (next : Client → Errno → Search) (errno errno' : Errno)
      → ((e : Errno) → Searches c (next c e))
      → Searches c (go_on next c (Verified.missing (denied c errno) errno'))
  unfolding denied is_unset status_is_error
  missing-Searches next Errno.access_denied errno' h = (refl, refl)
  missing-Searches next Errno.other errno' h = rw fresh (h errno')

  stated-Searches :
      (next : Client → Errno → Search) (errno : Errno) (path : Bytes) (s : Stat)
      → ((e : Errno) → Searches c (next c e))
      → Searches c (go_on next c (stated c errno path s))
  stated-Searches next errno path (Stat.regular size mtime) h = refl
  stated-Searches next errno path Stat.not_regular h = missing-Searches next errno errno h
  stated-Searches next errno path (Stat.failed e) h = missing-Searches next e e h

  candidate-Searches :
      (path : Bytes) (next : Client → Errno → Search) (errno : Errno)
      → ((e : Errno) → Searches c (next c e))
      → Searches c (candidate host path next c errno)
  unfolding candidate verify_static_path is_unset status_is_error
  candidate-Searches path next errno h =
      if_both (λ v. Searches c (go_on next c v)) (leb path_max (length path)) (λ _. (refl, refl))
        (λ _. stated-Searches next errno path (host.stat path) h)

  not_found-Searches : (e : Errno) → Searches c (not_found c e)
  unfolding status_is_error
  not_found-Searches e = (refl, refl)

  try_fallback-Searches :
      (ctx : RequestContext) (f : Option Bytes) (e : Errno)
      → Searches c (try_fallback host ctx f c e)
  try_fallback-Searches ctx none e = not_found-Searches e
  try_fallback-Searches ctx (some f) e =
      candidate-Searches (in_root ctx f) not_found e not_found-Searches

  try_html-Searches :
      (ctx : RequestContext) (path : Bytes) (html : Bool) (e : Errno)
      → Searches c (try_html host ctx path html c e)
  try_html-Searches ctx path false e = try_fallback-Searches ctx ctx.fallback e
  try_html-Searches ctx path true e =
      candidate-Searches (in_root ctx path ++ codes ".html") (try_fallback host ctx ctx.fallback) e
        (try_fallback-Searches ctx ctx.fallback)

  find_path-Searches :
      (ctx : RequestContext) (errno : Errno) (path : Bytes)
      → Searches c (find_path host ctx c errno path)
  unfolding find_path
  find_path-Searches ctx errno path =
      candidate-Searches (direct_name ctx c path)
        (try_html host ctx path ctx.use_http_append_fallback) errno
        (try_html-Searches ctx path ctx.use_http_append_fallback)

searched-Handles :
    (host : Host) (c : Client) (s : Search)
    → c.ta.resp_fd ≡ pos 0
    → Searches c s
    → Handles host (searched host s)
searched-Handles host c (Search.found d f) e h = path_set-Handles host f d (rw h e)
searched-Handles host c (Search.stopped d) e (k, s) = failed-Handles host d (k ∙ e) s

-- For a client with no status set and no file to send, whatever the file system, the dates and `errno`
-- are: `kitserv_http_handle_static_path` returns 0 with a status of 200, 206 or 304, or -1 with an error
-- status and no open descriptor. A file that it opened is either kept by the client, or was closed once.
pub handle_static_path-Handles :
    (host : Host) (ctx : RequestContext) (c : Client) (errno : Errno) (path : Bytes)
    → is_unset c.ta.resp_status ≡ true
    → c.ta.resp_fd ≡ pos 0
    → Handles host (handle_static_path host ctx c errno path)
unfolding handle_static_path status_is_error
handle_static_path-Handles host ctx c errno path fresh e =
    if_both (Handles host) (has_bit (method_bits c.ta.req_method) 1)
      (λ _.
        searched-Handles host c (find_path host ctx c errno path) e
          (find_path-Searches host c fresh ctx errno path))
      (λ _. failed-Handles host (with_status c Status.method_not_allowed) e refl)
