-- ===== src/Static/Owner.antt =====
-- The socket of the client in `kitserv_http_handle_static_path` of src/http.c.
use kitserv.Prelude.{
  ℕ, ◌≡◌, refl, ◌∙◌, Bool, true, false, Option, none, some, ◌++◌, codes, if_both, leb, length,
}
use kitserv.Prelude.Int.{ℤ, pos, negsuc, leb_ℤ, ltb_ℤ, ◌-ℤ◌}
use kitserv.Cstring.{Bytes, string_at}
use kitserv.Client.Kept.{Kept, kept}
use kitserv.Client.{Client, Rc, method_bits, with_status}
use kitserv.Status.{Status}
use kitserv.Range.{parse_range, range_known, parse_range_request}
use kitserv.Response.Text.{print_int, guess_mime_type}
use kitserv.Response.Headers.{
  has_bit, header_add, header_add_content_range, header_add_content_type_guess,
}
use kitserv.Response.Frame.{header_add-Keeps}
use kitserv.Send.Owner.{close_fd_to_zero-kept}
use kitserv.Static.{
  Host, RequestContext, Errno, Stat, Found, Search, Verified, denied, stated, verify_static_path,
  is_unset, go_on, candidate, in_root, direct_name, not_found, try_fallback, try_html, find_path,
  path_max,
}
use kitserv.Static.Respond.{
  Handled, set_fd, err_closefd, succeed, not_modified, compared, check_date, check_modified,
  strrchr_dot, dated, header_add_last_modified, or_else, with_headers, add_headers, is_bad_request,
  is_not_satisfiable, keep_headers, forget_range, range_failed, range_header, ranged, set_range,
  opened, is_get, path_set, searched, handle_static_path,
}

module _ (before : Kept) where
  -- The client of a result has the socket.
  abbrev pub HandledOwns : Handled → Type 0
  HandledOwns r = kept r.0.0 ≡ before

  err_closefd-Owns : (c : Client) → kept c ≡ before → HandledOwns (err_closefd c)
  unfolding err_closefd
  err_closefd-Owns c e = close_fd_to_zero-kept before c e

  succeed-Owns : (c : Client) → kept c ≡ before → HandledOwns (succeed c)
  unfolding succeed
  succeed-Owns c e = e

  not_modified-Owns : (c : Client) → kept c ≡ before → HandledOwns (not_modified c)
  unfolding not_modified
  not_modified-Owns c e = close_fd_to_zero-kept before _ e

  module _ (host : Host) (f : Found) where
    compared-Owns :
        (c : Client) (since : Option ℤ) → kept c ≡ before → HandledOwns (compared c f since)
    compared-Owns c none e = err_closefd-Owns _ e
    compared-Owns c (some since) e =
        if_both HandledOwns (leb_ℤ f.mtime since) (λ _. not_modified-Owns c e)
          (λ _. succeed-Owns c e)

    check_date-Owns :
        (c : Client) (o : Option ℕ) → kept c ≡ before → HandledOwns (check_date host c f o)
    check_date-Owns c none e = succeed-Owns c e
    check_date-Owns c (some p) e = compared-Owns c (host.read_date (string_at c.req_headers p)) e

    with_headers-Owns : (r : Client × Rc) → kept r.0 ≡ before → HandledOwns (with_headers host f r)
    unfolding check_modified
    with_headers-Owns (c, Rc.ok) e = check_date-Owns c c.ta.req_modified_since e
    with_headers-Owns (c, Rc.fail) e = err_closefd-Owns _ e

    or_else-kept :
        (r : Client × Rc) (next : Client → Client × Rc)
        → kept r.0 ≡ before
        → ((d : Client) → kept (next d).0 ≡ kept d)
        → kept (or_else r next).0 ≡ before
    or_else-kept (c, Rc.ok) next e k = k c ∙ e
    or_else-kept (c, Rc.fail) next e k = e

    dated-kept : (c : Client) (o : Option Bytes) → kept (dated c o).0 ≡ kept c
    dated-kept c none = refl
    dated-kept c (some text) = (header_add-Keeps c (codes "last-modified") text).same

    add_headers-Owns : (c : Client) → kept c ≡ before → HandledOwns (add_headers host f c)
    unfolding add_headers header_add_content_type_guess header_add_last_modified
    add_headers-Owns c e =
        let first = header_add_content_type_guess c (strrchr_dot none f.fname) in
        let ranges : Client → Client × Rc =
          λ d. header_add d (codes "accept-ranges") (codes "bytes") in
        let modified : Client → Client × Rc = λ d. header_add_last_modified host d f.mtime in
        with_headers-Owns (or_else (or_else first ranges) modified) (
          or_else-kept (or_else first ranges) modified
            (or_else-kept first ranges
              ((header_add-Keeps c (codes "content-type")
                  (guess_mime_type (strrchr_dot none f.fname))).same
                ∙ e)
              (λ d. (header_add-Keeps d (codes "accept-ranges") (codes "bytes")).same))
            (λ d. dated-kept d (host.print_date f.mtime)))

    range_failed-Owns : (c : Client) → kept c ≡ before → HandledOwns (range_failed host f c)
    unfolding range_failed
    range_failed-Owns c e =
        let value = codes "*/" ++ print_int (pos f.size) in
        if_both HandledOwns (is_bad_request c.ta.resp_status)
          (λ _. add_headers-Owns (forget_range c) e)
          (λ _.
            if_both HandledOwns (is_not_satisfiable c.ta.resp_status)
              (λ _.
                err_closefd-Owns (keep_headers (header_add c (codes "content-range") value).0)
                  ((header_add-Keeps c (codes "content-range") value).same ∙ e))
              (λ _. err_closefd-Owns c e))

    range_header-Owns : (r : Client × Rc) → kept r.0 ≡ before → HandledOwns (range_header host f r)
    range_header-Owns (c, Rc.ok) e = add_headers-Owns c e
    range_header-Owns (c, Rc.fail) e = err_closefd-Owns _ e

    ranged-Owns : (r : Client × Rc) → kept r.0 ≡ before → HandledOwns (ranged host f r)
    unfolding header_add_content_range
    ranged-Owns (c, Rc.ok) e =
        range_header-Owns
          (header_add_content_range c c.ta.resp_body_pos c.ta.resp_body_end (pos f.size))
          ((header_add-Keeps c (codes "content-range") _).same ∙ e)
    ranged-Owns (c, Rc.fail) e = range_failed-Owns c e

    range_known-kept :
        (c : Client) (size : ℤ) (o : Option (ℤ × ℤ))
        → kept c ≡ before
        → kept (range_known c size o).0 ≡ before
    unfolding range_known
    range_known-kept c size none e = e
    range_known-kept c size (some (from, to)) e =
        if_both (λ (r : Client × Rc). kept r.0 ≡ before) (ltb_ℤ from (pos 0)) (λ _. e)
          (λ _.
            if_both (λ (r : Client × Rc). kept r.0 ≡ before) (ltb_ℤ size from) (λ _. e) (λ _. e))

    set_range-Owns : (c : Client) → kept c ≡ before → HandledOwns (set_range host f c)
    unfolding set_range parse_range_request
    set_range-Owns c e =
        let d = record c { ta = record c.ta { resp_body_end = pos f.size -ℤ pos 1 } } in
        if_both HandledOwns c.ta.range_requested
          (λ _.
            ranged-Owns (range_known d (pos f.size) (parse_range d))
              (range_known-kept d (pos f.size) (parse_range d) e))
          (λ _. add_headers-Owns d e)

    opened-Owns : (c : Client) (o : Option ℕ) → kept c ≡ before → HandledOwns (opened host f c o)
    opened-Owns c none e = e
    opened-Owns c (some n) e = set_range-Owns (set_fd c _) e

    path_set-Owns : (c : Client) → kept c ≡ before → HandledOwns (path_set host f c)
    unfolding path_set
    path_set-Owns c e =
        if_both HandledOwns (is_get c.ta.req_method) (λ _. opened-Owns c (host.open_file f.fname) e)
          (λ _. set_range-Owns (set_fd c (negsuc 0)) e)

  abbrev SearchOwns : Search → Type 0
  SearchOwns (Search.found c f) = kept c ≡ before
  SearchOwns (Search.stopped c) = kept c ≡ before

  abbrev AllSearch : (Client → Errno → Search) → Type 0
  AllSearch next = (c : Client) (e : Errno) → kept c ≡ before → SearchOwns (next c e)

  missing-Owns :
      (next : Client → Errno → Search) (c d : Client) (errno : Errno)
      → AllSearch next
      → kept d ≡ before
      → SearchOwns (go_on next c (Verified.missing d errno))
  missing-Owns next c d errno k e =
      if_both SearchOwns (is_unset d.ta.resp_status) (λ _. k d errno e) (λ _. e)

  denied-kept : (c : Client) (errno : Errno) → kept (denied c errno) ≡ kept c
  unfolding denied
  denied-kept c Errno.access_denied = refl
  denied-kept c Errno.other = refl

  stated-Owns :
      (next : Client → Errno → Search) (c : Client) (errno : Errno) (path : Bytes) (s : Stat)
      → AllSearch next
      → kept c ≡ before
      → SearchOwns (go_on next c (stated c errno path s))
  stated-Owns next c errno path (Stat.regular size mtime) k e = e
  stated-Owns next c errno path Stat.not_regular k e =
      missing-Owns next c (denied c errno) errno k (denied-kept c errno ∙ e)
  stated-Owns next c errno path (Stat.failed x) k e =
      missing-Owns next c (denied c x) x k (denied-kept c x ∙ e)

  module _ (host : Host) where
    candidate-Owns :
        (path : Bytes) (next : Client → Errno → Search)
        → AllSearch next
        → AllSearch (candidate host path next)
    unfolding candidate verify_static_path
    candidate-Owns path next k c errno e =
        if_both (λ v. SearchOwns (go_on next c v)) (leb path_max (length path))
          (λ _. missing-Owns next c (with_status c Status.uri_too_long) Errno.other k e)
          (λ _. stated-Owns next c errno path (host.stat path) k e)

    try_fallback-Owns :
        (ctx : RequestContext) (o : Option Bytes) → AllSearch (try_fallback host ctx o)
    try_fallback-Owns ctx none = λ c errno e. e
    try_fallback-Owns ctx (some f) = candidate-Owns (in_root ctx f) not_found (λ c errno e. e)

    try_html-Owns :
        (ctx : RequestContext) (path : Bytes) (b : Bool) → AllSearch (try_html host ctx path b)
    try_html-Owns ctx path false = try_fallback-Owns ctx ctx.fallback
    try_html-Owns ctx path true =
        candidate-Owns (in_root ctx path ++ codes ".html") (try_fallback host ctx ctx.fallback)
          (try_fallback-Owns ctx ctx.fallback)

    searched-Owns : (s : Search) → SearchOwns s → HandledOwns (searched host s)
    searched-Owns (Search.found c f) e = path_set-Owns host f c e
    searched-Owns (Search.stopped c) e = e

    pub handle_static_path-Owns :
        (ctx : RequestContext) (c : Client) (errno : Errno) (path : Bytes)
        → kept c ≡ before
        → HandledOwns (handle_static_path host ctx c errno path)
    unfolding handle_static_path find_path
    handle_static_path-Owns ctx c errno path e =
        if_both HandledOwns (has_bit (method_bits c.ta.req_method) 1)
          (λ _. searched-Owns (find_path host ctx c errno path) (
            candidate-Owns (direct_name ctx c path)
              (try_html host ctx path ctx.use_http_append_fallback)
              (try_html-Owns ctx path ctx.use_http_append_fallback) c errno e))
          (λ _. e)
