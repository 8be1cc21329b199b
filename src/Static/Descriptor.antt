-- ===== src/Static/Descriptor.antt =====
-- The file that `kitserv_http_handle_static_path` of src/http.c has opened, from the range of the request
-- on.
use kitserv.Prelude.{
  ℕ, zero, suc, ◌≡◌, refl, ap, ◌∙◌, ◌⊎◌, inl, inr, Bool-cases, if_both, true, Option, none, some,
  List, [], ◌∷◌, ◌++◌, codes, arith,
}
use kitserv.Prelude.Int.{ℤ, pos, negsuc, ◌≤ℤ◌, leb_ℤ, ltb_ℤ, ◌-ℤ◌}
use kitserv.Cstring.{Bytes, string_at}
use kitserv.Status.{Status, status_is_error}
use kitserv.Client.{Client, Rc, with_status}
use kitserv.Range.{parse_range, range_known, parse_range_request}
use kitserv.Response.Headers.{header_add, header_add_content_range, header_add_content_type_guess}
use kitserv.Response.Text.{print_int, guess_mime_type}
use kitserv.Response.Frame.{header_add-Keeps, StatusOf, header_add-StatusOf}
use kitserv.Static.{Host, Found}
use kitserv.Static.Respond.{
  Handled, err_closefd, server_error, succeed, not_modified, check_modified, add_headers,
  range_failed, set_range, or_else, header_add_last_modified, compared, check_date, with_headers,
  dated, strrchr_dot, is_bad_request, is_not_satisfiable, keep_headers, forget_range, ranged,
  range_header,
}

-- A descriptor that was opened is either kept by the client or closed, and not both; with none to
-- close, nothing is closed.
abbrev pub Accounted : ℤ → ℤ → List ℤ → Type 0
Accounted (pos zero) left closed = (left ≡ pos 0) × (closed ≡ [])
Accounted (pos (suc n)) left closed =
    ((left ≡ pos (suc n)) × (closed ≡ [])) ⊎ ((left ≡ pos 0) × (closed ≡ pos (suc n) ∷ []))
Accounted (negsuc n) left closed = (left ≡ negsuc n) × (closed ≡ [])

abbrev pub IsServedStatus : Status → Type 0
IsServedStatus s = (s ≡ Status.ok) ⊎ (s ≡ Status.partial_content) ⊎ (s ≡ Status.not_modified)

-- What the function leaves for a descriptor: an error status and no open descriptor behind -1, and a
-- status of success behind 0.
abbrev pub Leaves : ℤ → Handled → Type 0
Leaves fd ((c, Rc.ok), closed) = IsServedStatus c.ta.resp_status × Accounted fd c.ta.resp_fd closed
Leaves fd ((c, Rc.fail), closed) =
    (status_is_error c.ta.resp_status ≡ true)
    × (c.ta.resp_fd ≤ℤ pos 0)
    × Accounted fd c.ta.resp_fd closed

err_closefd-Leaves :
    (c : Client) (fd : ℤ)
    → c.ta.resp_fd ≡ fd
    → status_is_error c.ta.resp_status ≡ true
    → Leaves fd (err_closefd c)
unfolding err_closefd
err_closefd-Leaves c (pos zero) e s = ground arith
err_closefd-Leaves c (pos (suc n)) e s = ground arith
err_closefd-Leaves c (negsuc n) e s = ground arith

succeed-Leaves : (c : Client) (fd : ℤ) → c.ta.resp_fd ≡ fd → Leaves fd (succeed c)
unfolding succeed
succeed-Leaves c (pos zero) e = ground arith
succeed-Leaves c (pos (suc n)) e = ground arith
succeed-Leaves c (negsuc n) e = ground arith

not_modified-Leaves : (c : Client) (fd : ℤ) → c.ta.resp_fd ≡ fd → Leaves fd (not_modified c)
unfolding not_modified
not_modified-Leaves c (pos zero) e = ground arith
not_modified-Leaves c (pos (suc n)) e = ground arith
not_modified-Leaves c (negsuc n) e = ground arith

module _ (host : Host) (f : Found) (fd : ℤ) where
  compared-Leaves :
      (c : Client) (since : Option ℤ) → c.ta.resp_fd ≡ fd → Leaves fd (compared c f since)
  unfolding status_is_error
  compared-Leaves c none e = err_closefd-Leaves (with_status c Status.bad_request) fd e refl
  compared-Leaves c (some since) e = elim (Bool-cases (leb_ℤ f.mtime since)) [
    | inl old ↦ rw old (not_modified-Leaves c fd e)
    | inr newer ↦ rw newer (succeed-Leaves c fd e)
  ]

  check_date-Leaves :
      (c : Client) (o : Option ℕ) → c.ta.resp_fd ≡ fd → Leaves fd (check_date host c f o)
  check_date-Leaves c none e = succeed-Leaves c fd e
  check_date-Leaves c (some p) e = compared-Leaves c (host.read_date (string_at c.req_headers p)) e

  with_headers-Leaves : (r : Client × Rc) → r.0.ta.resp_fd ≡ fd → Leaves fd (with_headers host f r)
  unfolding check_modified status_is_error
  with_headers-Leaves (c, Rc.ok) e = check_date-Leaves c c.ta.req_modified_since e
  with_headers-Leaves (c, Rc.fail) e = err_closefd-Leaves (server_error c) fd e refl

  or_else-fd :
      (r : Client × Rc) (next : Client → Client × Rc)
      → r.0.ta.resp_fd ≡ fd
      → ((d : Client) → (next d).0.ta.resp_fd ≡ d.ta.resp_fd)
      → (or_else r next).0.ta.resp_fd ≡ fd
  or_else-fd (c, Rc.ok) next e k = k c ∙ e
  or_else-fd (c, Rc.fail) next e k = e

  dated-fd : (c : Client) (o : Option Bytes) → (dated c o).0.ta.resp_fd ≡ c.ta.resp_fd
  dated-fd c none = refl
  dated-fd c (some text) = (header_add-Keeps c (codes "last-modified") text).fd

  add_headers-Leaves : (c : Client) → c.ta.resp_fd ≡ fd → Leaves fd (add_headers host f c)
  unfolding add_headers header_add_content_type_guess header_add_last_modified
  add_headers-Leaves c e =
      let first = header_add_content_type_guess c (strrchr_dot none f.fname) in
      let ranges : Client → Client × Rc =
        λ d. header_add d (codes "accept-ranges") (codes "bytes") in
      let modified : Client → Client × Rc = λ d. header_add_last_modified host d f.mtime in
      with_headers-Leaves (or_else (or_else first ranges) modified) (
        or_else-fd (or_else first ranges) modified
          (or_else-fd first ranges
            ((header_add-Keeps c (codes "content-type")
                (guess_mime_type (strrchr_dot none f.fname))).fd
              ∙ e)
            (λ d. (header_add-Keeps d (codes "accept-ranges") (codes "bytes")).fd))
          (λ d. dated-fd d (host.print_date f.mtime)))

  header_add-error :
      (r : Client × Rc) (s : Status)
      → StatusOf s r
      → status_is_error s ≡ true
      → status_is_error r.0.ta.resp_status ≡ true
  unfolding status_is_error
  header_add-error (c, Rc.ok) s h e = ap status_is_error h ∙ e
  header_add-error (c, Rc.fail) s h e = rw h refl

  range_failed-Leaves :
      (c : Client)
      → c.ta.resp_fd ≡ fd
      → status_is_error c.ta.resp_status ≡ true
      → Leaves fd (range_failed host f c)
  unfolding range_failed
  range_failed-Leaves c e s = elim (Bool-cases (is_bad_request c.ta.resp_status)) [
    | inl bad ↦ rw bad (add_headers-Leaves (forget_range c) e)
    | inr not_bad ↦ elim (Bool-cases (is_not_satisfiable c.ta.resp_status)) [
      | inl past ↦
          rw (not_bad, past)
            (let key = codes "content-range" in
              let value = codes "*/" ++ print_int (pos f.size) in
              err_closefd-Leaves (keep_headers (header_add c key value).0) fd
                ((header_add-Keeps c key value).fd ∙ e)
                (header_add-error (header_add c key value) c.ta.resp_status
                  (header_add-StatusOf c key value) s))
      | inr other ↦ rw (not_bad, other) (err_closefd-Leaves c fd e s)
    ]
  ]

  range_header-Leaves : (r : Client × Rc) → r.0.ta.resp_fd ≡ fd → Leaves fd (range_header host f r)
  unfolding status_is_error
  range_header-Leaves (c, Rc.ok) e = add_headers-Leaves c e
  range_header-Leaves (c, Rc.fail) e = err_closefd-Leaves (server_error c) fd e refl

-- A range request keeps the descriptor, and sets an error status when it fails.
abbrev Ranged : ℤ → Client × Rc → Type 0
Ranged fd (c, Rc.ok) = c.ta.resp_fd ≡ fd
Ranged fd (c, Rc.fail) = (c.ta.resp_fd ≡ fd) × (status_is_error c.ta.resp_status ≡ true)

range_known-Ranged :
    (c : Client) (size : ℤ) (o : Option (ℤ × ℤ)) → Ranged c.ta.resp_fd (range_known c size o)
unfolding range_known status_is_error
range_known-Ranged c size none = (refl, refl)
range_known-Ranged c size (some (from, to)) = elim (Bool-cases (ltb_ℤ from (pos 0))) [
  | inl suffix ↦ rw suffix refl
  | inr at_start ↦ elim (Bool-cases (ltb_ℤ size from)) [
    | inl past ↦ rw (at_start, past) (refl, refl)
    | inr inside ↦ rw (at_start, inside) refl
  ]
]

module _ (host : Host) (f : Found) (fd : ℤ) where
  ranged-Leaves : (r : Client × Rc) → Ranged fd r → Leaves fd (ranged host f r)
  unfolding header_add_content_range
  ranged-Leaves (c, Rc.ok) e =
      range_header-Leaves host f fd
        (header_add_content_range c c.ta.resp_body_pos c.ta.resp_body_end (pos f.size))
        ((header_add-Keeps c (codes "content-range") _).fd ∙ e)
  ranged-Leaves (c, Rc.fail) (e, s) = range_failed-Leaves host f fd c e s

  pub set_range-Leaves : (c : Client) → c.ta.resp_fd ≡ fd → Leaves fd (set_range host f c)
  unfolding set_range parse_range_request
  set_range-Leaves c e =
      let c' = record c { ta = record c.ta { resp_body_end = pos f.size -ℤ pos 1 } } in
      if_both (Leaves fd) c.ta.range_requested
        (λ _.
          ranged-Leaves (range_known c' (pos f.size) (parse_range c'))
            (rw (← e) (range_known-Ranged c' (pos f.size) (parse_range c'))))
        (λ _. add_headers-Leaves host f fd c' e)
