-- ===== src/Parser/Query.antt =====
-- The path and the query of a request in a buffer that has received more bytes.
use kitserv.Prelude.{
  ℕ, ◌+◌, ◌≤◌, ◌<◌, ◌≡◌, refl, ◌∙◌, inl, inr, Option, none, some, arith, ◌==◌, length, drop, set,
  length-set, set-append, [], ◌∷◌, ◌++◌, Bool-cases, codes, ◌⊎◌,
}
use kitserv.Cstring.{Bytes, byte_at}
use kitserv.Cstring.Laws.{HasNul, HasNul-drop, byte_at-set_zero, byte_at-set_self}
use kitserv.UrlDecode.{url_decode}
use kitserv.UrlDecode.Refine.{length-url_decode}
use kitserv.UrlDecode.Append.{url_decode-append, byte_at-url_decode_before}
use kitserv.Client.{Client, received}
use kitserv.Parser.{version_of, scan_path, take_query, method_of}
use kitserv.Parser.Scan.{has_prefix-append}

pub version_of-append :
    (xs ys : Bytes) (n : ℕ) → n ≤ length xs → version_of (xs ++ ys) n ≡ version_of xs n
unfolding version_of
version_of-append xs ys n h = elim (Bool-cases (n == 3)) [
  | inl e ↦ rw (
    has_prefix-append xs ys (codes "1.1") (ground arith),
    has_prefix-append xs ys (codes "1.0") (ground arith),
  )
  | inr e ↦ rw e
]

pub method_of-append :
    (xs ys : Bytes) (n : ℕ) → n < length xs → method_of (xs ++ ys) n ≡ method_of xs n
unfolding method_of
method_of-append xs ys n h = ground (
  arith,
  has_prefix-append xs ys (codes "GET "),
  has_prefix-append xs ys (codes "PUT "),
  has_prefix-append xs ys (codes "HEAD "),
  has_prefix-append xs ys (codes "POST "),
  has_prefix-append xs ys (codes "DELETE "),
)

-- The mark that the scan finds stands in the bytes that it scans.
scan_path-bounds :
    (q : ℕ) (s : Option ℕ) (xs : Bytes) {t : ℕ}
    → scan_path q s xs ≡ some (some t)
    → (s ≡ some t) ⊎ ((q ≤ t) × (t < q + length xs))
unfolding scan_path
scan_path-bounds q s [] h = inl (ground arith)
scan_path-bounds q none (x ∷ xs) {t} h = elim (Bool-cases (x == b'?')) [
  | inl e ↦ inr (ground (arith, scan_path-bounds (q + 1) (some q) xs {t = t}))
  | inr e ↦ inr (ground (arith, scan_path-bounds (q + 1) none xs {t = t}))
]
scan_path-bounds q (some s) (x ∷ xs) {t} h =
    ground (arith, scan_path-bounds (q + 1) (some s) xs {t = t})

pub scan_path-mark :
    (q : ℕ) (xs : Bytes) (t : ℕ)
    → scan_path q none xs ≡ some (some t)
    → (q ≤ t) × (t < q + length xs)
scan_path-mark q xs t h = elim (scan_path-bounds q none xs {t = t} h) [
  | inl e ↦ absurd (cc)
  | inr b ↦ b
]

-- The query's place, if there is one, is inside the path, which is closed at `r`.
abbrev pub MarkIn : ℕ → ℕ → Option ℕ → Type 0
MarkIn p r none = Unit
MarkIn p r (some s) = (p ≤ s) × (s < r)

module _ (m : Bytes) (c : Client) (r : ℕ) (k : r < length c.req_headers)
    (z : byte_at c.req_headers r ≡ 0) where
  query_closed : (s : ℕ) → s < r → HasNul (drop (s + 1) (set c.req_headers s 0))
  query_closed s lt =
      HasNul-drop (set c.req_headers s 0) (s + 1) r (byte_at-set_zero c.req_headers s r z)
        (omega arith) (omega (arith, length-set c.req_headers s 0))

  pub take_query-received :
      (p : ℕ) (s : Option ℕ)
      → MarkIn p r s
      → take_query (received c m) s ≡ received (take_query c s) m
  unfolding take_query
  take_query-received p none h = refl
  take_query-received p (some s) h = rw (
    set-append c.req_headers m s 0 (omega arith),
    url_decode-append (set c.req_headers s 0) (s + 1) (omega (arith, length-set c.req_headers s 0))
        (query_closed s h.1) m,
  )

  -- The path is closed: by the query's mark, or at `r`.
  pub take_query-HasNul :
      (p : ℕ) (s : Option ℕ) → p ≤ r → MarkIn p r s → HasNul (drop p (take_query c s).req_headers)
  unfolding take_query
  take_query-HasNul p none le h = HasNul-drop c.req_headers p r z le k
  take_query-HasNul p (some s) le h =
      let buf = set c.req_headers s 0 in
      let same = length-set c.req_headers s 0 in
      HasNul-drop (url_decode buf (s + 1)) p s
        (byte_at-url_decode_before buf (s + 1) (omega arith) (query_closed s h.1) s (omega arith)
          ∙ byte_at-set_self c.req_headers s 0 (omega arith))
        h.0 (omega (arith, length-url_decode buf (s + 1)))
