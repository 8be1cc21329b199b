-- ===== src/Parser/Target.antt =====
-- The target of a request in the switch of `kitserv_http_recv_request` of src/http.c: its path and query.
use kitserv.Prelude.{
  ℕ, ◌+◌, ◌-◌, ◌≡◌, refl, sym, ap, ◌∙◌, false, Option, none, some, [], ◌∷◌, ◌++◌, ◌==◌, arith,
  length, drop, take, set, length-append, append_assoc, drop-length, take-length, set-length, leb,
}
use kitserv.Cstring.{Bytes, steps_to, cstr, string_at, is_print}
use kitserv.Client.{Client}
use kitserv.Traversal.{attempted_path_traversal}
use kitserv.UrlDecode.{url_decode, decoded}
use kitserv.UrlDecode.Place.{IsWord, leftover, length-leftover, url_decode-between, cstr-append_nul}
use kitserv.Parser.{
  scan_path, req_path, path_found, path_scanned, path_checked, take_path, take_query, req_version,
}
use kitserv.Parser.RequestLine.{holding, scan-behind}

-- A path, with a query behind a `?`.
abbrev pub target : Bytes → Option Bytes → Bytes
target t none = t
target t (some q) = t ++ b'?' ∷ q

abbrev NoMark : Bytes → Type 0
NoMark [] = Unit
NoMark (x ∷ s) = ((x == b'?') ≡ false) × NoMark s

abbrev IsQuery : Option Bytes → Type 0
IsQuery none = Unit
IsQuery (some q) = IsWord q

-- Printable bytes and no spaces, and no `?` in the path.
abbrev pub IsTarget : Bytes → Option Bytes → Type 0
IsTarget t o = IsWord t × NoMark t × IsQuery o

steps_to-IsWord : (s post : Bytes) → IsWord s → steps_to b' ' (s ++ b' ' ∷ post) ≡ length s
unfolding steps_to
steps_to-IsWord [] post w = ground arith
steps_to-IsWord (x ∷ s) post w = ground (arith, steps_to-IsWord s post w.2)

IsWord-append : (s q : Bytes) → IsWord s → IsWord q → IsWord (s ++ b'?' ∷ q)
IsWord-append [] q w v = (omega arith, omega arith, v)
IsWord-append (x ∷ s) q w v = (w.0, w.1, IsWord-append s q w.2 v)

target-IsWord : (t : Bytes) (o : Option Bytes) → IsTarget t o → IsWord (target t o)
target-IsWord t none w = w.0
target-IsWord t (some q) w = IsWord-append t q w.0 w.2

scan_path-marked : (q k : ℕ) (s : Bytes) → IsWord s → scan_path q (some k) s ≡ some (some k)
unfolding scan_path is_print
scan_path-marked q k [] w = refl
scan_path-marked q k (x ∷ s) w = ground (arith, scan_path-marked (q + 1) k s w.2)

-- Where the scan finds the mark.
abbrev mark_of : ℕ → Option Bytes → Option ℕ
mark_of k none = none
mark_of k (some q) = some k

scan_path-target :
    (k : ℕ) (t : Bytes) (o : Option Bytes)
    → IsTarget t o
    → scan_path k none (target t o) ≡ some (mark_of (k + length t) o)
unfolding scan_path is_print
scan_path-target k [] none w = refl
scan_path-target k [] (some q) w = ground (arith, scan_path-marked (k + 1) k q w.2)
scan_path-target k (x ∷ t) none w =
    ground (arith, scan_path-target (k + 1) t none (w.0.2, w.1.1, w.2))
scan_path-target k (x ∷ t) (some q) w =
    ground (arith, scan_path-target (k + 1) t (some q) (w.0.2, w.1.1, w.2))

pub set-behind :
    (pre s : Bytes) (x v : ℕ) (tail : Bytes)
    → set (pre ++ (s ++ x ∷ tail)) (length pre + length s) v ≡ pre ++ (s ++ v ∷ tail)
set-behind pre s x v tail =
    ap (λ b. set b (length pre + length s) v) (sym (append_assoc pre s (x ∷ tail)))
    ∙ ap (λ n. set ((pre ++ s) ++ x ∷ tail) n v) (sym (length-append pre s))
    ∙ set-length (pre ++ s) x tail v
    ∙ append_assoc pre s (v ∷ tail)

-- The query is decoded behind the path.
query_decoded :
    (pre t q tail : Bytes)
    → IsWord q
    → url_decode
        (set (pre ++ ((t ++ b'?' ∷ q) ++ 0 ∷ tail)) (length pre + length t) 0)
        (length pre + length t + 1)
      ≡ pre ++ (t ++ 0 ∷ (decoded q ++ 0 ∷ (leftover q ++ tail)))
query_decoded pre t q tail w =
    let size : length pre + length t + 1 ≡ length (pre ++ (t ++ 0 ∷ [])) =
      omega (arith, length-append pre (t ++ 0 ∷ []), length-append t (0 ∷ [])) in
    let more = decoded q ++ 0 ∷ (leftover q ++ tail) in
    ap (λ b. url_decode (set (pre ++ b) (length pre + length t) 0) (length pre + length t + 1))
      (append_assoc t (b'?' ∷ q) (0 ∷ tail))
    ∙ ap (λ b. url_decode b (length pre + length t + 1)) (set-behind pre t b'?' 0 (q ++ 0 ∷ tail))
    ∙ ap (λ n. url_decode (pre ++ (t ++ 0 ∷ (q ++ 0 ∷ tail))) n) size
    ∙ ap (λ b. url_decode b (length (pre ++ (t ++ 0 ∷ []))))
        (ap (λ b. pre ++ b) (sym (append_assoc t (0 ∷ []) (q ++ 0 ∷ tail)))
          ∙ sym (append_assoc pre (t ++ 0 ∷ []) (q ++ 0 ∷ tail)))
    ∙ url_decode-between (pre ++ (t ++ 0 ∷ [])) q tail w
    ∙ append_assoc pre (t ++ 0 ∷ []) more
    ∙ ap (λ b. pre ++ b) (append_assoc t (0 ∷ []) more)

-- The bytes up to the end of the target, when it is parsed.
abbrev pub parsed : Bytes → Bytes → Option Bytes → Bytes
parsed pre t none = pre ++ (decoded t ++ 0 ∷ leftover t)
parsed pre t (some q) = pre ++ (decoded t ++ 0 ∷ (leftover t ++ (decoded q ++ 0 ∷ leftover q)))

pub length-parsed :
    (pre t : Bytes) (o : Option Bytes)
    → length (parsed pre t o) ≡ length pre + length (target t o) + 1
length-parsed pre t none = omega (
  arith,
  length-append pre (decoded t ++ 0 ∷ leftover t),
  length-append (decoded t) (0 ∷ leftover t),
  length-leftover t,
)
length-parsed pre t (some q) =
    let behind = decoded q ++ 0 ∷ leftover q in
    omega (
      arith,
      length-append pre (decoded t ++ 0 ∷ (leftover t ++ behind)),
      length-append (decoded t) (0 ∷ (leftover t ++ behind)),
      length-append (leftover t) behind,
      length-append (decoded q) (0 ∷ leftover q),
      length-append t (b'?' ∷ q),
      length-leftover t,
      length-leftover q,
    )

string_at-behind :
    (pre s more tail : Bytes) → string_at ((pre ++ (s ++ 0 ∷ more)) ++ tail) (length pre) ≡ cstr s
string_at-behind pre s more tail =
    ap (λ b. string_at b (length pre)) (append_assoc pre (s ++ 0 ∷ more) tail)
    ∙ ap cstr (drop-length pre ((s ++ 0 ∷ more) ++ tail) ∙ append_assoc s (0 ∷ more) tail)
    ∙ cstr-append_nul s (more ++ tail)

-- The path as a string.
pub path_at-parsed :
    (pre t : Bytes) (o : Option Bytes) (tail : Bytes)
    → string_at (parsed pre t o ++ tail) (length pre) ≡ cstr (decoded t)
path_at-parsed pre t none tail = string_at-behind pre (decoded t) (leftover t) tail
path_at-parsed pre t (some q) tail =
    string_at-behind pre (decoded t) (leftover t ++ (decoded q ++ 0 ∷ leftover q)) tail

-- The path and the query in two steps.
pub parsed-split :
    (pre t q : Bytes) → parsed pre t (some q) ≡ parsed pre t none ++ (decoded q ++ 0 ∷ leftover q)
parsed-split pre t q =
    let behind = decoded q ++ 0 ∷ leftover q in
    ap (λ b. pre ++ b) (sym (append_assoc (decoded t) (0 ∷ leftover t) behind))
    ∙ sym (append_assoc pre (decoded t ++ 0 ∷ leftover t) behind)

-- The query as a string.
pub query_at-parsed :
    (pre t q tail : Bytes)
    → string_at (parsed pre t (some q) ++ tail) (length pre + length t + 1) ≡ cstr (decoded q)
query_at-parsed pre t q tail =
    ap (λ b. string_at (b ++ tail) (length pre + length t + 1)) (parsed-split pre t q)
    ∙ ap (λ n. string_at ((parsed pre t none ++ (decoded q ++ 0 ∷ leftover q)) ++ tail) n)
        (sym (length-parsed pre t none))
    ∙ string_at-behind (parsed pre t none) (decoded q) (leftover q) tail

-- The client behind the target.
abbrev pub with_target : Client → Bytes → Bytes → Option Bytes → Bytes → Client
with_target c pre t none tail = record c {
  req_headers = parsed pre t none ++ tail;
  ta = record c.ta { req_path = some (length pre) };
}
with_target c pre t (some q) tail = record c {
  req_headers = parsed pre t (some q) ++ tail;
  ta = record c.ta { req_path = some (length pre); req_query = some (length pre + length t + 1) };
}

-- What the decoding of a path leaves, in front of `more`.
path_decoded :
    (pre t more : Bytes)
    → IsWord t
    → url_decode (pre ++ (t ++ 0 ∷ more)) (length pre) ≡ parsed pre t none ++ more
path_decoded pre t more w =
    url_decode-between pre t more w
    ∙ ap (λ b. pre ++ b) (sym (append_assoc (decoded t) (0 ∷ leftover t) more))
    ∙ sym (append_assoc pre (decoded t ++ 0 ∷ leftover t) more)

path_scanned_line :
    (c : Client) (pre t : Bytes) (o : Option Bytes) (tail : Bytes)
    → IsTarget t o
    → path_scanned
        (holding c (pre ++ (target t o ++ b' ' ∷ tail)))
        (length pre)
        (length pre + length (target t o))
        (some (mark_of (length pre + length t) o))
      ≡ path_checked (with_target c pre t o tail) (length pre) (length pre + length (target t o))
unfolding path_scanned take_path take_query
path_scanned_line c pre t none tail w =
    ap
      (λ b.
        path_checked
          (record c { req_headers = b; ta = record c.ta { req_path = some (length pre) } })
          (length pre) (length pre + length t))
      (ap (λ b. url_decode b (length pre)) (set-behind pre t b' ' 0 tail)
        ∙ path_decoded pre t tail w.0)
path_scanned_line c pre t (some q) tail w =
    ap
      (λ b.
        path_checked
          (record c {
            req_headers = b;
            ta = record c.ta {
              req_path = some (length pre);
              req_query = some (length pre + length t + 1);
            };
          })
          (length pre) (length pre + length (t ++ b'?' ∷ q)))
      (ap
          (λ b.
            url_decode (url_decode (set b (length pre + length t) 0) (length pre + length t + 1))
              (length pre))
          (set-behind pre (t ++ b'?' ∷ q) b' ' 0 tail)
        ∙ ap (λ b. url_decode b (length pre)) (query_decoded pre t q tail w.2)
        ∙ path_decoded pre t (decoded q ++ 0 ∷ (leftover q ++ tail)) w.0
        ∙ ap (λ b. parsed pre t none ++ b) (sym (append_assoc (decoded q) (0 ∷ leftover q) tail))
        ∙ sym (append_assoc (parsed pre t none) (decoded q ++ 0 ∷ leftover q) tail)
        ∙ ap (λ b. b ++ tail) (sym (parsed-split pre t q)))

with_target-string_at :
    (c : Client) (pre t : Bytes) (o : Option Bytes) (tail : Bytes)
    → string_at (with_target c pre t o tail).req_headers (length pre) ≡ cstr (decoded t)
with_target-string_at c pre t none tail = path_at-parsed pre t none tail
with_target-string_at c pre t (some q) tail = path_at-parsed pre t (some q) tail

-- HTTP_PS_REQ_PATH takes a target whose decoded path does not go up.
pub req_path_line :
    (c : Client) (pre t : Bytes) (o : Option Bytes) (tail : Bytes)
    → IsTarget t o
    → attempted_path_traversal (cstr (decoded t)) ≡ false
    → req_path (holding c (pre ++ (target t o ++ b' ' ∷ tail))) (length pre) (length pre)
      ≡ req_version
          (with_target c pre t o tail)
          (length pre + length (target t o) + 1)
          (length pre + length (target t o) + 1)
unfolding req_path path_found path_checked
req_path_line c pre t o tail w safe =
    let s = target t o in
    let p = length pre in
    let at =
      scan-behind b' ' pre (s ++ b' ' ∷ tail)
      ∙ ap (λ n. p + n) (steps_to-IsWord s tail (target-IsWord t o w)) in
    let cut : take (p + length s - p) (drop p (pre ++ (s ++ b' ' ∷ tail))) ≡ s =
      ap (λ n. take n (drop p (pre ++ (s ++ b' ' ∷ tail)))) (omega arith)
      ∙ ap (λ b. take (length s) b) (drop-length pre (s ++ b' ' ∷ tail))
      ∙ take-length s (b' ' ∷ tail) in
    let inside : leb (length (pre ++ (s ++ b' ' ∷ tail))) (p + length s) ≡ false =
      ground (arith, length-append pre (s ++ b' ' ∷ tail), length-append s (b' ' ∷ tail)) in
    rw
      (
        at,
        inside,
        cut,
        scan_path-target p t o w,
        path_scanned_line c pre t o tail w,
        with_target-string_at c pre t o tail,
        safe,
      )
      refl
