-- ===== src/Parser/HeaderLine.antt =====
-- One header line in the switch of `kitserv_http_recv_request` of src/http.c.
use kitserv.Prelude.{
  ℕ, ◌+◌, ◌<◌, ◌≡◌, refl, ap, ◌∙◌, false, some, [], ◌∷◌, ◌++◌, ◌==◌, arith, length, drop, set,
  length-append, append_assoc, drop-length, leb,
}
use kitserv.Cstring.{Bytes, steps_to, cstr, string_at, strchr}
use kitserv.Client.{Client}
use kitserv.Header.{headers, process_header}
use kitserv.UrlDecode.Place.{IsWord, cstr-append_nul, cstr-IsWord}
use kitserv.Parser.{Parse, head_line, head_found, split_header, after_header, skip_blanks}
use kitserv.Parser.RequestLine.{holding, scan-behind, drop-behind}
use kitserv.Parser.Target.{set-behind}

-- No `:` in the name of a header.
abbrev NoColon : Bytes → Type 0
NoColon [] = Unit
NoColon (x ∷ s) = ((x == b':') ≡ false) × NoColon s

abbrev pub IsName : Bytes → Type 0
IsName k = IsWord k × NoColon k

-- Printable bytes, spaces included.
abbrev pub IsText : Bytes → Type 0
IsText [] = Unit
IsText (x ∷ s) = (31 < x) × (x < 127) × IsText s

abbrev NoBlank : Bytes → Type 0
NoBlank [] = Unit
NoBlank (x ∷ s) = 32 < x

-- And no space at its start.
abbrev pub IsValue : Bytes → Type 0
IsValue v = IsText v × NoBlank v

-- The name, a colon, a space and the value.
abbrev pub header_text : Bytes → Bytes → Bytes
header_text k v = k ++ b':' ∷ b' ' ∷ v

header_text-IsText : (k v : Bytes) → IsWord k → IsText v → IsText (header_text k v)
header_text-IsText [] v w h = (omega arith, omega arith, (omega arith, omega arith, h))
header_text-IsText (x ∷ k) v w h = (omega arith, w.1, header_text-IsText k v w.2 h)

steps_to-IsText : (s post : Bytes) → IsText s → steps_to b'\r' (s ++ b'\r' ∷ post) ≡ length s
unfolding steps_to
steps_to-IsText [] post w = ground arith
steps_to-IsText (x ∷ s) post w = ground (arith, steps_to-IsText s post w.2)

strchr-name : (k post : Bytes) → IsName k → strchr (k ++ b':' ∷ post) b':' ≡ some (length k)
unfolding strchr
strchr-name [] post w = ground arith
strchr-name (x ∷ k) post w = ground (arith, strchr-name k post (w.0.2, w.1.1))

pub cstr-IsText : (s : Bytes) → IsText s → cstr s ≡ s
cstr-IsText [] h = refl
cstr-IsText (x ∷ s) h = ground (arith, cstr-IsText s h.2)

skip_blanks-value : (v post : Bytes) → NoBlank v → skip_blanks (b' ' ∷ (v ++ 0 ∷ post)) ≡ 1
unfolding skip_blanks
skip_blanks-value [] post h = ground arith
skip_blanks-value (x ∷ v) post h = ground arith

-- The bytes of the line when it is split.
abbrev pub split_line : Bytes → Bytes → Bytes → Bytes
split_line k v rest = k ++ 0 ∷ b' ' ∷ (v ++ 0 ∷ b'\n' ∷ rest)

module _ (next : Client → ℕ → ℕ → Parse) (c : Client) (pre k v rest : Bytes) (n : IsName k)
    (w : IsValue v) where
  abbrev split_client : Client
  split_client = holding c (pre ++ split_line k v rest)

  split_header-line :
      split_header next
        (holding c (pre ++ (k ++ b':' ∷ b' ' ∷ (v ++ 0 ∷ b'\n' ∷ rest))))
        (length pre)
        (length pre + length (header_text k v))
        (some (length k))
      ≡ after_header next
          (length pre + length (header_text k v))
          (process_header headers split_client k (length pre + length k + 2))
  unfolding split_header
  split_header-line =
      let cut = set-behind pre k b':' 0 (b' ' ∷ (v ++ 0 ∷ b'\n' ∷ rest)) in
      let name : string_at (pre ++ split_line k v rest) (length pre) ≡ k =
        ap cstr (drop-length pre (split_line k v rest))
        ∙ cstr-append_nul k (b' ' ∷ (v ++ 0 ∷ b'\n' ∷ rest))
        ∙ cstr-IsWord k n.0 in
      let behind : drop (length pre + length k + 1) (pre ++ split_line k v rest)
          ≡ b' ' ∷ (v ++ 0 ∷ b'\n' ∷ rest) =
        ap (λ i. drop i (pre ++ split_line k v rest)) (omega arith)
        ∙ drop-behind pre (split_line k v rest) (length k + 1)
        ∙ drop-behind k (0 ∷ b' ' ∷ (v ++ 0 ∷ b'\n' ∷ rest)) 1 in
      let blanks = ap skip_blanks behind ∙ skip_blanks-value v (b'\n' ∷ rest) w.1 in
      let place : length pre + length k + 1 + 1 ≡ length pre + length k + 2 = omega arith in
      rw (cut, name, blanks, place) refl

  -- The line as it was received.
  abbrev pub received_line : Client
  received_line = holding c (pre ++ (header_text k v ++ b'\r' ∷ b'\n' ∷ rest))

  head_found-line :
      head_found next received_line (length pre) (length pre + length (header_text k v))
      ≡ after_header next
          (length pre + length (header_text k v))
          (process_header headers split_client k (length pre + length k + 2))
  unfolding head_found
  head_found-line =
      let size = length-append k (b':' ∷ b' ' ∷ v) in
      let more : (length pre + length (header_text k v) == length pre) ≡ false = ground arith in
      let cut : set (pre ++ (header_text k v ++ b'\r' ∷ b'\n' ∷ rest))
            (length pre + length (header_text k v)) 0
          ≡ pre ++ (k ++ b':' ∷ b' ' ∷ (v ++ 0 ∷ b'\n' ∷ rest)) =
        set-behind pre (header_text k v) b'\r' 0 (b'\n' ∷ rest)
        ∙ ap (λ z. pre ++ z) (append_assoc k (b':' ∷ b' ' ∷ v) (0 ∷ b'\n' ∷ rest)) in
      let colon : strchr (drop (length pre) (pre ++ (k ++ b':' ∷ b' ' ∷ (v ++ 0 ∷ b'\n' ∷ rest))))
            b':'
          ≡ some (length k) =
        ap (λ z. strchr z b':') (drop-length pre (k ++ b':' ∷ b' ' ∷ (v ++ 0 ∷ b'\n' ∷ rest)))
        ∙ strchr-name k (b' ' ∷ (v ++ 0 ∷ b'\n' ∷ rest)) n in
      rw (more, cut, colon) split_header-line

  -- A line is handed to the function of its name, with the place of its value.
  pub head_line-header :
      head_line next received_line (length pre) (length pre)
      ≡ after_header next
          (length pre + length (header_text k v))
          (process_header headers split_client k (length pre + length k + 2))
  unfolding head_line
  head_line-header =
      let s = header_text k v in
      let post = b'\r' ∷ b'\n' ∷ rest in
      let at =
        scan-behind b'\r' pre (s ++ post)
        ∙ ap (λ i. length pre + i)
            (steps_to-IsText s (b'\n' ∷ rest) (header_text-IsText k v n.0 w.0)) in
      let inside : leb (length (pre ++ (s ++ post))) (length pre + length s) ≡ false =
        ground (arith, length-append pre (s ++ post), length-append s post) in
      rw (at, inside) head_found-line
