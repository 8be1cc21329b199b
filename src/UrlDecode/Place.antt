-- ===== src/UrlDecode/Place.antt =====
-- `url_decode` of src/http.c on a string between other bytes.
use kitserv.Prelude.{
  ◌+◌, ◌≤◌, ◌<◌, ◌≡◌, refl, sym, ap, ◌∙◌, [], ◌∷◌, ◌++◌, arith, length, drop, length-append,
  length-drop, append_assoc, drop-length, set-length, subst,
}
use kitserv.Cstring.{Bytes, cstr, string_at}
use kitserv.Cstring.Laws.{HasNul}
use kitserv.UrlDecode.{url_decode, decoded}
use kitserv.UrlDecode.Refine.{overwrite, url_decode_lem, length-decoded}

-- Bytes that are printable and no space, as a target of a request has them.
abbrev pub IsWord : Bytes → Type 0
IsWord [] = Unit
IsWord (x ∷ s) = (32 < x) × (x < 127) × IsWord s

pub cstr-append_nul : (s post : Bytes) → cstr (s ++ 0 ∷ post) ≡ cstr s
cstr-append_nul [] post = ground arith
cstr-append_nul (x ∷ s) post = ground (arith, cstr-append_nul s post)

pub cstr-IsWord : (s : Bytes) → IsWord s → cstr s ≡ s
cstr-IsWord [] h = refl
cstr-IsWord (x ∷ s) h = ground (arith, cstr-IsWord s h.2)

pub HasNul-append : (s post : Bytes) → HasNul (s ++ 0 ∷ post)
HasNul-append [] post = omega arith
HasNul-append (x ∷ s) post = ground (arith, HasNul-append s post)

overwrite-append :
    (pre old post new : Bytes)
    → length new ≤ length old
    → overwrite (pre ++ (old ++ post)) (length pre) new
      ≡ pre ++ (new ++ (drop (length new) old ++ post))
overwrite-append pre old post [] h = refl
overwrite-append pre [] post (b ∷ new) h = absurd (omega arith)
overwrite-append pre (o ∷ old) post (b ∷ new) h =
    let at = length-append pre (b ∷ []) in
    ap (λ z. overwrite z (length pre + 1) new)
      (set-length pre o (old ++ post) b ∙ sym (append_assoc pre (b ∷ []) (old ++ post)))
    ∙ ap (λ n. overwrite ((pre ++ b ∷ []) ++ (old ++ post)) n new) (sym at)
    ∙ overwrite-append (pre ++ b ∷ []) old post new (omega arith)
    ∙ append_assoc pre (b ∷ []) (new ++ (drop (length new) old ++ post))

-- What is left of a string behind its decoded form and the NUL.
abbrev pub leftover : Bytes → Bytes
leftover s = drop (length (decoded s) + 1) (s ++ 0 ∷ [])

pub length-leftover : (s : Bytes) → length (decoded s) + length (leftover s) ≡ length s
length-leftover s = omega (
  arith,
  length-drop (length (decoded s) + 1) (s ++ 0 ∷ []),
  length-append s (0 ∷ []),
  length-decoded s,
)

pub url_decode-between :
    (pre s post : Bytes)
    → IsWord s
    → url_decode (pre ++ (s ++ 0 ∷ post)) (length pre)
      ≡ pre ++ (decoded s ++ 0 ∷ (leftover s ++ post))
url_decode-between pre s post w =
    let at = drop-length pre (s ++ 0 ∷ post) in
    let whole = append_assoc s (0 ∷ []) post in
    let string : string_at (pre ++ (s ++ 0 ∷ post)) (length pre) ≡ s =
      ap cstr at ∙ cstr-append_nul s post ∙ cstr-IsWord s w in
    let size = length-append (decoded s) (0 ∷ []) in
    url_decode_lem (pre ++ (s ++ 0 ∷ post)) (length pre)
      (subst HasNul (sym at) (HasNul-append s post))
    ∙ ap (λ z. overwrite (pre ++ (s ++ 0 ∷ post)) (length pre) (decoded z ++ 0 ∷ [])) string
    ∙ ap (λ z. overwrite (pre ++ z) (length pre) (decoded s ++ 0 ∷ [])) (sym whole)
    ∙ overwrite-append pre (s ++ 0 ∷ []) post (decoded s ++ 0 ∷ [])
        (omega (arith, length-append s (0 ∷ []), size, length-decoded s))
    ∙ ap (λ n. pre ++ ((decoded s ++ 0 ∷ []) ++ (drop n (s ++ 0 ∷ []) ++ post))) size
    ∙ ap (λ z. pre ++ z) (append_assoc (decoded s) (0 ∷ []) (leftover s ++ post))
