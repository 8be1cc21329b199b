-- ===== src/Traversal/Laws.antt =====
-- What `attempted_path_traversal` of src/http.c finds.
use kitserv.Prelude.{
  ℕ, ◌+◌, ◌≡◌, refl, ap, ◌≢◌, ◌∙◌, ==-eq, ◌↔◌, ◌⊎◌, inl, inr, Bool, true, false, ◌&&◌, ◌||◌, none,
  some, [], ◌∷◌, ◌++◌, ◌==◌, arith, head_or, drop, length, length-append, append_assoc, drop-add,
  Bool-cases,
}
use kitserv.Cstring.{Bytes, byte_at}
use kitserv.Traversal.{strstr_dots, is_dots_segment, attempted_path_traversal}

-- The path so far is empty or ends in `/`.
abbrev pub AtSegmentStart : Bytes → Type 0
AtSegmentStart pre = (pre ≡ []) ⊎ ((p : Bytes) × (pre ≡ p ++ b'/' ∷ []))

-- The rest of the path is empty or begins with `/`.
abbrev pub AtSegmentEnd : Bytes → Type 0
AtSegmentEnd post = (post ≡ []) ⊎ ((q : Bytes) × (post ≡ b'/' ∷ q))

-- A whole segment of the path is `..`.
abbrev pub HasDotsSegment : Bytes → Type 0
HasDotsSegment path =
    (pre : Bytes) × (post : Bytes) × (path ≡ pre ++ b'.' ∷ b'.' ∷ post)
    × AtSegmentStart pre
    × AtSegmentEnd post

-- No byte of a C string is NUL.
abbrev pub NoNul : Bytes → Type 0
NoNul [] = Unit
NoNul (x ∷ xs) = (x ≢ 0) × NoNul xs

-- The first `..`: what stands before it has none, also not across its end.
abbrev pub NoDots : Bytes → Type 0
NoDots pre = strstr_dots (pre ++ b'.' ∷ []) ≡ none

strstr_dots_first :
    (pre post : Bytes) → NoDots pre → strstr_dots (pre ++ b'.' ∷ b'.' ∷ post) ≡ some (length pre)
unfolding strstr_dots
strstr_dots_first [] post h = refl
strstr_dots_first (x ∷ []) post h = ground arith
strstr_dots_first (x ∷ y ∷ pre) post h = ground (arith, strstr_dots_first (y ∷ pre) post)

-- A path without `..`, or cut at its first one.
data FirstDots (path : Bytes) : Type 0 where
  without : strstr_dots path ≡ none → FirstDots path
  cut : (pre post : Bytes) → NoDots pre → path ≡ pre ++ b'.' ∷ b'.' ∷ post → FirstDots path

first_dots : (path : Bytes) → FirstDots path
unfolding strstr_dots
first_dots [] = without refl
first_dots (x ∷ []) = without (ground arith)
first_dots (x ∷ y ∷ xs) = elim (Bool-cases ((x == b'.') && (y == b'.'))) [
  | inl dots ↦ cut [] xs refl (ground arith)
  | inr other ↦ elim (first_dots (y ∷ xs)) [
    | without h ↦ without (ground arith)
    | cut pre post h e ↦ cut (x ∷ pre) post (ground (arith, first_byte pre post e)) (ap (◌∷◌ x) e)
  ]
]
  where
    first_byte :
        (pre post : Bytes) → y ∷ xs ≡ pre ++ b'.' ∷ b'.' ∷ post → head_or 0 (pre ++ b'.' ∷ []) ≡ y
    first_byte [] post e = ground arith
    first_byte (z ∷ pre) post e = ground arith

drop_prefix : (us vs : Bytes) → drop (length us) (us ++ vs) ≡ vs
drop_prefix [] vs = refl
drop_prefix (u ∷ us) vs = drop_prefix us vs

drop-length : (xs ys : Bytes) (k : ℕ) → drop (length xs + k) (xs ++ ys) ≡ drop k ys
drop-length xs ys k = drop-add (length xs) k (xs ++ ys) ∙ ap (drop k) (drop_prefix xs ys)

-- The last byte of a string that is not empty.
abbrev last_byte : ℕ → Bytes → ℕ
last_byte x [] = x
last_byte x (y ∷ ys) = last_byte y ys

byte_at_last : (x : ℕ) (xs ys : Bytes) → byte_at (x ∷ (xs ++ ys)) (length xs) ≡ last_byte x xs
byte_at_last x [] ys = refl
byte_at_last x (y ∷ xs) ys = byte_at_last y xs ys

last_byte_splits : (x : ℕ) (xs : Bytes) → (p : Bytes) × (x ∷ xs ≡ p ++ last_byte x xs ∷ [])
last_byte_splits x [] = ([], refl)
last_byte_splits x (y ∷ xs) = let (p, e) = last_byte_splits y xs in (x ∷ p, ap (◌∷◌ x) e)

last_byte-concat : (x : ℕ) (xs p : Bytes) (c : ℕ) → x ∷ xs ≡ p ++ c ∷ [] → last_byte x xs ≡ c
last_byte-concat x [] [] c e = cc
last_byte-concat x [] (q ∷ p) c e =
    absurd (omega (arith, ap length e, length-append {0} p (c ∷ [])))
last_byte-concat x (y ∷ xs) [] c e = cc
last_byte-concat x (y ∷ xs) (q ∷ p) c e = last_byte-concat y xs p c (cc)

-- The test behind the dots.
post_test : Bytes → Bool
post_test post = head_or 0 post == 0 || head_or 0 post == b'/'

-- The test before them.
unfoldable pub pre_test : Bytes → Bool
pre_test [] = true
pre_test (x ∷ xs) = last_byte x xs == b'/'

post_test_lem : (post : Bytes) → NoNul post → (post_test post ≡ true) ↔ AtSegmentEnd post
unfolding post_test
post_test_lem [] n = (λ _. inl refl, λ _. refl)
post_test_lem (x ∷ xs) n = (λ h. inr (xs, ground arith), λ e. to e)
  where
    to : AtSegmentEnd (x ∷ xs) → post_test (x ∷ xs) ≡ true
    to (inl e) = cc
    to (inr (q, e)) = ground arith

pub pre_test_lem : (pre : Bytes) → (pre_test pre ≡ true) ↔ AtSegmentStart pre
unfolding pre_test
pre_test_lem [] = (λ _. inl refl, λ _. refl)
pre_test_lem (x ∷ xs) = (λ h. inr (from h), λ e. to e)
  where
    from : pre_test (x ∷ xs) ≡ true → (p : Bytes) × (x ∷ xs ≡ p ++ b'/' ∷ [])
    from h = let (p, e) = last_byte_splits x xs in (p, rw (← ==-eq (last_byte x xs) b'/' h) e)

    to : AtSegmentStart (x ∷ xs) → pre_test (x ∷ xs) ≡ true
    to (inl e) = cc
    to (inr (p, e)) = rw (last_byte-concat x xs p b'/' e)

is_dots_segment_lem :
    (pre post : Bytes)
    → is_dots_segment (pre ++ b'.' ∷ b'.' ∷ post) (length pre) ≡ (post_test post && pre_test pre)
unfolding is_dots_segment post_test pre_test
is_dots_segment_lem [] post = refl
is_dots_segment_lem (x ∷ xs) post = ground (
  arith,
  byte_at_last x xs (b'.' ∷ b'.' ∷ post),
  ap (head_or 0) (drop-length (x ∷ xs) (b'.' ∷ b'.' ∷ post) 2),
)

attempted_path_traversal_tests :
    (pre post : Bytes)
    → NoDots pre
    → attempted_path_traversal (pre ++ b'.' ∷ b'.' ∷ post) ≡ (post_test post && pre_test pre)
unfolding attempted_path_traversal
attempted_path_traversal_tests pre post d =
    ground (arith, strstr_dots_first pre post d, is_dots_segment_lem pre post)

-- For a path cut at its first `..`, with no NUL behind it: the path is refused exactly when that
-- `..` is a whole segment, whatever else stands behind it.
pub attempted_path_traversal_first :
    (pre post : Bytes)
    → NoDots pre
    → NoNul post
    → (attempted_path_traversal (pre ++ b'.' ∷ b'.' ∷ post) ≡ true)
      ↔ (AtSegmentStart pre × AtSegmentEnd post)
attempted_path_traversal_first pre post d n =
    let tests = attempted_path_traversal_tests pre post d in
    let after = post_test_lem post n in
    let before = pre_test_lem pre in
    (
      λ h. (before.0 (ground (arith, tests)), after.0 (ground (arith, tests))),
      λ s. ground (arith, tests, after.1 s.1, before.1 s.0),
    )

NoNul-drop : (pre post : Bytes) → NoNul (pre ++ post) → NoNul post
NoNul-drop [] post h = h
NoNul-drop (x ∷ pre) post h = NoNul-drop pre post h.1

-- A path that holds no NUL is refused only if one of its segments is `..`.
pub attempted_path_traversal_sound :
    (path : Bytes) → NoNul path → attempted_path_traversal path ≡ true → HasDotsSegment path
attempted_path_traversal_sound path n h = elim (first_dots path) [
  | without e ↦ absurd (unfold attempted_path_traversal in ground arith)
  | cut pre post d e ↦
      let n' : NoNul post = NoNul-drop (b'.' ∷ b'.' ∷ []) post (NoNul-drop pre _ (rw e at n)) in
      let (s, t) = (attempted_path_traversal_first pre post d n').0 (rw e at h) in
      (pre, post, e, s, t)
]

-- The flaw: when the first `..` is the end of a longer name and `/../` follows, a segment of the
-- path is `..`, and the path is let through.
pub attempted_path_traversal_missed :
    (pre rest : Bytes)
    → NoDots pre
    → ¬ AtSegmentStart pre
    → HasDotsSegment (pre ++ b'.' ∷ b'.' ∷ b'/' ∷ b'.' ∷ b'.' ∷ b'/' ∷ rest)
      × (attempted_path_traversal (pre ++ b'.' ∷ b'.' ∷ b'/' ∷ b'.' ∷ b'.' ∷ b'/' ∷ rest) ≡ false)
attempted_path_traversal_missed pre rest d s = (
  (
    pre ++ b'.' ∷ b'.' ∷ b'/' ∷ [],
    b'/' ∷ rest,
    simp append_assoc,
    inr (pre ++ b'.' ∷ b'.' ∷ [], simp append_assoc),
    inr (rest, refl),
  ),
  elim (Bool-cases (pre_test pre)) [
    | inl h ↦ absurd (s ((pre_test_lem pre).0 h))
    | inr h ↦
        ground (arith, attempted_path_traversal_tests pre (b'/' ∷ b'.' ∷ b'.' ∷ b'/' ∷ rest) d)
  ],
)
