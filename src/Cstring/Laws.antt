-- ===== src/Cstring/Laws.antt =====
-- Lemmas on scans and strings in a buffer that grows at its end.
use kitserv.Prelude.{
  ℕ, zero, suc, ◌+◌, ◌-◌, ◌≤◌, ◌<◌, ◌≡◌, refl, ap, sym, ◌∙◌, ◌⊎◌, inl, inr, none, some, [], ◌∷◌,
  ◌++◌, ◌==◌, arith, length, drop, set, length-drop, drop-append, drop-add, ◌≢◌, head_or,
  Bool-cases,
}
use kitserv.Cstring.{Bytes, byte_at, cstr, string_at, strchr, steps_to}

-- A scan stays inside the buffer.
pub steps_to-le : (c : ℕ) (xs : Bytes) → steps_to c xs ≤ length xs
unfolding steps_to
steps_to-le c [] = omega arith
steps_to-le c (x ∷ xs) = ground (arith, steps_to-le c xs)

-- A scan that stopped before the end does not see what follows.
pub steps_to-append_found :
    (c : ℕ) (xs ys : Bytes) → steps_to c xs < length xs → steps_to c (xs ++ ys) ≡ steps_to c xs
unfolding steps_to
steps_to-append_found c [] ys h = absurd (omega arith)
steps_to-append_found c (x ∷ xs) ys h = ground (arith, steps_to-append_found c xs ys)

-- A scan that met the end goes on in what follows.
pub steps_to-append_end :
    (c : ℕ) (xs ys : Bytes)
    → steps_to c xs ≡ length xs
    → steps_to c (xs ++ ys) ≡ length xs + steps_to c ys
unfolding steps_to
steps_to-append_end c [] ys h = omega arith
steps_to-append_end c (x ∷ xs) ys h = ground (arith, steps_to-append_end c xs ys)

pub byte_at-append : (xs ys : Bytes) (i : ℕ) → i < length xs → byte_at (xs ++ ys) i ≡ byte_at xs i
byte_at-append [] ys i h = absurd (omega arith)
byte_at-append (x ∷ xs) ys zero h = refl
byte_at-append (x ∷ xs) ys (suc i) h = byte_at-append xs ys i (omega arith)

pub byte_at-set_self : (xs : Bytes) (i v : ℕ) → i < length xs → byte_at (set xs i v) i ≡ v
byte_at-set_self [] i v h = absurd (omega arith)
byte_at-set_self (x ∷ xs) zero v h = refl
byte_at-set_self (x ∷ xs) (suc i) v h = byte_at-set_self xs i v (omega arith)

-- A NUL stands in the bytes.
abbrev pub HasNul : Bytes → Type 0
HasNul s = length (cstr s) < length s

pub cstr-append : (xs ys : Bytes) → HasNul xs → cstr (xs ++ ys) ≡ cstr xs
cstr-append [] ys h = absurd (omega arith)
cstr-append (x ∷ xs) ys h = ground (arith, cstr-append xs ys)

pub strchr-append : (xs ys : Bytes) (c : ℕ) → HasNul xs → strchr (xs ++ ys) c ≡ strchr xs c
unfolding strchr
strchr-append [] ys c h = absurd (omega arith)
strchr-append (x ∷ xs) ys c h = ground (arith, strchr-append xs ys c)

-- What `strchr` finds stands before the NUL.
pub strchr-cases :
    (xs : Bytes) (c : ℕ)
    → c ≢ 0
    → (strchr xs c ≡ none) ⊎ ((i : ℕ) × (strchr xs c ≡ some i) × (i < length (cstr xs)))
unfolding strchr
strchr-cases [] c n = inl refl
strchr-cases (x ∷ xs) c n = elim (strchr-cases xs c n) [
  | inl e ↦ elim (Bool-cases (x == c)) [
    | inl hit ↦ inr (0, ground arith, ground arith)
    | inr miss ↦ inl (ground arith)
  ]
  | inr (i, e, h) ↦ elim (Bool-cases (x == c)) [
    | inl hit ↦ inr (0, ground arith, ground arith)
    | inr miss ↦ elim (Bool-cases (x == 0)) [
      | inl nul ↦ inl (ground arith)
      | inr go ↦ inr (suc i, ground arith, ground arith)
    ]
  ]
]

-- A NUL at index `k` closes the string no later than there.
pub length-cstr-le : (xs : Bytes) (k : ℕ) → byte_at xs k ≡ 0 → k < length xs → length (cstr xs) ≤ k
length-cstr-le [] k e h = absurd (omega arith)
length-cstr-le (x ∷ xs) zero e h = ground arith
length-cstr-le (x ∷ xs) (suc k) e h = ground (arith, length-cstr-le xs k e)

pub HasNul-at : (xs : Bytes) (k : ℕ) → byte_at xs k ≡ 0 → k < length xs → HasNul xs
HasNul-at xs k e h = omega (arith, length-cstr-le xs k e h)

pub byte_at-set_zero : (xs : Bytes) (j k : ℕ) → byte_at xs k ≡ 0 → byte_at (set xs j 0) k ≡ 0
byte_at-set_zero [] j k e = e
byte_at-set_zero (x ∷ xs) zero zero e = refl
byte_at-set_zero (x ∷ xs) zero (suc k) e = e
byte_at-set_zero (x ∷ xs) (suc j) zero e = e
byte_at-set_zero (x ∷ xs) (suc j) (suc k) e = byte_at-set_zero xs j k e

pub byte_at-drop : (buf : Bytes) (q r : ℕ) → q ≤ r → byte_at (drop q buf) (r - q) ≡ byte_at buf r
byte_at-drop buf q r h =
    let at : q + (r - q) ≡ r = omega arith in
    ap (head_or 0) (sym (drop-add q (r - q) buf)) ∙ ap (byte_at buf) at

-- The same in a buffer: a NUL at `r` closes every string that begins before it.
pub HasNul-drop :
    (buf : Bytes) (q r : ℕ) → byte_at buf r ≡ 0 → q ≤ r → r < length buf → HasNul (drop q buf)
HasNul-drop buf q r e h k =
    HasNul-at (drop q buf) (r - q) (byte_at-drop buf q r h ∙ e)
      (omega (arith, length-drop {0} q buf))

pub length-string_at-le :
    (buf : Bytes) (q r : ℕ)
    → byte_at buf r ≡ 0
    → q ≤ r
    → r < length buf
    → length (string_at buf q) ≤ r - q
length-string_at-le buf q r e h k =
    length-cstr-le (drop q buf) (r - q) (byte_at-drop buf q r h ∙ e)
      (omega (arith, length-drop {0} q buf))

pub string_at-append :
    (buf ys : Bytes) (q : ℕ)
    → q ≤ length buf
    → HasNul (drop q buf)
    → string_at (buf ++ ys) q ≡ string_at buf q
string_at-append buf ys q h n = rw (drop-append q buf ys h) (cstr-append (drop q buf) ys n)
