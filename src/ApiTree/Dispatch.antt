-- ===== src/ApiTree/Dispatch.antt =====
-- Which endpoint a node of the tree gives.
use kitserv.Prelude.{
  ℕ, suc, ◌≡◌, ◌≢◌, refl, sym, ap, ap₂, subst, ◌∙◌, ◌⊎◌, Bool, Bool-cases, true, false, Option,
  some, List, [], ◌∷◌, ◌==◌, ==-eq, ==_refl, arith, bit_or, inl, inr, if◌then◌else◌, length, take,
  drop, take_all,
}
use kitserv.Cstring.{Bytes, string_at, steps_to, str_eq}
use kitserv.Status.{Status}
use kitserv.Client.{Client, Method, Rc, method_bits, with_status}
use kitserv.Response.Headers.{has_bit}
use kitserv.ApiTree.{
  ApiEntry, ApiTree, Subtrees, prefix_matches, only_slashes, entry_matches, takes_method, allow,
  try_entry, try_entries, after_entries, parse_api_tree, parse_subtrees,
}

-- The path up to the first slash, and what follows.
abbrev pub segment : Bytes → Bytes
segment [] = []
segment (x ∷ xs) = if x == b'/' then [] else x ∷ segment xs

abbrev pub remainder : Bytes → Bytes
remainder [] = []
remainder (x ∷ xs) = if x == b'/' then x ∷ xs else remainder xs

abbrev pub AllSlashes : Bytes → Type 0
AllSlashes [] = Unit
AllSlashes (x ∷ xs) = (x ≡ b'/') × AllSlashes xs

-- The entry is an endpoint of a path: its prefix is the first segment, and nothing but slashes follows,
-- if it finishes the path.
abbrev pub Answers : Bytes → ApiEntry → Type 0
Answers path e = (e.prefix ≡ segment path) × (e.finishes_path ≡ true → AllSlashes (remainder path))

-- Each entry gives the length of its prefix.
abbrev pub AllMeasured : List ApiEntry → Type 0
AllMeasured [] = Unit
AllMeasured (e ∷ es) = (e.prefix_length ≡ length e.prefix) × AllMeasured es

-- The entry is the first of the list that answers the path and takes the method.
abbrev pub IsFirst : Method → Bytes → ApiEntry → List ApiEntry → Type 0
IsFirst m path e [] = ⊥
IsFirst m path e (d ∷ ds) =
    ((e ≡ d) × Answers path d × (has_bit (method_bits m) d.method ≡ true))
    ⊎ (¬ (Answers path d × (has_bit (method_bits m) d.method ≡ true)) × IsFirst m path e ds)

-- The flags are those that stood and the methods of just the entries that answer the path, of which none
-- takes the method.
abbrev pub Collects : Method → Bytes → ℕ → List ApiEntry → ℕ → Type 0
Collects m path flags [] result = result ≡ flags
Collects m path flags (d ∷ ds) result =
    (Answers path d
      × (has_bit (method_bits m) d.method ≡ false)
      × Collects m path (bit_or flags d.method) ds result)
    ⊎ (¬ Answers path d × Collects m path flags ds result)

abbrev pub set_flags : Client → ℕ → Client
set_flags c flags = record c { ta = record c.ta { api_allow_flags = flags } }

length-segment : (path : Bytes) → length (segment path) ≡ steps_to b'/' path
unfolding steps_to
length-segment [] = refl
length-segment (x ∷ xs) = elim (Bool-cases (x == b'/')) [
  | inl e ↦ rw e refl
  | inr e ↦ rw e (ap suc (length-segment xs))
]

take-segment : (path : Bytes) → take (steps_to b'/' path) path ≡ segment path
unfolding steps_to
take-segment [] = refl
take-segment (x ∷ xs) = elim (Bool-cases (x == b'/')) [
  | inl e ↦ rw e refl
  | inr e ↦ rw e (ap (λ z. x ∷ z) (take-segment xs))
]

drop-remainder : (path : Bytes) → drop (steps_to b'/' path) path ≡ remainder path
unfolding steps_to
drop-remainder [] = refl
drop-remainder (x ∷ xs) = elim (Bool-cases (x == b'/')) [
  | inl e ↦ rw e refl
  | inr e ↦ rw e (drop-remainder xs)
]

str_eq-true : (s t : Bytes) → str_eq s t ≡ true → s ≡ t
unfolding str_eq
str_eq-true [] [] h = refl
str_eq-true [] (y ∷ t) h = absurd (cc)
str_eq-true (x ∷ s) [] h = absurd (cc)
str_eq-true (x ∷ s) (y ∷ t) h = elim (Bool-cases (x == y)) [
  | inl e ↦ ap₂ (λ u v. u ∷ v) (==-eq x y e) (str_eq-true s t (rw e at h))
  | inr e ↦ absurd (ground (arith, rw e at h))
]

str_eq_refl : (s : Bytes) → str_eq s s ≡ true
unfolding str_eq
str_eq_refl [] = refl
str_eq_refl (x ∷ s) = rw (==_refl x) (str_eq_refl s)

only_slashes-true : (s : Bytes) → only_slashes s ≡ true → AllSlashes s
unfolding only_slashes
only_slashes-true [] h = tt
only_slashes-true (x ∷ xs) h = elim (Bool-cases (x == b'/')) [
  | inl e ↦ (==-eq x b'/' e, only_slashes-true xs (rw e at h))
  | inr e ↦ absurd (ground (arith, rw e at h))
]

AllSlashes-true : (s : Bytes) → AllSlashes s → only_slashes s ≡ true
unfolding only_slashes
AllSlashes-true [] h = refl
AllSlashes-true (x ∷ xs) h = rw h.0 (AllSlashes-true xs h.1)

-- The test of the code and the endpoints.
entry_matches-Answers :
    (path : Bytes) (e : ApiEntry)
    → e.prefix_length ≡ length e.prefix
    → entry_matches path (steps_to b'/' path) e ≡ true
    → Answers path e
unfolding entry_matches prefix_matches
entry_matches-Answers path e m h =
    let n = steps_to b'/' path in
    let len : length e.prefix ≡ n = ground arith in
    let all : take n e.prefix ≡ e.prefix = take_all n e.prefix (omega arith) in
    let same : str_eq (take n path) (take n e.prefix) ≡ true = ground arith in
    let rest : e.finishes_path ≡ true → only_slashes (drop n path) ≡ true = λ f. ground arith in
    (
      sym all ∙ sym (str_eq-true (take n path) (take n e.prefix) same) ∙ take-segment path,
      λ f. subst AllSlashes (drop-remainder path) (only_slashes-true (drop n path) (rest f)),
    )

Answers-entry_matches :
    (path : Bytes) (e : ApiEntry)
    → e.prefix_length ≡ length e.prefix
    → Answers path e
    → entry_matches path (steps_to b'/' path) e ≡ true
unfolding entry_matches prefix_matches
Answers-entry_matches path e m (p, f) =
    let n = steps_to b'/' path in
    let len : length e.prefix ≡ n = ap length p ∙ length-segment path in
    let all : take n e.prefix ≡ e.prefix = take_all n e.prefix (omega arith) in
    let same : str_eq (take n path) (take n e.prefix) ≡ true =
      rw (take-segment path, all, p) (str_eq_refl (segment path)) in
    let rest : e.finishes_path ≡ true → only_slashes (drop n path) ≡ true =
      λ g. AllSlashes-true (drop n path) (subst AllSlashes (sym (drop-remainder path)) (f g)) in
    elim (Bool-cases e.finishes_path) [
      | inl g ↦ let r = rest g in ground arith
      | inr g ↦ ground arith
    ]

-- What the loop over the entries leaves.
abbrev pub Found : Client → Bytes → ℕ → List ApiEntry → Client × Bool → Type 0
Found c path flags es (d, true) =
    (e : ApiEntry) × IsFirst c.ta.req_method path e es × (d.ta.api_endpoint_hit ≡ some e.handler)
Found c path flags es (d, false) =
    (result : ℕ) × Collects c.ta.req_method path flags es result × (d ≡ set_flags c result)

module _ (path : Bytes) where
  Found-away :
      (c : Client) (d : ApiEntry) (ds : List ApiEntry) (r : Client × Bool)
      → ¬ Answers path d
      → Found c path c.ta.api_allow_flags ds r
      → Found c path c.ta.api_allow_flags (d ∷ ds) r
  Found-away c d ds (x, true) n (e, f, h) = (e, inr ((λ a. n a.0), f), h)
  Found-away c d ds (x, false) n (k, g, h) = (k, inr (n, g), h)

  Found-allow :
      (c : Client) (d : ApiEntry) (ds : List ApiEntry) (r : Client × Bool)
      → Answers path d
      → has_bit (method_bits c.ta.req_method) d.method ≡ false
      → Found (allow c d.method) path (bit_or c.ta.api_allow_flags d.method) ds r
      → Found c path c.ta.api_allow_flags (d ∷ ds) r
  Found-allow c d ds (x, true) a b (e, f, h) =
      (e, inr ((λ t. absurd (ground (arith, t.1, b))), f), h)
  Found-allow c d ds (x, false) a b (k, g, h) = (k, inl (a, b, g), h)

  try_entries-Found :
      (es : List ApiEntry) (c : Client)
      → AllMeasured es
      → Found c path c.ta.api_allow_flags es (try_entries c path (steps_to b'/' path) es)
  unfolding try_entries try_entry
  try_entries-Found [] c m = (c.ta.api_allow_flags, refl, refl)
  try_entries-Found (e ∷ es) c m =
      let n = steps_to b'/' path in
      elim (Bool-cases (entry_matches path n e)) [
        | inr away ↦ rw away (
            Found-away c e es (try_entries c path n es)
              (λ a. absurd (ground (arith, Answers-entry_matches path e m.0 a, away)))
              (try_entries-Found es c m.1))
        | inl here ↦
            let a = entry_matches-Answers path e m.0 here in
            elim (Bool-cases (takes_method c e)) [
              | inl takes ↦ rw (here, takes) (e, inl (refl, a, takes), refl)
              | inr not_taken ↦
                  rw (here, not_taken)
                    (Found-allow c e es (try_entries (allow c e.method) path n es) a not_taken
                      (try_entries-Found es (allow c e.method) m.1))
            ]
      ]

-- What a node gives: the handler of the first entry that answers the path and takes the method; or there
-- is none, and the flags with the methods of the entries that answer it, if they are not 0, give 405;
-- or no entry answers it, and the subtrees are tried.
abbrev pub Dispatches :
    Client → Bytes → List ApiEntry → (Client → Option (Client × Rc)) → Option (Client × Rc) → Type 0
Dispatches c path es next result =
    ((e : ApiEntry) × (d : Client) × IsFirst c.ta.req_method path e es
      × (result ≡ some (d, Rc.ok))
      × (d.ta.api_endpoint_hit ≡ some e.handler))
    ⊎ ((flags : ℕ) × Collects c.ta.req_method path c.ta.api_allow_flags es flags
        × (flags ≢ 0)
        × (result ≡ some (with_status (set_flags c flags) Status.method_not_allowed, Rc.fail)))
    ⊎ (Collects c.ta.req_method path c.ta.api_allow_flags es 0 × (result ≡ next (set_flags c 0)))

after_entries-Dispatches :
    (c : Client) (path : Bytes) (es : List ApiEntry) (r : Client × Bool)
    (next : Client → Option (Client × Rc))
    → Found c path c.ta.api_allow_flags es r
    → Dispatches c path es next (after_entries r next)
unfolding after_entries
after_entries-Dispatches c path es (d, true) next (e, f, h) = inl (e, d, f, refl, h)
after_entries-Dispatches c path es (d, false) next (flags, g, h) = elim (Bool-cases (flags == 0)) [
  | inl z ↦
      let k = ==-eq flags 0 z in
      inr (
        inr (
          subst (Collects c.ta.req_method path c.ta.api_allow_flags es) k g,
          rw (h, z) (ap (λ x. next (set_flags c x)) k),
        ))
  | inr z ↦ inr (inl (flags, g, (λ e. absurd (ground (arith, e, z))), rw (h, z) refl))
]

-- At a node of the tree whose entries give the lengths of their prefixes, one of these holds. An
-- entry whose prefix is the first segment of the path, with only slashes behind it if it finishes the
-- path, takes the method: the handler is that of the first such entry. Or none takes it, and the methods
-- of the entries with this prefix, with the allow flags that stood, are not 0: the answer is 405 with these
-- flags. Or these are 0, and the subtrees are tried.
pub parse_api_tree_node :
    (root : List Bytes) (c : Client) (path : ℕ) (es : List ApiEntry) (ts : Subtrees)
    → AllMeasured es
    → Dispatches c
        (string_at c.req_headers path)
        es
        (λ d. parse_subtrees root root d path ts)
        (parse_api_tree root c path (ApiTree.node es ts))
unfolding parse_api_tree
parse_api_tree_node root c path es ts m =
    let s = string_at c.req_headers path in
    after_entries-Dispatches c s es (try_entries c s (steps_to b'/' s) es)
      (λ d. parse_subtrees root root d path ts) (try_entries-Found s es c m)
