-- ===== src/ApiTree.antt =====
-- `parse_api_tree` of src/http.c. A handler is a number, the path an index into the buffer. The code
-- compares the prefixes of the subtrees with those of the root, at the same index: the model has the
-- root's prefixes as a list, and `none` for a read past its end.
pub mod Dispatch
pub mod Owner
use kitserv.Prelude.{
  ℕ, ◌+◌, Bool, true, false, not, ◌&&◌, ◌||◌, Option, none, some, List, [], ◌∷◌, ◌==◌,
  if◌then◌else◌, length, take, drop, bit_or,
}
use kitserv.Cstring.{Bytes, string_at, steps_to, str_eq}
use kitserv.Status.{Status}
use kitserv.Client.{Client, Rc, method_bits, with_status}
use kitserv.Response.Headers.{has_bit}

-- `struct kitserv_api_entry`; the method is its bits.
pub record ApiEntry : Type 0 where
  pub prefix : Bytes
  pub prefix_length : ℕ
  pub method : ℕ
  pub handler : ℕ
  pub finishes_path : Bool

mutual
  -- `struct kitserv_api_tree`, its prefix and its length beside it in the list of subtrees.
  pub data ApiTree : Type 0 where
    node : List ApiEntry → Subtrees → ApiTree

  pub data Subtrees : Type 0 where
    no_subtrees : Subtrees
    subtree : (prefix : Bytes) (prefix_length : ℕ) → ApiTree → Subtrees → Subtrees

-- `api_tree->subtrees[i].prefix`, for every i.
abbrev pub prefixes_of : Subtrees → List Bytes
prefixes_of Subtrees.no_subtrees = []
prefixes_of (Subtrees.subtree prefix prefix_length t ts) = prefix ∷ prefixes_of ts

-- `prefix_length == q - path && !strncmp(path, prefix, q - path)`, with `n` for `q - path`.
unfoldable pub prefix_matches : Bytes → ℕ → Bytes → ℕ → Bool
prefix_matches path n prefix prefix_length =
    prefix_length == n && str_eq (take n path) (take n prefix)

-- `for (r = q; *r == '/'; r++);` comes to the end of the string.
unfoldable pub only_slashes : Bytes → Bool
only_slashes [] = true
only_slashes (x ∷ xs) = x == b'/' && only_slashes xs

-- The entry is an endpoint of this path.
unfoldable pub entry_matches : Bytes → ℕ → ApiEntry → Bool
unfolding prefix_matches only_slashes
entry_matches path n e =
    prefix_matches path n e.prefix e.prefix_length
    && (not e.finishes_path || only_slashes (drop n path))

-- `client->ta.api_allow_flags |= method`
abbrev pub allow : Client → ℕ → Client
allow c method = record c {
  ta = record c.ta { api_allow_flags = bit_or c.ta.api_allow_flags method };
}

abbrev pub takes_method : Client → ApiEntry → Bool
takes_method c e = has_bit (method_bits c.ta.req_method) e.method

abbrev pub hit : Client → ApiEntry → Client
hit c e = record c { ta = record c.ta { api_endpoint_hit = some e.handler } }

-- One round of the loop over the entries; the flag says that it returns.
unfoldable pub try_entry : Client → Bytes → ℕ → ApiEntry → Client × Bool
unfolding entry_matches method_bits
try_entry c path n e =
    if entry_matches path n e
    then (if takes_method c e then (hit (allow c e.method) e, true) else (allow c e.method, false))
    else (c, false)

unfoldable pub try_entries : Client → Bytes → ℕ → List ApiEntry → Client × Bool
unfolding try_entry
try_entries c path n [] = (c, false)
try_entries c path n (e ∷ es) =
    let r = try_entry c path n e in let rest = try_entries r.0 path n es in if r.1 then r else rest

-- What follows the loop over the entries; the last argument is the loop over the subtrees.
unfoldable pub after_entries :
    Client × Bool → (Client → Option (Client × Rc)) → Option (Client × Rc)
after_entries (c, true) next = some (c, Rc.ok)
after_entries (c, false) next =
    if c.ta.api_allow_flags == 0
    then next c
    else some (with_status c Status.method_not_allowed, Rc.fail)

unfoldable mutual
  unfolding try_entries after_entries prefix_matches

  pub parse_api_tree : List Bytes → Client → ℕ → ApiTree → Option (Client × Rc)
  parse_api_tree root c path (ApiTree.node entries subtrees) =
      let s = string_at c.req_headers path in
      let n = steps_to b'/' s in
      after_entries (try_entries c s n entries) (λ c'. parse_subtrees root root c' path subtrees)

  -- The prefixes of the root that are left stand beside the subtrees.
  pub parse_subtrees : List Bytes → List Bytes → Client → ℕ → Subtrees → Option (Client × Rc)
  parse_subtrees root prefixes c path Subtrees.no_subtrees = some (c, Rc.ok)
  parse_subtrees root [] c path (Subtrees.subtree prefix prefix_length t ts) =
      let rest = parse_subtrees root [] c path ts in
      if prefix_length == steps_to b'/' (string_at c.req_headers path) then none else rest
  parse_subtrees root (p ∷ prefixes) c path (Subtrees.subtree prefix prefix_length t ts) =
      let s = string_at c.req_headers path in
      let n = steps_to b'/' s in
      let below = parse_api_tree root c (path + n + 1) t in
      let rest = parse_subtrees root prefixes c path ts in
      if prefix_matches s n p prefix_length then below else rest
