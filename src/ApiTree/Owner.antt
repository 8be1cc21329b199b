-- ===== src/ApiTree/Owner.antt =====
-- The socket of the client in `parse_api_tree` of src/http.c.
use kitserv.Prelude.{
  ℕ, ◌+◌, ◌≡◌, Bool, true, false, Option, none, some, List, [], ◌∷◌, ◌==◌, if_both,
}
use kitserv.Cstring.{Bytes, string_at, steps_to}
use kitserv.Client.Kept.{Kept, kept}
use kitserv.Client.{Client, Rc}
use kitserv.ApiTree.{
  ApiEntry, ApiTree, Subtrees, prefix_matches, entry_matches, takes_method, try_entry, try_entries,
  after_entries, parse_api_tree, parse_subtrees,
}

module _ (before : Kept) where
  abbrev pub TreeOwns : Option (Client × Rc) → Type 0
  TreeOwns none = Unit
  TreeOwns (some (c, rc)) = kept c ≡ before

  abbrev EntryOwns : Client × Bool → Type 0
  EntryOwns (c, b) = kept c ≡ before

  try_entry-EntryOwns :
      (c : Client) (path : Bytes) (n : ℕ) (e : ApiEntry)
      → kept c ≡ before
      → EntryOwns (try_entry c path n e)
  unfolding try_entry
  try_entry-EntryOwns c path n e h =
      if_both EntryOwns (entry_matches path n e)
        (λ _. if_both EntryOwns (takes_method c e) (λ _. h) (λ _. h)) (λ _. h)

  try_entries-EntryOwns :
      (c : Client) (path : Bytes) (n : ℕ) (es : List ApiEntry)
      → kept c ≡ before
      → EntryOwns (try_entries c path n es)
  unfolding try_entries
  try_entries-EntryOwns c path n [] h = h
  try_entries-EntryOwns c path n (e ∷ es) h =
      let first = try_entry-EntryOwns c path n e h in
      if_both EntryOwns (try_entry c path n e).1 (λ _. first)
        (λ _. try_entries-EntryOwns (try_entry c path n e).0 path n es first)

  after_entries-TreeOwns :
      (r : Client × Bool) (next : Client → Option (Client × Rc))
      → EntryOwns r
      → ((c : Client) → kept c ≡ before → TreeOwns (next c))
      → TreeOwns (after_entries r next)
  unfolding after_entries
  after_entries-TreeOwns (c, true) next h k = h
  after_entries-TreeOwns (c, false) next h k =
      if_both TreeOwns (c.ta.api_allow_flags == 0) (λ _. k c h) (λ _. h)

  mutual
    unfolding parse_api_tree parse_subtrees

    pub parse_api_tree-TreeOwns :
        (root : List Bytes) (c : Client) (path : ℕ) (t : ApiTree)
        → kept c ≡ before
        → TreeOwns (parse_api_tree root c path t)
    parse_api_tree-TreeOwns root c path (ApiTree.node entries subtrees) h =
        let s = string_at c.req_headers path in
        after_entries-TreeOwns (try_entries c s (steps_to b'/' s) entries) _
          (try_entries-EntryOwns c s (steps_to b'/' s) entries h)
          (λ d k. parse_subtrees-TreeOwns root root d path subtrees k)

    parse_subtrees-TreeOwns :
        (root prefixes : List Bytes) (c : Client) (path : ℕ) (ts : Subtrees)
        → kept c ≡ before
        → TreeOwns (parse_subtrees root prefixes c path ts)
    parse_subtrees-TreeOwns root prefixes c path Subtrees.no_subtrees h = h
    parse_subtrees-TreeOwns root [] c path (Subtrees.subtree prefix prefix_length t ts) h =
        if_both TreeOwns (prefix_length == steps_to b'/' (string_at c.req_headers path)) (λ _. tt)
          (λ _. parse_subtrees-TreeOwns root [] c path ts h)
    parse_subtrees-TreeOwns root (p ∷ prefixes) c path (Subtrees.subtree prefix prefix_length t ts)
          h =
        let s = string_at c.req_headers path in
        if_both TreeOwns (prefix_matches s (steps_to b'/' s) p prefix_length)
          (λ _. parse_api_tree-TreeOwns root c (path + steps_to b'/' s + 1) t h)
          (λ _. parse_subtrees-TreeOwns root prefixes c path ts h)
