-- ===== src/Tests/Server.antt =====
-- The results on connections and workers, at concrete inputs.
use kitserv.Prelude.{true, false, ℕ, ◌≡◌, refl, some, [], ◌∷◌, arith}
use kitserv.Buffer.{Alloc}
use kitserv.Tests.Data.{new_client}
use kitserv.Pool.{
  is_fresh, set_socket, Ptr, ConnectionContainer, Accepted, connection_accept, connection_close,
  select_client_worker,
}
use kitserv.Pool.Refine.{Frees, connection_accept_some, Resets, connection_close-Resets}
use kitserv.Pool.Select.{IsBest, select_client_worker-IsBest}

-- Two connections, the first one in use.
abbrev one_free : ConnectionContainer
one_free = record {
  freelist_count = 1;
  first_free_conn = Ptr.conn 1;
  next_conn = Ptr.conn 1 ∷ Ptr.null ∷ [];
  clients = λ i. new_client;
}

abbrev none_free : ConnectionContainer
none_free = record {
  freelist_count = 0;
  first_free_conn = Ptr.null;
  next_conn = Ptr.conn 1 ∷ Ptr.null ∷ [];
  clients = λ i. new_client;
}

abbrev pub fixed : Alloc
fixed n = false

new_client-is_fresh : is_fresh new_client ≡ true
unfolding is_fresh
new_client-is_fresh = refl

abbrev one_free-Frees : Frees Ptr.null one_free (1 ∷ [])
one_free-Frees = record {
  chain = (refl, omega arith, refl);
  count = refl;
  clean = (new_client-is_fresh, tt);
}

connection_accept_some_example :
    (c' : ConnectionContainer) × (connection_accept one_free 8 ≡ Accepted.accepted 1 c')
    × Frees Ptr.null c' []
    × (c'.clients 1 ≡ set_socket new_client 8)
connection_accept_some_example = connection_accept_some Ptr.null one_free 1 [] 8 one_free-Frees tt

connection_close-Resets_example :
    Resets Ptr.null one_free 0 (1 ∷ []) (connection_close fixed one_free 0)
connection_close-Resets_example =
    connection_close-Resets fixed Ptr.null one_free 0 (1 ∷ []) one_free-Frees (ground arith, tt)
      (omega arith)

select_client_worker-IsBest_example :
    (b : ℕ) × (s : ℕ) × (select_client_worker (none_free ∷ one_free ∷ []) ≡ some b)
    × IsBest 0 b s (none_free ∷ one_free ∷ [])
select_client_worker-IsBest_example = select_client_worker-IsBest none_free (one_free ∷ [])
