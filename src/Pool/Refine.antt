-- ===== src/Pool/Refine.antt =====
-- The free list refines a stack of free connections. `fresh` is what the allocation left in the link
-- of the last connection, which `connection_init` does not write: the list ends in it.
use kitserv.Prelude.{
  ◌==◌, ==-eq, ==_refl, Bool-cases, true, inl, inr, ℕ, zero, suc, ◌+◌, ◌-◌, ◌<◌, ◌≡◌, refl, ap, ◌∙◌,
  ◌≢◌, List, [], ◌∷◌, arith, length, get_or, set, length-set, get_or-set_self, get_or-set_ne,
}
use kitserv.Client.{Client, cleared}
use kitserv.Buffer.{Alloc, buffer_reset}
use kitserv.Finalize.{reset_client, cleanup_client}
use kitserv.Pool.{
  take_conn, is_fresh, update, set_socket, Ptr, ConnectionContainer, Accepted, links,
  connection_init, connection_accept, connection_close,
}

abbrev pub AllFresh : (ℕ → Client) → List ℕ → Type 0
AllFresh clients [] = Unit
AllFresh clients (i ∷ xs) = (is_fresh (clients i) ≡ true) × AllFresh clients xs

module _ (fresh : Ptr) where
  -- Following the links from a pointer visits these connections, and ends in `fresh`.
  abbrev pub Chain : List Ptr → Ptr → List ℕ → Type 0
  Chain next p [] = p ≡ fresh
  Chain next p (i ∷ xs) =
      (p ≡ Ptr.conn i) × (i < length next) × Chain next (get_or next i Ptr.garbage) xs

  -- The container's free connections are these, the next one first, and their clients are fresh.
  pub record Frees (c : ConnectionContainer) (xs : List ℕ) : Type 0 where
    pub chain : Chain c.next_conn c.first_free_conn xs
    pub count : c.freelist_count ≡ length xs
    pub clean : AllFresh c.clients xs

abbrev pub NotIn : ℕ → List ℕ → Type 0
NotIn i [] = Unit
NotIn i (x ∷ xs) = (i ≢ x) × NotIn i xs

abbrev pub upto : ℕ → ℕ → List ℕ
upto i zero = []
upto i (suc n) = i ∷ upto (i + 1) n

links_next :
    (fresh : Ptr) (i n k : ℕ)
    → k + 1 < n
    → get_or (links fresh i n) k Ptr.garbage ≡ Ptr.conn (i + k + 1)
unfolding links
links_next fresh i zero k h = absurd (omega arith)
links_next fresh i (suc zero) k h = absurd (omega arith)
links_next fresh i (suc (suc n)) zero h = ap Ptr.conn (omega arith)
links_next fresh i (suc (suc n)) (suc k) h =
    links_next fresh (i + 1) (suc n) k (omega arith) ∙ ap Ptr.conn (omega arith)

links_last : (fresh : Ptr) (i n : ℕ) → get_or (links fresh i (suc n)) n Ptr.garbage ≡ fresh
unfolding links
links_last fresh i zero = refl
links_last fresh i (suc n) = links_last fresh (i + 1) n

pub length-links : (fresh : Ptr) (i n : ℕ) → length (links fresh i n) ≡ n
unfolding links
length-links fresh i zero = refl
length-links fresh i (suc zero) = refl
length-links fresh i (suc (suc n)) = ap suc (length-links fresh (i + 1) (suc n))

pub length-upto : (i n : ℕ) → length (upto i n) ≡ n
length-upto i zero = refl
length-upto i (suc n) = ap suc (length-upto (i + 1) n)

links-Chain :
    (fresh : Ptr) (n k m : ℕ)
    → k + suc m ≡ n
    → Chain fresh (links fresh 0 n) (Ptr.conn k) (upto k (suc m))
links-Chain fresh n k zero e =
    let n' : n ≡ suc k = omega arith in
    (refl, omega (arith, length-links fresh 0 n), rw n' (links_last fresh 0 k))
links-Chain fresh n k (suc m) e = (
  refl,
  omega (arith, length-links fresh 0 n),
  rw (links_next fresh 0 n k (omega arith)) (
      let e' : 0 + k + 1 ≡ k + 1 = omega arith in
      rw e' (links-Chain fresh n (k + 1) m (omega arith))),
)

taken :
    (c : ConnectionContainer) (i socket : ℕ)
    → 0 < c.freelist_count
    → is_fresh (c.clients i) ≡ true
    → take_conn c socket (Ptr.conn i)
      ≡ Accepted.accepted i (record c {
        freelist_count = c.freelist_count - 1;
        first_free_conn = get_or c.next_conn i Ptr.garbage;
        clients = update c.clients i (set_socket (c.clients i) socket);
      })
unfolding take_conn
taken c i socket h f = rw f (ground arith)

-- A client that was reset is fresh.
pub reset_client-is_fresh :
    (realloc : Alloc) (c : Client) → is_fresh (reset_client realloc c) ≡ true
unfolding is_fresh reset_client cleanup_client buffer_reset
reset_client-is_fresh realloc c = ground arith

upto-AllFresh :
    (clients : ℕ → Client) (i n : ℕ)
    → ((k : ℕ) → is_fresh (clients k) ≡ true)
    → AllFresh clients (upto i n)
upto-AllFresh clients i zero h = tt
upto-AllFresh clients i (suc n) h = (h i, upto-AllFresh clients (i + 1) n h)

update_self : (clients : ℕ → Client) (i : ℕ) (c : Client) → update clients i c i ≡ c
update_self clients i c = rw (==_refl i) refl

pub update-AllFresh :
    (clients : ℕ → Client) (i : ℕ) (c : Client) (xs : List ℕ)
    → NotIn i xs
    → AllFresh clients xs
    → AllFresh (update clients i c) xs
update-AllFresh clients i c [] n h = tt
update-AllFresh clients i c (x ∷ xs) n h = (
  elim (Bool-cases (i == x)) [
    | inl same ↦ absurd (n.0 (==-eq i x same))
    | inr other ↦ rw other h.0
  ],
  update-AllFresh clients i c xs n.1 h.1,
)

-- After `connection_init` of at least one slot, in which no allocation fails, every connection is free,
-- in order, with a fresh client, and the list ends in whatever the allocation held.
pub connection_init-Frees :
    (realloc : Alloc) (raw : ℕ → Client) (fresh : Ptr) (n : ℕ)
    → Frees fresh (connection_init realloc raw fresh (suc n)) (upto 0 (suc n))
unfolding connection_init
connection_init-Frees realloc raw fresh n = record {
  chain = links-Chain fresh (suc n) 0 n (omega arith);
  count = ap suc (omega (arith, length-upto (0 + 1) n));
  clean =
      upto-AllFresh (λ i. reset_client realloc (raw i)) 0 (suc n)
        (λ k. reset_client-is_fresh realloc (raw k));
}

-- The container behind an accept.
abbrev pub accepted_container : ConnectionContainer → ℕ → ℕ → ConnectionContainer
accepted_container c i socket = record c {
  freelist_count = c.freelist_count - 1;
  first_free_conn = get_or c.next_conn i Ptr.garbage;
  clients = update c.clients i (set_socket (c.clients i) socket);
}

pub connection_accept-accepted :
    (fresh : Ptr) (c : ConnectionContainer) (i : ℕ) (xs : List ℕ) (socket : ℕ)
    → Frees fresh c (i ∷ xs)
    → NotIn i xs
    → (connection_accept c socket ≡ Accepted.accepted i (accepted_container c i socket))
      × Frees fresh (accepted_container c i socket) xs
      × ((accepted_container c i socket).clients i ≡ set_socket (c.clients i) socket)
unfolding connection_accept
connection_accept-accepted fresh c i xs socket v n = (
  ap (take_conn c socket) v.chain.0 ∙ taken c i socket (omega (arith, v.count)) v.clean.0,
  record {
    chain = v.chain.2;
    count = omega (arith, v.count);
    clean = update-AllFresh c.clients i (set_socket (c.clients i) socket) xs n v.clean.1;
  },
  update_self c.clients i (set_socket (c.clients i) socket),
)

-- With a free connection in the list, which no other part of the list repeats, accepting takes the first
-- one, gives its client the socket and leaves the rest free. The assertions do not fail.
pub connection_accept_some :
    (fresh : Ptr) (c : ConnectionContainer) (i : ℕ) (xs : List ℕ) (socket : ℕ)
    → Frees fresh c (i ∷ xs)
    → NotIn i xs
    → (c' : ConnectionContainer) × (connection_accept c socket ≡ Accepted.accepted i c')
      × Frees fresh c' xs
      × (c'.clients i ≡ set_socket (c.clients i) socket)
connection_accept_some fresh c i xs socket v n =
    let h = connection_accept-accepted fresh c i xs socket v n in
    (accepted_container c i socket, h.0, h.1, h.2)

-- With no free connection left, the accept is refused if the last link was clear when it was
-- allocated; but it follows a wild pointer if that link was garbage.
pub connection_accept_none :
    (fresh : Ptr) (c : ConnectionContainer) (socket : ℕ)
    → Frees fresh c []
    → (fresh ≡ Ptr.null → connection_accept c socket ≡ Accepted.no_slots)
      × (fresh ≡ Ptr.garbage → connection_accept c socket ≡ Accepted.fault)
unfolding connection_accept
connection_accept_none fresh c socket v = (λ e. rw (v.chain, e), λ e. rw (v.chain, e))

Chain-set :
    (fresh : Ptr) (next : List Ptr) (p : Ptr) (xs : List ℕ) (i : ℕ) (q : Ptr)
    → NotIn i xs
    → Chain fresh next p xs
    → Chain fresh (set next i q) p xs
Chain-set fresh next p [] i q n h = h
Chain-set fresh next p (x ∷ xs) i q n h = (
  h.0,
  omega (arith, length-set next i q, h.1),
  rw (get_or-set_ne next i x q Ptr.garbage n.0)
      (Chain-set fresh next (get_or next x Ptr.garbage) xs i q n.1 h.2),
)

-- The free list behind a close of a connection that is in use.
pub connection_close-Frees :
    (realloc : Alloc) (fresh : Ptr) (c : ConnectionContainer) (i : ℕ) (xs : List ℕ)
    → Frees fresh c xs
    → NotIn i xs
    → i < length c.next_conn
    → Frees fresh (connection_close realloc c i) (i ∷ xs)
unfolding connection_close
connection_close-Frees realloc fresh c i xs v n h = record {
  chain = (
    refl,
    omega (arith, length-set c.next_conn i c.first_free_conn),
    rw (get_or-set_self c.next_conn i c.first_free_conn Ptr.garbage h)
        (Chain-set fresh c.next_conn c.first_free_conn xs i c.first_free_conn n v.chain),
  );
  count = omega (arith, v.count);
  clean = (
    ap is_fresh (update_self c.clients i (reset_client realloc (c.clients i)))
        ∙ reset_client-is_fresh realloc (c.clients i),
    update-AllFresh c.clients i (reset_client realloc (c.clients i)) xs n v.clean,
  );
}

-- Behind the close of a connection: it is first in the free list, nothing is left in its client of the
-- transaction, the received bytes or the body, and no other client has changed.
pub record Resets (fresh : Ptr) (c : ConnectionContainer) (i : ℕ) (xs : List ℕ)
    (d : ConnectionContainer) : Type 0 where
  pub frees : Frees fresh d (i ∷ xs)
  pub transaction : (d.clients i).ta ≡ cleared
  pub received : (d.clients i).req_headers ≡ []
  pub body : (d.clients i).resp_body.bytes ≡ []
  pub others : (k : ℕ) → i ≢ k → d.clients k ≡ c.clients k

reset_client-empty :
    (realloc : Alloc) (c : Client)
    → ((reset_client realloc c).ta ≡ cleared)
      × ((reset_client realloc c).req_headers ≡ [])
      × ((reset_client realloc c).resp_body.bytes ≡ [])
unfolding reset_client cleanup_client buffer_reset
reset_client-empty realloc c = (refl, refl, ground arith)

update_ne : (clients : ℕ → Client) (i k : ℕ) (c : Client) → i ≢ k → update clients i c k ≡ clients k
update_ne clients i k c n = elim (Bool-cases (i == k)) [
  | inl same ↦ absurd (n (==-eq i k same))
  | inr other ↦ rw other refl
]

-- Closing a connection that is in use, with a free list that does not hold it: the connection comes first
-- in the list and the others stay free, its transaction is cleared, its received bytes and its body are
-- empty, and the clients of all other connections are unchanged.
pub connection_close-Resets :
    (realloc : Alloc) (fresh : Ptr) (c : ConnectionContainer) (i : ℕ) (xs : List ℕ)
    → Frees fresh c xs
    → NotIn i xs
    → i < length c.next_conn
    → Resets fresh c i xs (connection_close realloc c i)
unfolding connection_close
connection_close-Resets realloc fresh c i xs v n h =
    let r = reset_client-empty realloc (c.clients i) in
    let self = update_self c.clients i (reset_client realloc (c.clients i)) in
    record {
      frees = connection_close-Frees realloc fresh c i xs v n h;
      transaction = ap (λ d. d.ta) self ∙ r.0;
      received = ap (λ d. d.req_headers) self ∙ r.1;
      body = ap (λ d. d.resp_body.bytes) self ∙ r.2;
      others = λ k. update_ne c.clients i k (reset_client realloc (c.clients i));
    }
