-- ===== src/Pool.antt =====
-- The connection containers of src/kitserv.c: the free list of a worker, and the choice of a worker.
-- A connection is its index in `connections`. The mutex makes each function one step.
pub mod Refine
pub mod Select
use kitserv.Prelude.{
  ℕ, zero, suc, ◌+◌, ◌-◌, ◌^◌, Bool, true, false, ◌||◌, Option, none, some, List, [], ◌∷◌, leb, ltb,
  if◌then◌else◌, length, get_or, set, ◌/◌, ◌==◌, ◌&&◌, not,
}
use kitserv.Prelude.Int.{ℤ, pos}
use kitserv.Status.{Status}
use kitserv.Client.{Client, ParseState, TransactionState}
use kitserv.Buffer.{Alloc, len}
use kitserv.Finalize.{reset_client}

-- A `next_conn` pointer. `garbage` is what `malloc` leaves in memory that is not written.
pub data Ptr : Type 0 where
  null : Ptr
  conn : ℕ → Ptr
  garbage : Ptr

pub record ConnectionContainer : Type 0 where
  pub freelist_count : ℕ
  pub first_free_conn : Ptr
  pub next_conn : List Ptr
  pub clients : ℕ → Client

-- `for (i = 0; i < container_slots - 1; i++)`: the links from `i` on; `fresh` is the content of the
-- allocated memory, which the last connection keeps.
unfoldable pub links : Ptr → ℕ → ℕ → List Ptr
links fresh i zero = []
links fresh i (suc zero) = fresh ∷ []
links fresh i (suc (suc n)) = Ptr.conn (i + 1) ∷ links fresh (i + 1) (suc n)

abbrev pub update : (ℕ → Client) → ℕ → Client → ℕ → Client
update clients i c j = if i == j then c else clients j

-- `connection_init`, with at least one slot, when no allocation fails. `raw` are the clients as their
-- allocations leave them; `kitserv_http_create_client_struct` ends by resetting each.
unfoldable pub connection_init : Alloc → (ℕ → Client) → Ptr → ℕ → ConnectionContainer
unfolding links reset_client
connection_init realloc raw fresh container_slots = record {
  freelist_count = container_slots;
  first_free_conn = Ptr.conn 0;
  next_conn = links fresh 0 container_slots;
  clients = λ i. reset_client realloc (raw i);
}

-- The connection, NULL, or a fault: a wild pointer, or an assertion that fails.
pub data Accepted : Type 0 where
  accepted : ℕ → ConnectionContainer → Accepted
  no_slots : Accepted
  fault : Accepted

abbrev is_read : TransactionState → Bool
is_read TransactionState.read = true
is_read _ = false

abbrev is_new : ParseState → Bool
is_new ParseState.ps_new = true
is_new _ = false

abbrev is_unset : Status → Bool
is_unset Status.unset = true
is_unset _ = false

abbrev is_zero_fd : ℤ → Bool
is_zero_fd (pos zero) = true
is_zero_fd _ = false

-- The assertions that the connection is fresh.
unfoldable pub is_fresh : Client → Bool
is_fresh c =
    length c.req_headers == 0
    && len c.resp_body == 0
    && is_zero_fd c.ta.resp_fd
    && is_read c.ta.state
    && is_new c.ta.parse_state
    && is_unset c.ta.resp_status

abbrev pub set_socket : Client → ℕ → Client
set_socket c socket = record c { sockfd = socket }

unfoldable pub take_conn : ConnectionContainer → ℕ → Ptr → Accepted
unfolding is_fresh
take_conn c socket Ptr.null = Accepted.no_slots
take_conn c socket Ptr.garbage = Accepted.fault
take_conn c socket (Ptr.conn i) =
    if leb c.freelist_count 0 || not (is_fresh (c.clients i))
    then Accepted.fault
    else Accepted.accepted i (record c {
      freelist_count = c.freelist_count - 1;
      first_free_conn = get_or c.next_conn i Ptr.garbage;
      clients = update c.clients i (set_socket (c.clients i) socket);
    })

-- `connection_accept`
unfoldable pub connection_accept : ConnectionContainer → ℕ → Accepted
unfolding take_conn
connection_accept c socket = take_conn c socket c.first_free_conn

-- `connection_close`
unfoldable pub connection_close : Alloc → ConnectionContainer → ℕ → ConnectionContainer
unfolding reset_client
connection_close realloc c i = record c {
  clients = update c.clients i (reset_client realloc (c.clients i));
  freelist_count = c.freelist_count + 1;
  first_free_conn = Ptr.conn i;
  next_conn = set c.next_conn i c.first_free_conn;
}

-- `score_worker`
abbrev pub score_worker : ConnectionContainer → ℕ
score_worker c = c.freelist_count

-- The loop of `select_client_worker`: `best_score` begins at -1, so `none` stands for no worker yet.
unfoldable pub best_from : ℕ → Option (ℕ × ℕ) → List ConnectionContainer → Option (ℕ × ℕ)
best_from i best [] = best
best_from i none (w ∷ ws) = best_from (i + 1) (some (i, score_worker w)) ws
best_from i (some (b, best_score)) (w ∷ ws) =
    best_from (i + 1)
      (if ltb best_score (score_worker w) then some (i, score_worker w) else some (b, best_score))
      ws

abbrev first_of : Option (ℕ × ℕ) → Option ℕ
first_of none = none
first_of (some (b, s)) = some b

-- `select_client_worker`
unfoldable pub select_client_worker : List ConnectionContainer → Option ℕ
unfolding best_from
select_client_worker workers = first_of (best_from 0 none workers)

-- The slots of each worker in `kitserv_server_start`: the configuration is refused, the sum does not fit in
-- an `int`, which is undefined behaviour, or the number of slots.
pub data Shared : Type 0 where
  refused : Shared
  overflow : Shared
  shared : ℕ → Shared

-- INT_MAX
abbrev pub int_max : ℕ
int_max = 2 ^ 31 - 1

-- The three checks and the division, for numbers that are not negative. The sum is computed from left to
-- right, so that it overflows before 1 is taken away.
unfoldable pub share_slots : ℕ → ℕ → Shared
share_slots num_slots num_workers =
    if leb num_slots 0 || leb num_workers 0 || ltb num_slots num_workers
    then Shared.refused
    else if ltb int_max (num_slots + num_workers)
    then Shared.overflow
    else Shared.shared ((num_slots + num_workers - 1) / num_workers)
