-- ===== src/Workers.antt =====
-- The loops of src/kitserv.c: `accept_worker`, which gives a new socket to a worker, and `client_worker`,
-- which serves the connections of its queue. An accept with its `kitserv_queue_add`, and an event, are one step
-- each; the queue is the list of the sockets that it watches, with the connection that each event hands back.
pub mod Queue
pub mod Invariant
pub mod Accept
pub mod Reach
use kitserv.Prelude.{
  ℕ, zero, suc, Bool, true, false, Option, none, some, List, [], ◌∷◌, ◌==◌, if◌then◌else◌, map,
  get_elem?, set,
}
use kitserv.Client.{Client, Rc}
use kitserv.Buffer.{Alloc}
use kitserv.Pool.{
  Ptr, ConnectionContainer, Accepted, update, connection_init, connection_accept, connection_close,
  select_client_worker,
}

-- `struct worker`, with its queue: sockets and connections.
pub record Worker : Type 0 where
  pub conn_container : ConnectionContainer
  pub queue : List (ℕ × ℕ)

-- `client_worker` before its loop.
unfoldable pub worker_init : Alloc → (ℕ → Client) → Ptr → ℕ → Worker
unfolding connection_init
worker_init realloc raw fresh slots = record {
  conn_container = connection_init realloc raw fresh slots;
  queue = [];
}

-- `kitserv_queue_remove`: the entry of this socket.
unfoldable pub queue_remove : ℕ → List (ℕ × ℕ) → List (ℕ × ℕ)
queue_remove fd [] = []
queue_remove fd ((fd', i) ∷ q) =
    if fd' == fd then queue_remove fd q else (fd', i) ∷ queue_remove fd q

-- `kitserv_queue_add`; `added` is whether the system adds it, which the code does not ask.
abbrev pub queue_add : Bool → ℕ → ℕ → List (ℕ × ℕ) → List (ℕ × ℕ)
queue_add true fd i q = (fd, i) ∷ q
queue_add false fd i q = q

-- The workers, and the sockets that were closed; `none` is a fault.
abbrev pub Round : Type 0
Round = Option (List Worker × List ℕ)

-- The result of `connection_accept` of the worker at `v`.
abbrev pub attach : List Worker → ℕ → Worker → ℕ → Bool → Accepted → Round
attach ws v w fd added (Accepted.accepted i c) =
    some (set ws v (record { conn_container = c; queue = queue_add added fd i w.queue }), [])
attach ws v w fd added Accepted.no_slots = some (ws, fd ∷ [])
attach ws v w fd added Accepted.fault = none

abbrev pub give : List Worker → ℕ → ℕ → Bool → Option Worker → Round
give ws v fd added none = none
give ws v fd added (some w) = attach ws v w fd added (connection_accept w.conn_container fd)

abbrev pub give_to : List Worker → ℕ → Bool → Option ℕ → Round
give_to ws fd added none = none
give_to ws fd added (some v) = give ws v fd added (get_elem? ws v)

-- One round of `accept_worker`, with the result of `kitserv_socket_accept`.
unfoldable pub accept_round : List Worker → Option ℕ → Bool → Round
unfolding connection_accept select_client_worker
accept_round ws none added = some (ws, [])
accept_round ws (some fd) added =
    give_to ws fd added (select_client_worker (map (λ w. w.conn_container) ws))

abbrev pub store : Worker → ℕ → Client → ConnectionContainer
store w i c = record w.conn_container { clients = update w.conn_container.clients i c }

-- One event of `client_worker`, for the connection `i`, with what `kitserv_http_serve_client` gives, and
-- the sockets that are closed.
unfoldable pub client_round : Alloc → Worker → ℕ → Client × Rc → Worker × List ℕ
unfolding queue_remove connection_close
client_round realloc w i (c, Rc.ok) = (record w { conn_container = store w i c }, [])
client_round realloc w i (c, Rc.fail) = (
  record {
    conn_container = connection_close realloc (store w i c) i;
    queue = queue_remove c.sockfd w.queue;
  },
  c.sockfd ∷ [],
)
