-- ===== src/Start.antt =====
-- `kitserv_server_start` of src/kitserv.c, with `kitserv_http_init` of src/http.c: the configuration, the
-- signals, the sockets, the threads and the barrier that they meet at. The system calls are a parameter.
pub mod Barrier
use kitserv.Prelude.{
  ℕ, zero, suc, ◌+◌, Bool, true, false, not, ◌&&◌, ◌||◌, Option, none, some, List, [], ◌∷◌, ◌++◌,
  if◌then◌else◌, length,
}
use kitserv.Prelude.Int.{ℤ, pos, negsuc}
use kitserv.Cstring.{Bytes}
use kitserv.Pool.{Shared, share_slots}
use kitserv.Socket.{Prepared, Started, start_sockets}
use kitserv.Main.{Config}

-- Whether each call succeeds, what preparing the sockets gives, and whether the threads are created: the
-- thread of the worker at an index, and those of the accepters.
pub record System : Type 0 where
  pub sigset : Bool
  pub sigprocmask : Bool
  pub sigaction : Bool
  pub malloc_workers : Bool
  pub v4 : Prepared
  pub v6 : Prepared
  pub malloc_accepters : Bool
  pub barrier_init : Bool
  pub create_worker : ℕ → Bool
  pub create_v4 : Bool
  pub create_v6 : Bool
  pub sigwait : Bool

-- A thread, with what it is created with: the index of its worker, or the listening socket.
pub data Thread : Type 0 where
  client_worker : ℕ → Thread
  accept_worker : ℕ → Thread

-- `exit(1)`, `abort()`, the overflow of an `int`, or the return behind a signal: the threads, the count of
-- the barrier, and the slots of a worker.
pub data Outcome : Type 0 where
  exited : Outcome
  aborted : Outcome
  overflowed : Outcome
  returned : List Thread → ℕ → ℕ → Outcome

-- `kitserv_http_init`, whether it goes on: the context may be NULL, and its root.
unfoldable pub http_init : Option (Option Bytes) → Bool
http_init none = false
http_init (some none) = false
http_init (some (some root)) = true

-- The three checks and the slots, on C's `int`.
unfoldable pub slots_of : ℤ → ℤ → Shared
unfolding share_slots
slots_of (pos num_slots) (pos num_workers) = share_slots num_slots num_workers
slots_of (pos num_slots) (negsuc k) = Shared.refused
slots_of (negsuc k) num_workers = Shared.refused

abbrev pub count : ℤ → ℕ
count (pos n) = n
count (negsuc k) = 0

abbrev pub started : ℕ → Option (List Thread) → Option (List Thread)
started i none = none
started i (some ts) = some (Thread.client_worker i ∷ ts)

-- `for (i = 0; i < config->num_workers; i++)`: the threads from `i` on, or `none` where one is not created.
unfoldable pub create_workers : (ℕ → Bool) → ℕ → ℕ → Option (List Thread)
create_workers create i zero = some []
create_workers create i (suc n) =
    let rest = create_workers create (i + 1) n in if create i then started i rest else none

-- `accepters[0]` and `accepters[1]`: a thread, if there is a socket.
abbrev pub create_accepter : Bool → Option ℕ → Option (List Thread)
create_accepter create none = some []
create_accepter true (some s) = some (Thread.accept_worker s ∷ [])
create_accepter false (some s) = none

abbrev pub both : Option (List Thread) → Option (List Thread) → Option (List Thread)
both none ts = none
both (some ts) none = none
both (some ts) (some us) = some (ts ++ us)

-- `!!bind_ipv4`, when the socket is there exactly if the flag is set.
abbrev pub one_if : Option ℕ → ℕ
one_if none = 0
one_if (some s) = 1

-- What `pthread_barrier_init` is given.
abbrev pub barrier_count : ℕ → Option ℕ × Option ℕ → ℕ
barrier_count num_workers (s4, s6) = num_workers + one_if s4 + one_if s6 + 1

abbrev pub create_threads : System → ℕ → Option ℕ × Option ℕ → Option (List Thread)
create_threads sys num_workers (s4, s6) =
    both (create_workers sys.create_worker 0 num_workers)
      (both (create_accepter sys.create_v4 s4) (create_accepter sys.create_v6 s6))

abbrev pub with_threads : System → ℕ → ℕ → Option (List Thread) → Outcome
with_threads sys n slots none = Outcome.aborted
with_threads sys n slots (some ts) =
    if sys.sigwait then Outcome.returned ts n slots else Outcome.aborted

abbrev pub with_sockets : System → Config → ℕ → Started → Outcome
with_sockets sys c slots none = Outcome.exited
with_sockets sys c slots (some sockets) =
    if sys.malloc_accepters && sys.barrier_init
    then with_threads sys (barrier_count (count c.num_workers) sockets) slots
        (create_threads sys (count c.num_workers) sockets)
    else Outcome.aborted

abbrev pub with_slots : System → Config → Shared → Outcome
with_slots sys c Shared.refused = Outcome.exited
with_slots sys c Shared.overflow = Outcome.overflowed
with_slots sys c (Shared.shared slots) =
    if http_init (some c.root)
      && sys.sigset
      && sys.sigprocmask
      && sys.sigaction
      && sys.malloc_workers
    then with_sockets sys c slots (start_sockets c.bind_ipv4 c.bind_ipv6 sys.v4 sys.v6)
    else Outcome.aborted

-- `kitserv_server_start`
unfoldable pub server_start : System → Config → Outcome
unfolding slots_of http_init start_sockets create_workers
server_start sys c = with_slots sys c (slots_of c.num_slots c.num_workers)
