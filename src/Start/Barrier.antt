-- ===== src/Start/Barrier.antt =====
-- The threads that `kitserv_server_start` of src/kitserv.c starts, and the barrier.
use kitserv.Prelude.{
  ℕ, zero, suc, ◌+◌, ◌*◌, ◌≤◌, ◌<◌, ◌≡◌, refl, ap, sym, ◌∙◌, Bool, true, false, ◌⊎◌, inl, inr,
  Option, none, some, List, [], ◌∷◌, ◌++◌, arith, if_both, length, ◌&&◌, length-append, append-nil,
}
use kitserv.Prelude.Int.{ℤ, pos, negsuc, ◌+ℤ◌, ◌≤ℤ◌}
use kitserv.Cstring.{Bytes}
use kitserv.Pool.{Shared, int_max}
use kitserv.Pool.Select.{share_slots_bounds, share_slots-refused, share_slots-overflow}
use kitserv.Socket.{Started, start_sockets}
use kitserv.Main.{Config}
use kitserv.Start.{
  System, Thread, Outcome, http_init, slots_of, count, started, create_workers, create_accepter,
  both, one_if, barrier_count, create_threads, with_threads, with_sockets, with_slots, server_start,
}

-- Every call succeeds.
pub record Succeeds (sys : System) : Type 0 where
  pub signals : sys.sigset && sys.sigprocmask && sys.sigaction && sys.malloc_workers ≡ true
  pub memory : sys.malloc_accepters && sys.barrier_init ≡ true
  pub workers : (i : ℕ) → sys.create_worker i ≡ true
  pub v4 : sys.create_v4 ≡ true
  pub v6 : sys.create_v6 ≡ true
  pub sigwait : sys.sigwait ≡ true

-- The workers among the threads, and the sockets that the others accept from.
abbrev pub worker_indices : List Thread → List ℕ
worker_indices [] = []
worker_indices (Thread.client_worker i ∷ ts) = i ∷ worker_indices ts
worker_indices (Thread.accept_worker s ∷ ts) = worker_indices ts

abbrev pub listeners : List Thread → List ℕ
listeners [] = []
listeners (Thread.client_worker i ∷ ts) = listeners ts
listeners (Thread.accept_worker s ∷ ts) = s ∷ listeners ts

abbrev pub from : ℕ → ℕ → List ℕ
from i zero = []
from i (suc n) = i ∷ from (i + 1) n

abbrev pub sockets : Option ℕ × Option ℕ → List ℕ
sockets (none, none) = []
sockets (none, some s6) = s6 ∷ []
sockets (some s4, none) = s4 ∷ []
sockets (some s4, some s6) = s4 ∷ s6 ∷ []

-- The threads of `n` workers and of the accepters.
abbrev IsTeam : ℕ → Option ℕ × Option ℕ → List Thread → Type 0
IsTeam n ss ts =
    (worker_indices ts ≡ from 0 n)
    × (listeners ts ≡ sockets ss)
    × (length ts + 1 ≡ barrier_count n ss)

abbrev MayTeam : ℕ → Option ℕ × Option ℕ → Option (List Thread) → Type 0
MayTeam n ss none = Unit
MayTeam n ss (some ts) = IsTeam n ss ts

worker_indices-append :
    (ts us : List Thread) → worker_indices (ts ++ us) ≡ worker_indices ts ++ worker_indices us
worker_indices-append [] us = refl
worker_indices-append (Thread.client_worker i ∷ ts) us =
    ap (λ z. i ∷ z) (worker_indices-append ts us)
worker_indices-append (Thread.accept_worker s ∷ ts) us = worker_indices-append ts us

listeners-append : (ts us : List Thread) → listeners (ts ++ us) ≡ listeners ts ++ listeners us
listeners-append [] us = refl
listeners-append (Thread.client_worker i ∷ ts) us = listeners-append ts us
listeners-append (Thread.accept_worker s ∷ ts) us = ap (λ z. s ∷ z) (listeners-append ts us)

-- The workers from `i` on.
abbrev AreWorkers : ℕ → ℕ → Option (List Thread) → Type 0
AreWorkers i n none = Unit
AreWorkers i n (some ts) = (worker_indices ts ≡ from i n) × (listeners ts ≡ []) × (length ts ≡ n)

started-AreWorkers :
    (i n : ℕ) (o : Option (List Thread))
    → AreWorkers (i + 1) n o
    → AreWorkers i (suc n) (started i o)
started-AreWorkers i n none h = tt
started-AreWorkers i n (some ts) h = (ap (λ z. i ∷ z) h.0, h.1, omega arith)

create_workers-AreWorkers :
    (create : ℕ → Bool) (i n : ℕ) → AreWorkers i n (create_workers create i n)
unfolding create_workers
create_workers-AreWorkers create i zero = (refl, refl, refl)
create_workers-AreWorkers create i (suc n) =
    if_both (AreWorkers i (suc n)) (create i)
      (λ _.
        started-AreWorkers i n (create_workers create (i + 1) n)
          (create_workers-AreWorkers create (i + 1) n))
      (λ _. tt)

-- The accepters.
abbrev AreAccepters : Option ℕ × Option ℕ → Option (List Thread) → Type 0
AreAccepters ss none = Unit
AreAccepters ss (some ts) =
    (worker_indices ts ≡ []) × (listeners ts ≡ sockets ss) × (length ts ≡ one_if ss.0 + one_if ss.1)

create_accepters-AreAccepters :
    (b4 b6 : Bool) (s4 s6 : Option ℕ)
    → AreAccepters (s4, s6) (both (create_accepter b4 s4) (create_accepter b6 s6))
create_accepters-AreAccepters b4 b6 none none = (refl, refl, omega arith)
create_accepters-AreAccepters b4 true none (some s) = (refl, refl, omega arith)
create_accepters-AreAccepters b4 false none (some s) = tt
create_accepters-AreAccepters true b6 (some s) none = (refl, refl, omega arith)
create_accepters-AreAccepters false b6 (some s) none = tt
create_accepters-AreAccepters true true (some s) (some r) = (refl, refl, omega arith)
create_accepters-AreAccepters true false (some s) (some r) = tt
create_accepters-AreAccepters false b6 (some s) (some r) = tt

both-MayTeam :
    (n : ℕ) (ss : Option ℕ × Option ℕ) (ws accs : Option (List Thread))
    → AreWorkers 0 n ws
    → AreAccepters ss accs
    → MayTeam n ss (both ws accs)
both-MayTeam n ss none accs h k = tt
both-MayTeam n ss (some ws) none h k = tt
both-MayTeam n ss (some ws) (some accs) h k = (
  worker_indices-append ws accs ∙ ap (λ z. worker_indices ws ++ z) k.0 ∙ append-nil _ ∙ h.0,
  listeners-append ws accs ∙ ap (λ z. z ++ listeners accs) h.1 ∙ k.1,
  omega (arith, length-append ws accs, h.2, k.2),
)

-- The numbers are refused: one is not positive, or there are fewer slots than workers.
abbrev pub IsRefused : Config → Type 0
IsRefused c =
    (c.num_slots ≤ℤ pos 0) ⊎ (c.num_workers ≤ℤ pos 0) ⊎ (c.num_slots +ℤ pos 1 ≤ℤ c.num_workers)

-- The workers have the slots that were asked for, and fewer than one more each.
abbrev pub IsShared : Config → ℕ → Type 0
IsShared c slots =
    (0 < count c.num_workers)
    × (count c.num_workers ≤ count c.num_slots)
    × (count c.num_slots ≤ slots * count c.num_workers)
    × (slots * count c.num_workers < count c.num_slots + count c.num_workers)

-- How the server starts: it exits for a configuration or a socket, it aborts only for want of a root or
-- where a call fails, an `int` overflows only for huge numbers, and otherwise its threads are the workers
-- and one accepter for each socket, the barrier waits for all of them and itself, and there are slots
-- enough.
abbrev pub Starts : System → Config → Outcome → Type 0
Starts sys c Outcome.exited =
    IsRefused c ⊎ (start_sockets c.bind_ipv4 c.bind_ipv6 sys.v4 sys.v6 ≡ none)
Starts sys c Outcome.aborted = Succeeds sys → c.root ≡ none
Starts sys c Outcome.overflowed = int_max < count c.num_slots + count c.num_workers
Starts sys c (Outcome.returned ts n slots) =
    (ss : Option ℕ × Option ℕ) × (start_sockets c.bind_ipv4 c.bind_ipv6 sys.v4 sys.v6 ≡ some ss)
    × (worker_indices ts ≡ from 0 (count c.num_workers))
    × (listeners ts ≡ sockets ss)
    × (n ≡ length ts + 1)
    × IsShared c slots

abbrev IsSome : Option (List Thread) → Type 0
IsSome none = ⊥
IsSome (some ts) = Unit

started-IsSome : (i : ℕ) (o : Option (List Thread)) → IsSome o → IsSome (started i o)
started-IsSome i none h = h
started-IsSome i (some ts) h = tt

create_workers-IsSome :
    (create : ℕ → Bool) (i n : ℕ) → ((k : ℕ) → create k ≡ true) → IsSome (create_workers create i n)
unfolding create_workers
create_workers-IsSome create i zero h = tt
create_workers-IsSome create i (suc n) h =
    rw (h i) (
      started-IsSome i (create_workers create (i + 1) n) (create_workers-IsSome create (i + 1) n h))

create_accepter-IsSome : (b : Bool) (s : Option ℕ) → b ≡ true → IsSome (create_accepter b s)
create_accepter-IsSome b none h = tt
create_accepter-IsSome true (some s) h = tt
create_accepter-IsSome false (some s) h = absurd (cc)

both-IsSome : (o u : Option (List Thread)) → IsSome o → IsSome u → IsSome (both o u)
both-IsSome none u h k = h
both-IsSome (some ts) none h k = k
both-IsSome (some ts) (some us) h k = tt

create_threads-IsSome :
    (sys : System) (n : ℕ) (ss : Option ℕ × Option ℕ)
    → Succeeds sys
    → IsSome (create_threads sys n ss)
create_threads-IsSome sys n (s4, s6) h =
    both-IsSome (create_workers sys.create_worker 0 n) _
      (create_workers-IsSome sys.create_worker 0 n h.workers)
      (both-IsSome (create_accepter sys.create_v4 s4) (create_accepter sys.create_v6 s6)
        (create_accepter-IsSome sys.create_v4 s4 h.v4)
        (create_accepter-IsSome sys.create_v6 s6 h.v6))

-- What the numbers of a configuration come to.
abbrev Shares : Config → Shared → Type 0
Shares c Shared.refused = IsRefused c
Shares c Shared.overflow = int_max < count c.num_slots + count c.num_workers
Shares c (Shared.shared slots) = IsShared c slots

slots_of-Shares :
    (c : Config) (num_slots num_workers : ℤ) (o : Shared)
    → c.num_slots ≡ num_slots
    → c.num_workers ≡ num_workers
    → slots_of num_slots num_workers ≡ o
    → Shares c o
unfolding slots_of ◌+ℤ◌
slots_of-Shares c (pos s) (pos w) Shared.refused es ew e =
    let r = share_slots-refused s w e in rw (es, ew) (ground arith)
slots_of-Shares c (pos s) (pos w) Shared.overflow es ew e = rw (es, ew) (share_slots-overflow s w e)
slots_of-Shares c (pos s) (pos w) (Shared.shared n) es ew e =
    let r = share_slots_bounds s w {slots = n} e in rw (es, ew) (r.1, r.2, r.3, r.4)
slots_of-Shares c (pos s) (negsuc k) Shared.refused es ew e = inr (inl (rw ew (omega arith)))
slots_of-Shares c (pos s) (negsuc k) Shared.overflow es ew e = absurd (cc)
slots_of-Shares c (pos s) (negsuc k) (Shared.shared n) es ew e = absurd (cc)
slots_of-Shares c (negsuc k) w Shared.refused es ew e = inl (rw es (omega arith))
slots_of-Shares c (negsuc k) w Shared.overflow es ew e = absurd (cc)
slots_of-Shares c (negsuc k) w (Shared.shared n) es ew e = absurd (cc)

module _ (sys : System) (c : Config) where
  with_threads-Starts :
      (ss : Option ℕ × Option ℕ) (slots : ℕ) (o : Option (List Thread))
      → start_sockets c.bind_ipv4 c.bind_ipv6 sys.v4 sys.v6 ≡ some ss
      → IsShared c slots
      → MayTeam (count c.num_workers) ss o
      → (Succeeds sys → IsSome o)
      → Starts sys c (with_threads sys (barrier_count (count c.num_workers) ss) slots o)
  with_threads-Starts ss slots none e b t k = λ s. absurd (k s)
  with_threads-Starts ss slots (some ts) e b t k =
      if_both (Starts sys c) sys.sigwait (λ _. (ss, e, t.0, t.1, sym t.2, b))
        (λ f s. let up = s.sigwait in absurd (ground arith))

  with_sockets-Starts :
      (slots : ℕ) (o : Started)
      → start_sockets c.bind_ipv4 c.bind_ipv6 sys.v4 sys.v6 ≡ o
      → IsShared c slots
      → Starts sys c (with_sockets sys c slots o)
  with_sockets-Starts slots none e b = inr e
  with_sockets-Starts slots (some (s4, s6)) e b =
      if_both (Starts sys c) (sys.malloc_accepters && sys.barrier_init)
        (λ _.
          with_threads-Starts (s4, s6) slots _ e b
            (both-MayTeam (count c.num_workers) (s4, s6) _ _
              (create_workers-AreWorkers sys.create_worker 0 (count c.num_workers))
              (create_accepters-AreAccepters sys.create_v4 sys.create_v6 s4 s6))
            (create_threads-IsSome sys (count c.num_workers) (s4, s6)))
        (λ f s. let up = s.memory in absurd (ground arith))

  http_init_root : (root : Option Bytes) → http_init (some root) ≡ false → root ≡ none
  unfolding http_init
  http_init_root none e = refl
  http_init_root (some r) e = absurd (cc)

  with_slots-Starts : (o : Shared) → Shares c o → Starts sys c (with_slots sys c o)
  with_slots-Starts Shared.refused h = inl h
  with_slots-Starts Shared.overflow h = h
  with_slots-Starts (Shared.shared slots) h =
      if_both (Starts sys c)
        (http_init (some c.root)
          && sys.sigset
          && sys.sigprocmask
          && sys.sigaction
          && sys.malloc_workers)
        (λ _. with_sockets-Starts slots _ refl h)
        (λ f s. let up = s.signals in http_init_root c.root (ground arith))

-- For every configuration and whatever the system calls give, `kitserv_server_start` exits only if the number
-- of slots or that of workers is not positive, if there are fewer slots than workers, or if the sockets could
-- not be prepared; it overflows an `int` only if both numbers together are above INT_MAX; and it
-- aborts only if a system call fails or there is no root. Otherwise it has started each worker once and one
-- accepter for each prepared socket, the barrier is given just the number of these threads and one
-- more for the main thread, and all workers together have the slots that were asked for, and fewer
-- than one more for each worker.
pub server_start-Starts : (sys : System) (c : Config) → Starts sys c (server_start sys c)
unfolding server_start
server_start-Starts sys c = with_slots-Starts sys c (slots_of c.num_slots c.num_workers) (
    slots_of-Shares c c.num_slots c.num_workers (slots_of c.num_slots c.num_workers) refl refl refl)
