-- ===== src/Workers/Accept.antt =====
-- Where a round of `accept_worker` of src/kitserv.c gives a new socket.
use kitserv.Prelude.{
  ℕ, zero, suc, ◌+◌, ◌-◌, ◌≤◌, ◌<◌, ◌≡◌, ◌≢◌, refl, ap, ◌⊎◌, inl, inr, Bool, true, false, none,
  some, List, [], ◌∷◌, map, get_elem?, set, arith, subst,
}
use mathlib.Core.Option.{some_inj}
use kitserv.Pool.{Ptr, ConnectionContainer, Accepted, score_worker, take_conn, connection_accept}
use kitserv.Pool.Refine.{NotIn, accepted_container}
use kitserv.Pool.Select.{IsBest, select_client_worker-IsBest}
use kitserv.Workers.{Worker, Round, queue_add, attach, give, accept_round}
use kitserv.Workers.Queue.{sockets}
use kitserv.Workers.Invariant.{IsSound, lost_by, accepted-IsSound}

abbrev pub containers : List Worker → List ConnectionContainer
containers ws = map (λ w. w.conn_container) ws

-- Every worker is sound, whatever its last link is, and `m` connections are lost in all.
abbrev pub AllSound : ℕ → List Worker → Type 0
AllSound m [] = m ≡ 0
AllSound m (w ∷ ws) =
    (lost : ℕ) × (k : ℕ) × (m ≡ lost + k)
    × ((last : Ptr) × (free : List ℕ) × IsSound last lost w free)
    × AllSound k ws

-- No worker watches the socket: the system gives no number twice while it is open.
abbrev pub IsNew : ℕ → List Worker → Type 0
IsNew fd [] = Unit
IsNew fd (w ∷ ws) = NotIn fd (sockets w.queue) × IsNew fd ws

-- One of the workers, with what it takes to put another in its place.
pub AllSound-get_elem? :
    (m : ℕ) (ws : List Worker) (k : ℕ) {w : Worker}
    → AllSound m ws
    → get_elem? ws k ≡ some w
    → (last : Ptr) × (lost : ℕ) × (free : List ℕ) × IsSound last lost w free
      × (lost ≤ m)
      × ((lost' : ℕ) (w' : Worker) (free' : List ℕ) (m' : ℕ)
          → m' + lost ≡ m + lost'
          → IsSound last lost' w' free'
          → AllSound m' (set ws k w'))
AllSound-get_elem? m [] k s e = ground arith
AllSound-get_elem? m (w ∷ ws) zero (lost, k, n, (last, free, h), rest) e = (
  last,
  lost,
  free,
  subst (λ x. IsSound last lost x free) (some_inj.0 e) h,
  omega arith,
  λ lost' w' free' m' n' h'. (lost', k, omega arith, (last, free', h'), rest),
)
AllSound-get_elem? m (w ∷ ws) (suc i) (lost0, k, n, h, rest) e =
    let (last, lost, free, found, le, back) = AllSound-get_elem? k ws i rest e in
    (
      last,
      lost,
      free,
      found,
      omega arith,
      λ lost' w' free' m' n' h'. (
        lost0,
        k + lost' - lost,
        omega arith,
        h,
        back lost' w' free' (k + lost' - lost) (omega arith) h',
      ),
    )

IsNew-get_elem? :
    (ws : List Worker) (k fd : ℕ) {w : Worker}
    → IsNew fd ws
    → get_elem? ws k ≡ some w
    → NotIn fd (sockets w.queue)
IsNew-get_elem? [] k fd s e = ground arith
IsNew-get_elem? (w ∷ ws) zero fd s e = subst (λ x. NotIn fd (sockets x.queue)) (some_inj.0 e) s.0
IsNew-get_elem? (w ∷ ws) (suc k) fd s e = IsNew-get_elem? ws k fd s.1 e

IsBest-get_elem? :
    (ws : List Worker) (i b s : ℕ)
    → IsBest i b s (containers ws)
    → (k : ℕ) × (w : Worker) × (b ≡ i + k)
      × (get_elem? ws k ≡ some w)
      × (s ≡ score_worker w.conn_container)
IsBest-get_elem? [] i b s h = absurd h
IsBest-get_elem? (w ∷ ws) i b s (inl h) = (0, w, omega (arith, h.0), refl, h.1)
IsBest-get_elem? (w ∷ ws) i b s (inr h) =
    let (k, v, e, g, sc) = IsBest-get_elem? ws (i + 1) b s h.1 in
    (suc k, v, omega (arith, e), g, sc)

-- What accepting a socket does with the worker at `v`. If it has no free slot, the socket is closed when the
-- free list ends in NULL, and otherwise its last link is followed, which is a fault. If it has one, a
-- connection that was free has the socket and is watched, or is lost if the queue does not add it.
abbrev pub Gives : ℕ → List Worker → ℕ → Bool → Round → ℕ → Worker → Type 0
Gives m ws fd added r v w =
    ((score_worker w.conn_container ≡ 0)
      × (w.conn_container.first_free_conn ≡ Ptr.null)
      × (r ≡ some (ws, fd ∷ [])))
    ⊎ ((score_worker w.conn_container ≡ 0)
        × (w.conn_container.first_free_conn ≢ Ptr.null)
        × (r ≡ none))
    ⊎ ((w' : Worker) × (i : ℕ) × (0 < score_worker w.conn_container)
        × (r ≡ some (set ws v w', []))
        × (w'.queue ≡ queue_add added fd i w.queue)
        × ((w'.conn_container.clients i).sockfd ≡ fd)
        × AllSound (lost_by added m) (set ws v w'))

-- The accept of a container with no free connection.
accept_empty :
    (c : ConnectionContainer) (fd : ℕ) (last : Ptr)
    → c.first_free_conn ≡ last
    → c.freelist_count ≡ 0
    → ((c.first_free_conn ≡ Ptr.null) × (connection_accept c fd ≡ Accepted.no_slots))
      ⊎ ((c.first_free_conn ≢ Ptr.null) × (connection_accept c fd ≡ Accepted.fault))
unfolding connection_accept take_conn
accept_empty c fd Ptr.null e z = inl (e, rw e refl)
accept_empty c fd Ptr.garbage e z = inr ((λ n. absurd (cc)), rw e refl)
accept_empty c fd (Ptr.conn k) e z = inr ((λ n. absurd (cc)), rw (e, z) refl)

pub give-Gives :
    (m : ℕ) (ws : List Worker) (v fd : ℕ) (added : Bool) {w : Worker}
    → AllSound m ws
    → IsNew fd ws
    → get_elem? ws v ≡ some w
    → Gives m ws fd added (give ws v fd added (some w)) v w
give-Gives m ws v fd added {w} a new g =
    let (last, lost, free, sound, le, back) = AllSound-get_elem? m ws v {w = w} a g in
    go last lost free sound back (IsNew-get_elem? ws v fd {w = w} new g)
  where
    go :
        (last : Ptr) (lost : ℕ) (free : List ℕ)
        → IsSound last lost w free
        → ((lost' : ℕ) (w' : Worker) (free' : List ℕ) (m' : ℕ)
            → m' + lost ≡ m + lost'
            → IsSound last lost' w' free'
            → AllSound m' (set ws v w'))
        → NotIn fd (sockets w.queue)
        → Gives m ws fd added (give ws v fd added (some w)) v w
    go last lost [] s back n =
        elim (accept_empty w.conn_container fd last s.frees.chain s.frees.count) [
          | inl (e, r) ↦ inl (s.frees.count, e, ap (attach ws v w fd added) r)
          | inr (e, r) ↦ inr (inl (s.frees.count, e, ap (attach ws v w fd added) r))
        ]
    go last lost (i ∷ free) s back n =
        let (e, mine, sound) = accepted-IsSound last lost w i free fd added s n in
        let w' : Worker = record {
          conn_container = accepted_container w.conn_container i fd;
          queue = queue_add added fd i w.queue;
        } in
        inr (
          inr (
            w',
            i,
            omega (arith, s.frees.count),
            ap (attach ws v w fd added) e,
            refl,
            ap (λ c. c.sockfd) mine,
            back (lost_by added lost) w' free (lost_by added m) (moved added) sound,
          ))
      where
        moved : (b : Bool) → lost_by b m + lost ≡ m + lost_by b lost
        moved true = refl
        moved false = omega arith

-- For a server of at least one worker whose workers are sound, whatever the last link of each free list is,
-- and a socket that none of them watches, one round of `accept_worker` with no other thread in
-- between: it takes the first of the workers with the most free slots. If that one has a free slot, a
-- connection that was free has the socket and is watched, or is lost if the queue does not add it, and
-- all workers are sound. If it has none, the socket is closed and nothing else has changed, when its free
-- list is NULL, and otherwise the round faults.
pub accept_round-Gives :
    (m : ℕ) (w : Worker) (ws : List Worker) (fd : ℕ) (added : Bool)
    → AllSound m (w ∷ ws)
    → IsNew fd (w ∷ ws)
    → (v : ℕ) × (u : Worker) × (get_elem? (w ∷ ws) v ≡ some u)
      × IsBest 0 v (score_worker u.conn_container) (containers (w ∷ ws))
      × Gives m (w ∷ ws) fd added (accept_round (w ∷ ws) (some fd) added) v u
unfolding accept_round
accept_round-Gives m w ws fd added a new =
    let (b, s, e, best) = select_client_worker-IsBest w.conn_container (containers ws) in
    let (k, u, bk, g, sc) = IsBest-get_elem? (w ∷ ws) 0 b s best in
    let b' : b ≡ k = omega (arith, bk) in
    (
      k,
      u,
      g,
      subst (λ x. IsBest 0 k x (containers (w ∷ ws))) sc (rw (← b') best),
      rw (e, b', g) (give-Gives m (w ∷ ws) k fd added {w = u} a new g),
    )
