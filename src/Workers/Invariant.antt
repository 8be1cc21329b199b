-- ===== src/Workers/Invariant.antt =====
-- What the rounds of src/kitserv.c keep of a worker.
use kitserv.Prelude.{
  ℕ, suc, Bool, true, false, ◌+◌, ◌≡◌, ◌≢◌, sym, ap, ◌∙◌, inl, inr, List, [], ◌∷◌, length,
  length-set, arith,
}
use kitserv.Client.{Client, Rc}
use kitserv.Buffer.{Alloc}
use kitserv.Finalize.{reset_client}
use kitserv.Pool.{Ptr, Accepted, update, set_socket, connection_accept, connection_close}
use kitserv.Pool.Refine.{
  Frees, NotIn, accepted_container, connection_accept-accepted, update-AllFresh,
  connection_close-Frees,
}
use kitserv.Workers.{Worker, queue_add, queue_remove, store, client_round}
use kitserv.Workers.Queue.{
  conns, sockets, Holds, Registered, Holds-lt, conns-queue_remove, queue_remove-Registered,
  queue_remove-NotIn, length-queue_remove, update_other-Registered, update-Registered,
}

abbrev pub AllDistinct : List ℕ → Type 0
AllDistinct [] = Unit
AllDistinct (x ∷ xs) = NotIn x xs × AllDistinct xs

-- No connection of the first list is in the queue.
abbrev pub Apart : List ℕ → List (ℕ × ℕ) → Type 0
Apart [] q = Unit
Apart (x ∷ xs) q = NotIn x (conns q) × Apart xs q

-- Each connection is free, watched by the queue or lost, and no two of these: the free list ends in the link
-- `last` and repeats nothing, every entry of the queue has the socket of its connection, and
-- together with the number of the lost ones they are all connections of the container.
pub record IsSound (last : Ptr) (lost : ℕ) (w : Worker) (free : List ℕ) : Type 0 where
  pub frees : Frees last w.conn_container free
  pub distinct : AllDistinct free
  pub apart : Apart free w.queue
  pub registered : Registered w.conn_container.clients (length w.conn_container.next_conn) w.queue
  pub count : length free + length w.queue + lost ≡ length w.conn_container.next_conn

Apart-NotIn : (free : List ℕ) (q : List (ℕ × ℕ)) (i : ℕ) → Apart free q → Holds q i → NotIn i free
Apart-NotIn [] q i a h = tt
Apart-NotIn (x ∷ free) q i a h = (differs q a.0 h, Apart-NotIn free q i a.1 h)
  where
    differs : (q : List (ℕ × ℕ)) → NotIn x (conns q) → Holds q i → i ≢ x
    differs [] n h = absurd h
    differs ((fd, j) ∷ q) n (inl e) = λ k. n.0 (sym k ∙ sym e)
    differs ((fd, j) ∷ q) n (inr h) = differs q n.1 h

Apart-cons :
    (free : List ℕ) (q : List (ℕ × ℕ)) (fd i : ℕ)
    → NotIn i free
    → Apart free q
    → Apart free ((fd, i) ∷ q)
Apart-cons [] q fd i n a = tt
Apart-cons (x ∷ free) q fd i n a = ((λ e. n.0 (sym e), a.0), Apart-cons free q fd i n.1 a.1)

queue_remove-Apart :
    (free : List ℕ) (q : List (ℕ × ℕ)) (fd : ℕ) → Apart free q → Apart free (queue_remove fd q)
queue_remove-Apart [] q fd a = tt
queue_remove-Apart (x ∷ free) q fd a =
    (conns-queue_remove fd x q a.0, queue_remove-Apart free q fd a.1)

-- The number of lost connections behind an accept, with whether the queue adds the socket.
abbrev pub lost_by : Bool → ℕ → ℕ
lost_by true lost = lost
lost_by false lost = suc lost

-- Accepting a socket that the queue does not watch.
pub accepted-IsSound :
    (last : Ptr) (lost : ℕ) (w : Worker) (i : ℕ) (free : List ℕ) (fd : ℕ) (added : Bool)
    → IsSound last lost w (i ∷ free)
    → NotIn fd (sockets w.queue)
    → (connection_accept w.conn_container fd
        ≡ Accepted.accepted i (accepted_container w.conn_container i fd))
      × ((accepted_container w.conn_container i fd).clients i
          ≡ set_socket (w.conn_container.clients i) fd)
      × IsSound last
          (lost_by added lost)
          (record {
            conn_container = accepted_container w.conn_container i fd;
            queue = queue_add added fd i w.queue;
          })
          free
accepted-IsSound last lost w i free fd added s new =
    let (e, f, mine) =
      connection_accept-accepted last w.conn_container i free fd s.frees s.distinct.0 in
    let rest =
      update_other-Registered w.conn_container.clients (length w.conn_container.next_conn) i
        (set_socket (w.conn_container.clients i) fd) w.queue s.apart.0 s.registered in
    (e, mine, go added f (ap (λ c. c.sockfd) mine, s.frees.chain.1, s.apart.0, new, rest))
  where
    go :
        (added : Bool)
        → Frees last (accepted_container w.conn_container i fd) free
        → Registered
            (accepted_container w.conn_container i fd).clients
            (length w.conn_container.next_conn)
            ((fd, i) ∷ w.queue)
        → IsSound last
            (lost_by added lost)
            (record {
              conn_container = accepted_container w.conn_container i fd;
              queue = queue_add added fd i w.queue;
            })
            free
    go true f r = record {
      frees = f;
      distinct = s.distinct.1;
      apart = Apart-cons free w.queue fd i s.distinct.0 s.apart.1;
      registered = r;
      count = omega (arith, s.count);
    }
    go false f r = record {
      frees = f;
      distinct = s.distinct.1;
      apart = s.apart.1;
      registered = r.4;
      count = omega (arith, s.count);
    }

-- The free connections behind an event.
abbrev pub freed : ℕ → Rc → List ℕ → List ℕ
freed i Rc.ok free = free
freed i Rc.fail free = i ∷ free

store-Frees :
    (last : Ptr) (w : Worker) (i : ℕ) (c : Client) (free : List ℕ)
    → NotIn i free
    → Frees last w.conn_container free
    → Frees last (store w i c) free
store-Frees last w i c free n f = record {
  chain = f.chain;
  count = f.count;
  clean = update-AllFresh w.conn_container.clients i c free n f.clean;
}

-- An event for a connection of the queue, whatever serving its client gives, as long as it keeps the
-- socket.
pub client_round-IsSound :
    (realloc : Alloc) (last : Ptr) (lost : ℕ) (w : Worker) (i : ℕ) (c : Client) (rc : Rc)
    (free : List ℕ)
    → IsSound last lost w free
    → Holds w.queue i
    → c.sockfd ≡ (w.conn_container.clients i).sockfd
    → IsSound last lost (client_round realloc w i (c, rc)).0 (freed i rc free)
unfolding client_round connection_close
client_round-IsSound realloc last lost w i c Rc.ok free s h k = record {
  frees = store-Frees last w i c free (Apart-NotIn free w.queue i s.apart h) s.frees;
  distinct = s.distinct;
  apart = s.apart;
  registered =
      update-Registered w.conn_container.clients (length w.conn_container.next_conn) i c w.queue k
        s.registered;
  count = s.count;
}
client_round-IsSound realloc last lost w i c Rc.fail free s h k =
    let n = Apart-NotIn free w.queue i s.apart h in
    let clients = w.conn_container.clients in
    let next = w.conn_container.next_conn in
    let removed = queue_remove-Registered clients (length next) c.sockfd w.queue s.registered in
    let gone : NotIn i (conns (queue_remove c.sockfd w.queue)) =
      rw k (queue_remove-NotIn clients (length next) i w.queue s.registered) in
    let one_less : length (queue_remove c.sockfd w.queue) + 1 ≡ length w.queue =
      rw k (length-queue_remove clients (length next) i w.queue s.registered h) in
    record {
      frees =
          connection_close-Frees realloc last (store w i c) i free
            (store-Frees last w i c free n s.frees) n
            (Holds-lt clients (length next) i w.queue s.registered h);
      distinct = (n, s.distinct);
      apart = (gone, queue_remove-Apart free w.queue c.sockfd s.apart);
      registered = rw (length-set next i w.conn_container.first_free_conn) (
          update_other-Registered (update clients i c) (length next) i
            (reset_client realloc (update clients i c i)) (queue_remove c.sockfd w.queue) gone
            (update_other-Registered clients (length next) i c (queue_remove c.sockfd w.queue) gone
              removed));
      count = omega (arith, s.count, length-set next i w.conn_container.first_free_conn, one_less);
    }
