-- ===== src/Workers/Reach.antt =====
-- The accepter and the workers of src/kitserv.c together: the states that their rounds reach.
use kitserv.Prelude.{
  ℕ, zero, suc, ◌+◌, ◌<◌, ◌≡◌, refl, sym, ap, ◌∙◌, inl, inr, Bool, true, false, some, List, [], ◌∷◌,
  get_elem?, set, arith, subst,
}
use mathlib.Core.Option.{some_inj}
use kitserv.Client.{Client, Rc}
use kitserv.Buffer.{Alloc}
use kitserv.Pool.{Ptr, connection_init}
use kitserv.Pool.Refine.{NotIn, upto, length-links, length-upto, connection_init-Frees}
use kitserv.Serve.{Server, World, Served, serve_client}
use kitserv.Serve.Owner.{KeepsSocket, serve_client-sockfd}
use kitserv.Workers.{Worker, worker_init, give, client_round}
use kitserv.Workers.Queue.{Holds}
use kitserv.Workers.Invariant.{AllDistinct, Apart, lost_by, freed, client_round-IsSound}
use kitserv.Workers.Accept.{AllSound, IsNew, Gives, AllSound-get_elem?, give-Gives}

-- A step of the server, with the number of connections that it loses. A socket is accepted: it is given to
-- some worker, whichever one the scores made `accept_worker` choose, which may be out of date by then; it
-- is taken, and added to the queue or not, or it is closed. Or an event of `client_worker` for a
-- connection of its queue is served, and `kitserv_http_serve_client` returns. From the accept of a
-- connection to its `kitserv_queue_add` it is in no free list and no queue, so no other step concerns it.
pub data Step (server : Server) : ℕ → List Worker → List Worker → Type 0 where
  accepting :
      (ws : List Worker) (v fd : ℕ) (added : Bool) (w : Worker) {ws' : List Worker}
      → get_elem? ws v ≡ some w
      → IsNew fd ws
      → give ws v fd added (some w) ≡ some (ws', [])
      → Step server (lost_by added 0) ws ws'
  refusing :
      (ws : List Worker) (v fd : ℕ) (added : Bool) (w : Worker) {ws' : List Worker}
      → get_elem? ws v ≡ some w
      → IsNew fd ws
      → give ws v fd added (some w) ≡ some (ws', fd ∷ [])
      → Step server 0 ws ws'
  serving :
      (ws : List Worker) (k : ℕ) (w : Worker) (i fuel : ℕ) (world : World) {c : Client}
      {world' : World} {rc : Rc}
      → get_elem? ws k ≡ some w
      → Holds w.queue i
      → serve_client fuel server (w.conn_container.clients i) world ≡ Served.served c world' rc
      → Step server 0 ws (set ws k (client_round server.realloc w i (c, rc)).0)

-- The states that steps reach, with the number of connections lost on the way.
pub data Reach (server : Server) (start : List Worker) : ℕ → List Worker → Type 0 where
  here : Reach server start 0 start
  next :
      {m d : ℕ} {ws ws' : List Worker}
      → Reach server start m ws
      → Step server d ws ws'
      → Reach server start (d + m) ws'

-- `kitserv_server_start`: each worker before its first round. There is at least one slot. `lasts` are what the
-- allocations left in the last links.
abbrev pub started : Alloc → (ℕ → Client) → (ℕ → Ptr) → ℕ → ℕ → List Worker
started realloc raw lasts slots zero = []
started realloc raw lasts slots (suc n) =
    worker_init realloc raw (lasts n) (suc slots) ∷ started realloc raw lasts slots n

upto-AllDistinct : (i n : ℕ) → AllDistinct (upto i n)
upto-AllDistinct i zero = tt
upto-AllDistinct i (suc n) = (above i (i + 1) n (omega arith), upto-AllDistinct (i + 1) n)
  where
    above : (j i n : ℕ) → j < i → NotIn j (upto i n)
    above j i zero h = tt
    above j i (suc n) h = ((λ e. absurd (omega arith)), above j (i + 1) n (omega arith))

Apart-nil : (free : List ℕ) → Apart free []
Apart-nil [] = tt
Apart-nil (x ∷ free) = (tt, Apart-nil free)

pub started-AllSound :
    (realloc : Alloc) (raw : ℕ → Client) (lasts : ℕ → Ptr) (slots n : ℕ)
    → AllSound 0 (started realloc raw lasts slots n)
unfolding worker_init connection_init
started-AllSound realloc raw lasts slots zero = refl
started-AllSound realloc raw lasts slots (suc n) = (
  0,
  0,
  refl,
  (
    lasts n,
    upto 0 (suc slots),
    record {
      frees = connection_init-Frees realloc raw (lasts n) slots;
      distinct = upto-AllDistinct 0 (suc slots);
      apart = Apart-nil (upto 0 (suc slots));
      registered = tt;
      count = omega (arith, length-upto 0 (suc slots), length-links (lasts n) 0 (suc slots));
    },
  ),
  started-AllSound realloc raw lasts slots n,
)

lost_by-add : (added : Bool) (m : ℕ) → lost_by added m ≡ lost_by added 0 + m
lost_by-add true m = omega arith
lost_by-add false m = omega arith

Step-AllSound :
    (server : Server) (m : ℕ) {d : ℕ} {ws ws' : List Worker}
    → KeepsSocket server
    → Step server d ws ws'
    → AllSound m ws
    → AllSound (d + m) ws'
Step-AllSound server m keeps (serving ws k w i fuel world {c} {world'} {rc} e h s) a =
    let (last, lost, free, sound, le, back) = AllSound-get_elem? m ws k {w = w} a e in
    back lost (client_round server.realloc w i (c, rc)).0 (freed i rc free) (0 + m) (omega arith) (
      client_round-IsSound server.realloc last lost w i c rc free sound h
        (serve_client-sockfd fuel server (w.conn_container.clients i) world keeps s))
Step-AllSound server m keeps (accepting ws v fd added w {ws'} g new e) a =
    given (give-Gives m ws v fd added {w = w} a new g)
  where
    given :
        Gives m ws fd added (give ws v fd added (some w)) v w → AllSound (lost_by added 0 + m) ws'
    given (inl (z, n, r)) = absurd (ground (arith, some_inj.0 (sym r ∙ e)))
    given (inr (inl (z, n, r))) = absurd (ground (arith, sym r ∙ e))
    given (inr (inr (u, i, p, r, q, f, all))) =
        subst (λ k. AllSound k ws') (lost_by-add added m)
          (subst (AllSound (lost_by added m)) (ap (λ x. x.0) (some_inj.0 (sym r ∙ e))) all)
Step-AllSound server m keeps (refusing ws v fd added w {ws'} g new e) a =
    given (give-Gives m ws v fd added {w = w} a new g)
  where
    given : Gives m ws fd added (give ws v fd added (some w)) v w → AllSound (0 + m) ws'
    given (inl (z, n, r)) =
        let k : m ≡ 0 + m = omega arith in
        subst (λ j. AllSound j ws') k
          (subst (AllSound m) (ap (λ x. x.0) (some_inj.0 (sym r ∙ e))) a)
    given (inr (inl (z, n, r))) = absurd (ground (arith, sym r ∙ e))
    given (inr (inr (u, i, p, r, q, f, all))) = absurd (ground (arith, some_inj.0 (sym r ∙ e)))

-- For handlers that do not change the socket of a client, from the start of the server, whatever the
-- allocations left in the last links: in every order of steps that do not fault, in which an accepted socket
-- is not watched yet and goes to any worker, and an event is for a connection that a queue holds, every
-- connection is free, watched by its queue under its own socket, or lost, and no two of these, none twice;
-- and exactly as many are lost as the queues did not add.
pub Reach-AllSound :
    (server : Server) (raw : ℕ → Client) (lasts : ℕ → Ptr) (slots n : ℕ) {m : ℕ} {ws : List Worker}
    → KeepsSocket server
    → Reach server (started server.realloc raw lasts slots n) m ws
    → AllSound m ws
Reach-AllSound server raw lasts slots n keeps here =
    started-AllSound server.realloc raw lasts slots n
Reach-AllSound server raw lasts slots n keeps (next {m} r st) =
    Step-AllSound server m keeps st (Reach-AllSound server raw lasts slots n keeps r)
