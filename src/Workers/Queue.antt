-- ===== src/Workers/Queue.antt =====
-- The queue of a worker of src/kitserv.c: which connections it holds, and what the removal of a socket
-- leaves of it.
use kitserv.Prelude.{
  ℕ, suc, ◌+◌, ◌<◌, ◌≡◌, ◌≢◌, refl, sym, ap, ◌∙◌, ◌⊎◌, inl, inr, Bool-cases, if_both, false, List,
  [], ◌∷◌, ◌==◌, ==-eq, length, arith,
}
use kitserv.Client.{Client}
use kitserv.Pool.{update}
use kitserv.Pool.Refine.{NotIn}
use kitserv.Workers.{queue_remove}

abbrev pub conns : List (ℕ × ℕ) → List ℕ
conns [] = []
conns ((fd, i) ∷ q) = i ∷ conns q

abbrev pub sockets : List (ℕ × ℕ) → List ℕ
sockets [] = []
sockets ((fd, i) ∷ q) = fd ∷ sockets q

-- The connection is one of the queue.
abbrev pub Holds : List (ℕ × ℕ) → ℕ → Type 0
Holds [] i = ⊥
Holds ((fd, j) ∷ q) i = (j ≡ i) ⊎ Holds q i

-- Every entry of the queue has the socket of its connection, and no connection and no socket stands
-- there twice.
abbrev pub Registered : (ℕ → Client) → ℕ → List (ℕ × ℕ) → Type 0
Registered clients n [] = Unit
Registered clients n ((fd, i) ∷ q) =
    ((clients i).sockfd ≡ fd)
    × (i < n)
    × NotIn i (conns q)
    × NotIn fd (sockets q)
    × Registered clients n q

pub Holds-lt :
    (clients : ℕ → Client) (n i : ℕ) (q : List (ℕ × ℕ)) → Registered clients n q → Holds q i → i < n
Holds-lt clients n i [] r h = absurd h
Holds-lt clients n i ((fd, j) ∷ q) r (inl e) = omega arith
Holds-lt clients n i ((fd, j) ∷ q) r (inr h) = Holds-lt clients n i q r.4 h

pub conns-queue_remove :
    (fd i : ℕ) (q : List (ℕ × ℕ)) → NotIn i (conns q) → NotIn i (conns (queue_remove fd q))
unfolding queue_remove
conns-queue_remove fd i [] h = tt
conns-queue_remove fd i ((fd', j) ∷ q) h =
    if_both (λ r. NotIn i (conns r)) (fd' == fd) (λ _. conns-queue_remove fd i q h.1)
      (λ _. (h.0, conns-queue_remove fd i q h.1))

sockets-queue_remove :
    (fd s : ℕ) (q : List (ℕ × ℕ)) → NotIn s (sockets q) → NotIn s (sockets (queue_remove fd q))
unfolding queue_remove
sockets-queue_remove fd s [] h = tt
sockets-queue_remove fd s ((fd', j) ∷ q) h =
    if_both (λ r. NotIn s (sockets r)) (fd' == fd) (λ _. sockets-queue_remove fd s q h.1)
      (λ _. (h.0, sockets-queue_remove fd s q h.1))

pub queue_remove-Registered :
    (clients : ℕ → Client) (n fd : ℕ) (q : List (ℕ × ℕ))
    → Registered clients n q
    → Registered clients n (queue_remove fd q)
unfolding queue_remove
queue_remove-Registered clients n fd [] r = tt
queue_remove-Registered clients n fd ((fd', j) ∷ q) r =
    if_both (Registered clients n) (fd' == fd) (λ _. queue_remove-Registered clients n fd q r.4)
      (λ _. (
        r.0,
        r.1,
        conns-queue_remove fd j q r.2,
        sockets-queue_remove fd fd' q r.3,
        queue_remove-Registered clients n fd q r.4,
      ))

not_self : (x : ℕ) {y : ℕ} → (x == y) ≡ false → x ≢ y
not_self x h e = ground arith

-- The connection of the socket is gone.
pub queue_remove-NotIn :
    (clients : ℕ → Client) (n i : ℕ) (q : List (ℕ × ℕ))
    → Registered clients n q
    → NotIn i (conns (queue_remove (clients i).sockfd q))
unfolding queue_remove
queue_remove-NotIn clients n i [] r = tt
queue_remove-NotIn clients n i ((fd, j) ∷ q) r =
    if_both (λ p. NotIn i (conns p)) (fd == (clients i).sockfd)
      (λ _. queue_remove-NotIn clients n i q r.4)
      (λ other. (
        λ e. absurd (not_self fd other (sym r.0 ∙ ap (λ k. (clients k).sockfd) (sym e))),
        queue_remove-NotIn clients n i q r.4,
      ))

length-queue_remove_absent :
    (fd : ℕ) (q : List (ℕ × ℕ)) → NotIn fd (sockets q) → length (queue_remove fd q) ≡ length q
unfolding queue_remove
length-queue_remove_absent fd [] h = refl
length-queue_remove_absent fd ((fd', j) ∷ q) h =
    if_both (λ (p : List (ℕ × ℕ)). length p ≡ suc (length q)) (fd' == fd)
      (λ e. absurd (h.0 (sym (==-eq fd' fd e)))) (λ _. ap suc (length-queue_remove_absent fd q h.1))

-- Exactly one entry is gone.
pub length-queue_remove :
    (clients : ℕ → Client) (n i : ℕ) (q : List (ℕ × ℕ))
    → Registered clients n q
    → Holds q i
    → length (queue_remove (clients i).sockfd q) + 1 ≡ length q
unfolding queue_remove
length-queue_remove clients n i [] r h = absurd h
length-queue_remove clients n i ((fd, j) ∷ q) r (inl same) =
    let e : fd ≡ (clients i).sockfd = sym r.0 ∙ ap (λ k. (clients k).sockfd) same in
    if_both (λ (p : List (ℕ × ℕ)). length p + 1 ≡ suc (length q)) (fd == (clients i).sockfd)
      (λ _. omega (arith, length-queue_remove_absent (clients i).sockfd q (rw (← e) r.3)))
      (λ other. absurd (not_self fd other e))
length-queue_remove clients n i ((fd, j) ∷ q) r (inr h) =
    let ih = length-queue_remove clients n i q r.4 h in
    if_both (λ (p : List (ℕ × ℕ)). length p + 1 ≡ suc (length q)) (fd == (clients i).sockfd)
      (λ e. omega (
        arith,
        length-queue_remove_absent (clients i).sockfd q (rw (← ==-eq fd (clients i).sockfd e) r.3),
      ))
      (λ _. omega (arith, ih))

-- The clients of the queue are still registered when another client is stored.
pub update_other-Registered :
    (clients : ℕ → Client) (n i : ℕ) (c : Client) (q : List (ℕ × ℕ))
    → NotIn i (conns q)
    → Registered clients n q
    → Registered (update clients i c) n q
update_other-Registered clients n i c [] h r = tt
update_other-Registered clients n i c ((fd, j) ∷ q) h r = (
  elim (Bool-cases (i == j)) [
    | inl same ↦ absurd (h.0 (==-eq i j same))
    | inr other ↦ rw other r.0
  ],
  r.1,
  r.2,
  r.3,
  update_other-Registered clients n i c q h.1 r.4,
)

-- And when a client is stored that keeps its socket.
pub update-Registered :
    (clients : ℕ → Client) (n i : ℕ) (c : Client) (q : List (ℕ × ℕ))
    → c.sockfd ≡ (clients i).sockfd
    → Registered clients n q
    → Registered (update clients i c) n q
update-Registered clients n i c [] k r = tt
update-Registered clients n i c ((fd, j) ∷ q) k r = (
  elim (Bool-cases (i == j)) [
    | inl same ↦ rw same (k ∙ ap (λ x. (clients x).sockfd) (==-eq i j same) ∙ r.0)
    | inr other ↦ rw other r.0
  ],
  r.1,
  r.2,
  r.3,
  update-Registered clients n i c q k r.4,
)
