-- ===== src/Socket/Cleanup.antt =====
-- What src/socket.c leaves open, and which sockets the server listens on.
use kitserv.Prelude.{
  ℕ, suc, ◌≡◌, refl, Bool, true, false, not, ◌&&◌, ◌||◌, if_both, Option, none, some, List, [], ◌∷◌,
  ◌==◌, ==_refl, if◌then◌else◌,
}
use kitserv.Cstring.{Bytes}
use kitserv.Socket.{
  AddrInfo, Net, Event, Bound, give_up, socket_setnonblock, set_up, created, bind_first, resolved,
  find_and_bind_socket, Prepared, PrepareError, start_v4, start_sockets,
}

-- The sockets that are open behind some events.
abbrev without : ℕ → List ℕ → List ℕ
without s [] = []
without s (x ∷ xs) = if x == s then without s xs else x ∷ without s xs

abbrev pub left_open : List ℕ → List Event → List ℕ
left_open live [] = live
left_open live (Event.opened s ∷ es) = left_open (s ∷ live) es
left_open live (Event.closed s ∷ es) = left_open (without s live) es
left_open live (Event.freed ∷ es) = left_open live es

abbrev pub times_freed : List Event → ℕ
times_freed [] = 0
times_freed (Event.freed ∷ es) = suc (times_freed es)
times_freed (Event.opened s ∷ es) = times_freed es
times_freed (Event.closed s ∷ es) = times_freed es

abbrev pub returned : Option ℕ → List ℕ
returned none = []
returned (some s) = s ∷ []

-- The socket that is returned is the one left open, and the addresses are freed `n` times.
pub record Cleans (n : ℕ) (b : Bound) : Type 0 where
  pub sockets : left_open [] b.1 ≡ returned b.0
  pub addresses : times_freed b.1 ≡ n

give_up-Cleans : (s : ℕ) → Cleans 1 (give_up s)
give_up-Cleans s = record { sockets = rw (==_refl s) refl; addresses = refl }

set_up-Cleans :
    (net : Net) (nonblock : Bool) (info : AddrInfo) (s : ℕ) → Cleans 1 (set_up net nonblock info s)
unfolding set_up
set_up-Cleans net nonblock info s =
    let no : Cleans 1 (give_up s) = give_up-Cleans s in
    if_both (Cleans 1) (not (net.setsockopt s)) (λ _. no)
      (λ _.
        if_both (Cleans 1) (nonblock && not (socket_setnonblock net s)) (λ _. no)
          (λ _.
            if_both (Cleans 1) (not (net.bind s info)) (λ _. no)
              (λ _.
                if_both (Cleans 1) (not (net.listen s)) (λ _. no)
                  (λ _. record { sockets = refl; addresses = refl }))))

created-Cleans :
    (net : Net) (nonblock : Bool) (info : AddrInfo) (o : Option ℕ)
    → Cleans 1 (created net nonblock info o)
created-Cleans net nonblock info none = record { sockets = refl; addresses = refl }
created-Cleans net nonblock info (some s) = set_up-Cleans net nonblock info s

bind_first-Cleans :
    (net : Net) (family : ℕ) (nonblock : Bool) (infos : List AddrInfo)
    → Cleans 1 (bind_first net family nonblock infos)
unfolding bind_first
bind_first-Cleans net family nonblock [] = record { sockets = refl; addresses = refl }
bind_first-Cleans net family nonblock (info ∷ infos) =
    if_both (Cleans 1) (not (net.getnameinfo info))
      (λ _. record { sockets = refl; addresses = refl })
      (λ _.
        if_both (Cleans 1) (not (info.ai_family == family))
          (λ _. bind_first-Cleans net family nonblock infos)
          (λ _. created-Cleans net nonblock info (net.socket info)))

abbrev pub lists : Option (List AddrInfo) → ℕ
lists none = 0
lists (some infos) = 1

resolved-Cleans :
    (net : Net) (family : ℕ) (nonblock : Bool) (o : Option (List AddrInfo))
    → Cleans (lists o) (resolved net family nonblock o)
resolved-Cleans net family nonblock none = record { sockets = refl; addresses = refl }
resolved-Cleans net family nonblock (some infos) = bind_first-Cleans net family nonblock infos

-- Whatever the calls of the system give: when `find_and_bind_socket` ends, the only socket that it has
-- left open is the one that it returns, and the addresses were freed exactly once, or never if there
-- were none.
pub find_and_bind_socket-Cleans :
    (net : Net) (port : Bytes) (family : ℕ) (nonblock : Bool)
    → Cleans (lists (net.getaddrinfo port)) (find_and_bind_socket net port family nonblock)
unfolding find_and_bind_socket
find_and_bind_socket-Cleans net port family nonblock =
    resolved-Cleans net family nonblock (net.getaddrinfo port)

abbrev is_ready : Prepared → Bool
is_ready (Prepared.ready s) = true
is_ready (Prepared.failed e) = false

abbrev is_no_family : Prepared → Bool
is_no_family (Prepared.failed PrepareError.no_family) = true
is_no_family _ = false

abbrev is_in_use : Prepared → Bool
is_in_use (Prepared.failed PrepareError.in_use) = true
is_in_use _ = false

-- IPv4 is asked for, or it is the fallback where IPv6 is not supported.
abbrev pub asks_v4 : Bool → Bool → Prepared → Bool
asks_v4 bind_ipv4 bind_ipv6 v6 = bind_ipv4 || (bind_ipv6 && is_no_family v6)

-- The failures that end the server: one of IPv6 that is not for want of support, and one of IPv4, unless its
-- port is in use and there is a socket for IPv6.
abbrev pub ends : Bool → Bool → Prepared → Prepared → Bool
ends bind_ipv4 bind_ipv6 v4 v6 =
    (bind_ipv6 && not (is_ready v6) && not (is_no_family v6))
    || (asks_v4 bind_ipv4 bind_ipv6 v6
        && not (is_ready v4)
        && not (is_in_use v4 && bind_ipv6 && is_ready v6))

-- The socket of a family that is asked for.
abbrev pub socket_of : Bool → Prepared → Option ℕ
socket_of false p = none
socket_of true (Prepared.ready s) = some s
socket_of true (Prepared.failed e) = none

-- Which sockets `kitserv_server_start` goes on with, whatever is asked for and whatever preparing each gives.
-- It exits if IPv6 is asked for and fails otherwise than for want of support, or if IPv4 is asked for, or is
-- the fallback for such a want, and fails, unless its port is in use and IPv6 has its socket. Otherwise it
-- has the prepared sockets of just the families that were asked for or fallen back to.
pub start_sockets_lem :
    (bind_ipv4 bind_ipv6 : Bool) (v4 v6 : Prepared)
    → start_sockets bind_ipv4 bind_ipv6 v4 v6 ≡ (
        if ends bind_ipv4 bind_ipv6 v4 v6
        then none
        else some (socket_of (asks_v4 bind_ipv4 bind_ipv6 v6) v4, socket_of bind_ipv6 v6))
unfolding start_sockets start_v4
start_sockets_lem false false v4 v6 = refl
start_sockets_lem true false (Prepared.ready s4) v6 = refl
start_sockets_lem true false (Prepared.failed PrepareError.no_family) v6 = refl
start_sockets_lem true false (Prepared.failed PrepareError.in_use) v6 = refl
start_sockets_lem true false (Prepared.failed PrepareError.other) v6 = refl
start_sockets_lem false true v4 (Prepared.ready s6) = refl
start_sockets_lem true true (Prepared.ready s4) (Prepared.ready s6) = refl
start_sockets_lem true true (Prepared.failed PrepareError.no_family) (Prepared.ready s6) = refl
start_sockets_lem true true (Prepared.failed PrepareError.in_use) (Prepared.ready s6) = refl
start_sockets_lem true true (Prepared.failed PrepareError.other) (Prepared.ready s6) = refl
start_sockets_lem false true (Prepared.ready s4) (Prepared.failed PrepareError.no_family) = refl
start_sockets_lem false true (Prepared.failed PrepareError.no_family)
      (Prepared.failed PrepareError.no_family) =
    refl
start_sockets_lem false true (Prepared.failed PrepareError.in_use)
      (Prepared.failed PrepareError.no_family) =
    refl
start_sockets_lem false true (Prepared.failed PrepareError.other)
      (Prepared.failed PrepareError.no_family) =
    refl
start_sockets_lem true true (Prepared.ready s4) (Prepared.failed PrepareError.no_family) = refl
start_sockets_lem true true (Prepared.failed PrepareError.no_family)
      (Prepared.failed PrepareError.no_family) =
    refl
start_sockets_lem true true (Prepared.failed PrepareError.in_use)
      (Prepared.failed PrepareError.no_family) =
    refl
start_sockets_lem true true (Prepared.failed PrepareError.other)
      (Prepared.failed PrepareError.no_family) =
    refl
start_sockets_lem bind_ipv4 true v4 (Prepared.failed PrepareError.in_use) = refl
start_sockets_lem bind_ipv4 true v4 (Prepared.failed PrepareError.other) = refl
