-- ===== src/Socket.antt =====
-- src/socket.c, and the sockets that `kitserv_server_start` of src/kitserv.c prepares. The calls of the
-- system are a parameter, `Net`; what they do to descriptors is a list of events.
pub mod Cleanup
use kitserv.Prelude.{
  ℕ, zero, suc, Bool, true, false, not, ◌&&◌, ◌||◌, Option, none, some, List, [], ◌∷◌, ◌++◌, ◌==◌,
  if◌then◌else◌, bit_or,
}
use kitserv.Cstring.{Bytes}

-- `struct addrinfo`, without the link: its family, and which address it is.
pub record AddrInfo : Type 0 where
  pub ai_family : ℕ
  pub ai_addr : ℕ

-- The calls on sockets, each with whether it succeeds or what it gives.
pub record Net : Type 0 where
  pub getaddrinfo : Bytes → Option (List AddrInfo)
  pub getnameinfo : AddrInfo → Bool
  pub socket : AddrInfo → Option ℕ
  pub setsockopt : ℕ → Bool
  pub get_flags : ℕ → Option ℕ
  pub set_flags : ℕ → ℕ → Bool
  pub bind : ℕ → AddrInfo → Bool
  pub listen : ℕ → Bool
  pub shutdown : ℕ → Bool
  pub close : ℕ → Bool

-- A socket that is opened or closed, or the list of addresses that is freed.
pub data Event : Type 0 where
  opened : ℕ → Event
  closed : ℕ → Event
  freed : Event

-- The descriptor, or -1, and what happened.
abbrev pub Bound : Type 0
Bound = Option ℕ × List Event

-- `SOCK_NONBLOCK` of Linux, which is `O_NONBLOCK`.
abbrev pub sock_nonblock : ℕ
sock_nonblock = 2048

abbrev pub with_flags : Net → ℕ → Option ℕ → Bool
with_flags net s none = false
with_flags net s (some flags) = net.set_flags s (bit_or flags sock_nonblock)

-- `socket_setnonblock`, as whether it succeeds.
unfoldable pub socket_setnonblock : Net → ℕ → Bool
socket_setnonblock net s = with_flags net s (net.get_flags s)

-- `close(s); freeaddrinfo(info); return -1`, behind the call of `socket`.
abbrev pub give_up : ℕ → Bound
give_up s = (none, Event.opened s ∷ Event.closed s ∷ Event.freed ∷ [])

-- What follows a call of `socket` that succeeded.
unfoldable pub set_up : Net → Bool → AddrInfo → ℕ → Bound
unfolding socket_setnonblock
set_up net nonblock info s =
    if not (net.setsockopt s)
    then give_up s
    else if nonblock && not (socket_setnonblock net s)
    then give_up s
    else if not (net.bind s info)
    then give_up s
    else if not (net.listen s)
    then give_up s
    else (some s, Event.opened s ∷ Event.freed ∷ [])

abbrev pub created : Net → Bool → AddrInfo → Option ℕ → Bound
created net nonblock info none = (none, Event.freed ∷ [])
created net nonblock info (some s) = set_up net nonblock info s

-- `for (pinfo = info; pinfo; pinfo = pinfo->ai_next)`
unfoldable pub bind_first : Net → ℕ → Bool → List AddrInfo → Bound
unfolding set_up
bind_first net family nonblock [] = (none, Event.freed ∷ [])
bind_first net family nonblock (info ∷ infos) =
    let rest = bind_first net family nonblock infos in
    if not (net.getnameinfo info)
    then (none, Event.freed ∷ [])
    else if not (info.ai_family == family)
    then rest
    else created net nonblock info (net.socket info)

abbrev pub resolved : Net → ℕ → Bool → Option (List AddrInfo) → Bound
resolved net family nonblock none = (none, [])
resolved net family nonblock (some infos) = bind_first net family nonblock infos

unfoldable pub find_and_bind_socket : Net → Bytes → ℕ → Bool → Bound
unfolding bind_first
find_and_bind_socket net port family nonblock = resolved net family nonblock (net.getaddrinfo port)

-- `AF_INET` and `AF_INET6` of Linux.
abbrev pub af_inet : ℕ
af_inet = 2

abbrev pub af_inet6 : ℕ
af_inet6 = 10

-- `kitserv_socket_prepare`
unfoldable pub socket_prepare : Net → Bytes → Bool → Bool → Bound
unfolding find_and_bind_socket
socket_prepare net port use_ipv6 nonblocking =
    find_and_bind_socket net port (if use_ipv6 then af_inet6 else af_inet) nonblocking

-- `kitserv_socket_accept`, with what `accept4` or `accept` gives; `linux` is which of them there is. The
-- option that is set on the new socket may fail.
unfoldable pub socket_accept : Bool → Net → ℕ → Option ℕ → Bound
unfolding socket_setnonblock
socket_accept linux net s none = (none, [])
socket_accept true net s (some client) = (some client, Event.opened client ∷ [])
socket_accept false net s (some client) =
    if socket_setnonblock net s
    then (some client, Event.opened client ∷ [])
    else (none, Event.opened client ∷ Event.closed s ∷ [])

-- `kitserv_socket_close`: whether it gives 0, and the events.
unfoldable pub socket_close : Net → ℕ → Bool × List Event
socket_close net s = (net.shutdown s && net.close s, Event.closed s ∷ [])

-- The `errno` behind a `socket_prepare` that failed, as far as `kitserv_server_start` asks.
pub data PrepareError : Type 0 where
  no_family : PrepareError
  in_use : PrepareError
  other : PrepareError

pub data Prepared : Type 0 where
  ready : ℕ → Prepared
  failed : PrepareError → Prepared

-- The accepters that are started: the descriptor of each. `none`: the server exits.
abbrev pub Started : Type 0
Started = Option (Option ℕ × Option ℕ)

-- The IPv4 socket, and whether it may be done without, which is whether there is one for IPv6.
unfoldable pub start_v4 : Option ℕ → Prepared → Started
start_v4 v6 (Prepared.ready s) = some (some s, v6)
start_v4 (some s6) (Prepared.failed PrepareError.in_use) = some (none, some s6)
start_v4 _ (Prepared.failed _) = none

abbrev pub maybe_v4 : Bool → Option ℕ → Prepared → Started
maybe_v4 true v6 v4 = start_v4 v6 v4
maybe_v4 false v6 v4 = some (none, v6)

-- The sockets of `kitserv_server_start`: `bind_ipv4`, `bind_ipv6`, and what preparing each gives.
unfoldable pub start_sockets : Bool → Bool → Prepared → Prepared → Started
unfolding start_v4
start_sockets bind_ipv4 false v4 v6 = maybe_v4 bind_ipv4 none v4
start_sockets bind_ipv4 true v4 (Prepared.ready s6) = maybe_v4 bind_ipv4 (some s6) v4
start_sockets bind_ipv4 true v4 (Prepared.failed PrepareError.no_family) = maybe_v4 true none v4
start_sockets bind_ipv4 true v4 (Prepared.failed _) = none
