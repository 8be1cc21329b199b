-- ===== src/Tests/Workers.antt =====
-- The results on the accepter, the workers and the sockets of the server, at concrete inputs.
use kitserv.Prelude.Int.{ℤ, pos}
use kitserv.Cstring.{Bytes}
use kitserv.Main.{Opt, main_config}
use kitserv.Main.Options.{Starts, main_config-Starts}
use kitserv.Prelude.{
  length, false, ℕ, true, ◌≡◌, refl, none, some, List, [], ◌∷◌, get_elem?, set, inl, codes,
}
use kitserv.Client.{cleared, Client, Rc}
use kitserv.Buffer.{buffer_reset}
use kitserv.Finalize.{reset_client, cleanup_client}
use kitserv.Pool.{
  Ptr, score_worker, is_fresh, links, take_conn, best_from, connection_init, connection_accept,
  select_client_worker,
}
use kitserv.Pool.Refine.{accepted_container}
use kitserv.Pool.Select.{IsBest}
use kitserv.Status.{Status}
use kitserv.Recv.{Arrival, read, after_read, recv_loop, recv_request}
use kitserv.Response.{is_hangup}
use kitserv.Serve.{World, serve_client, serve_round, read_stage, or_hangup}
use kitserv.Tests.Endpoint.{server, world}
use kitserv.Socket.{Net, af_inet, find_and_bind_socket, PrepareError, Prepared, start_sockets}
use kitserv.Socket.Cleanup.{Cleans, find_and_bind_socket-Cleans, start_sockets_lem}
use kitserv.Workers.{Worker, worker_init, accept_round, client_round}
use kitserv.Workers.Accept.{containers, AllSound, Gives, accept_round-Gives}
use kitserv.Workers.Reach.{Step, Reach, started, started-AllSound, Reach-AllSound}
use kitserv.Tests.Data.{new_client}
use kitserv.Tests.Server.{fixed}

-- Two workers of two slots.
abbrev two_workers : List Worker
two_workers = started fixed (λ i. new_client) (λ k. Ptr.garbage) 1 2

abbrev rest : List Worker
rest = started fixed (λ i. new_client) (λ k. Ptr.garbage) 1 1

abbrev idle : Worker
idle = worker_init fixed (λ i. new_client) Ptr.garbage 2

-- The first worker with the socket 7.
abbrev busy : Worker
busy = record { conn_container = accepted_container idle.conn_container 0 7; queue = (7, 0) ∷ [] }

-- Its client, whose connection has broken.
abbrev broken_client : Client
broken_client = record new_client {
  sockfd = 7;
  ta = record cleared { resp_status = Status.hangup };
}

abbrev broken_world : World
broken_world = record world { socket = Arrival.error ∷ [] }

accept_round-Gives_example :
    (v : ℕ) × (u : Worker) × (get_elem? two_workers v ≡ some u)
    × IsBest 0 v (score_worker u.conn_container) (containers two_workers)
    × Gives 0 two_workers 7 true (accept_round two_workers (some 7) true) v u
unfolding worker_init
accept_round-Gives_example =
    accept_round-Gives 0 idle rest 7 true
      (started-AllSound fixed (λ i. new_client) (λ k. Ptr.garbage) 1 2) (tt, (tt, tt))

-- A socket is accepted, and its connection breaks.
Reach-AllSound_example :
    AllSound 0 (set (busy ∷ rest) 0 (client_round fixed busy 0 (broken_client, Rc.fail)).0)
unfolding worker_init accept_round select_client_worker best_from connection_accept connection_init
    links take_conn is_fresh reset_client cleanup_client buffer_reset serve_client serve_round
    read_stage or_hangup recv_request recv_loop after_read read is_hangup
Reach-AllSound_example =
    Reach-AllSound server (λ i. new_client) (λ k. Ptr.garbage) 1 2 (λ h c state sk. refl)
      (Reach.next
        (Reach.next Reach.here
          (Step.accepting two_workers 0 7 true idle {ws' = busy ∷ rest} refl (tt, (tt, tt)) refl))
        (Step.serving (busy ∷ rest) 0 busy 0 1 broken_world {c = broken_client}
          {world' = record world { socket = [] }} {rc = Rc.fail} refl (inl refl) refl))

-- A system with an IPv6 and an IPv4 address, on which the port is in use.
abbrev net : Net
net = record {
  getaddrinfo = λ port.
      some (record { ai_family = 10; ai_addr = 0 } ∷ record { ai_family = 2; ai_addr = 1 } ∷ []);
  getnameinfo = λ info. true;
  socket = λ info. some 3;
  setsockopt = λ s. true;
  get_flags = λ s. some 2;
  set_flags = λ s flags. true;
  bind = λ s info. false;
  listen = λ s. true;
  shutdown = λ s. true;
  close = λ s. true;
}

find_and_bind_socket-Cleans_example :
    Cleans 1 (find_and_bind_socket net (codes "8012") af_inet true)
find_and_bind_socket-Cleans_example = find_and_bind_socket-Cleans net (codes "8012") af_inet true

-- Without support of IPv6, the server falls back to IPv4.
start_sockets_lem_example :
    start_sockets false true (Prepared.ready 3) (Prepared.failed PrepareError.no_family)
    ≡ some (some 3, none)
start_sockets_lem_example =
    start_sockets_lem false true (Prepared.ready 3) (Prepared.failed PrepareError.no_family)

-- `atoi`, as far as it is asked here.
abbrev number : Bytes → ℤ
number text = pos (length text)

main_config-Starts_example :
    Starts number
      (Opt.ipv6 ∷ Opt.w (codes "www") ∷ [])
      (main_config number (Opt.ipv6 ∷ Opt.w (codes "www") ∷ []))
main_config-Starts_example = main_config-Starts number (Opt.ipv6 ∷ Opt.w (codes "www") ∷ [])
