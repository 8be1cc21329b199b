-- ===== src/Tests/Start.antt =====
-- The results on what the server starts with, at concrete inputs.
use kitserv.Prelude.{◌≡◌, refl, true, false, none, some, codes}
use kitserv.Client.{http_bufsz}
use kitserv.Create.{
  Mallocs, Balances, all_blocks, create_client_struct, create_client_struct-Balances,
}
use kitserv.Main.{Config, default_config}
use kitserv.Socket.{Prepared, PrepareError}
use kitserv.Start.{System, server_start}
use kitserv.Start.Barrier.{Starts, server_start-Starts}
use kitserv.Queue.{event_for}
use kitserv.Tests.Data.{new_client}
use kitserv.Tests.Server.{fixed}

-- No memory for the cookies.
abbrev no_cookies : Mallocs
no_cookies = record {
  req_headers = some 1;
  resp_headers = some 2;
  resp_start = some 3;
  req_cookies = none;
  resp_body = 5;
}

create_client_struct-Balances_example :
    Balances
      (all_blocks no_cookies)
      (fixed http_bufsz)
      (create_client_struct fixed no_cookies new_client)
create_client_struct-Balances_example = create_client_struct-Balances fixed no_cookies new_client

-- IPv6 is there, and its socket takes the port for both.
abbrev dual : System
dual = record {
  sigset = true;
  sigprocmask = true;
  sigaction = true;
  malloc_workers = true;
  v4 = Prepared.failed PrepareError.in_use;
  v6 = Prepared.ready 4;
  malloc_accepters = true;
  barrier_init = true;
  create_worker = λ i. true;
  create_v4 = true;
  create_v6 = true;
  sigwait = true;
}

abbrev www : Config
www = record default_config { root = some (codes "www") }

server_start-Starts_example : Starts dual www (server_start dual www)
server_start-Starts_example = server_start-Starts dual www

-- What a worker's queue watches a connection for.
connection_event : (event_for 7 3 false).events ≡ 2147483653
unfolding event_for
connection_event = refl
