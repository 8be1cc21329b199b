-- ===== src/Main.antt =====
-- src/main.c: the options of the command line, and the configuration that the server is started with.
-- What `getopt` gives is a list; `atoi` is a parameter.
pub mod Options
use kitserv.Prelude.{
  ℕ, zero, suc, Bool, true, false, Option, none, some, List, [], ◌∷◌, ◌||◌, codes, if◌then◌else◌,
}
use kitserv.Prelude.Int.{ℤ, pos, ltb_ℤ}
use kitserv.Cstring.{Bytes}

-- `struct kitserv_config` with its root context; `root` may be NULL.
pub record Config : Type 0 where
  pub root : Option Bytes
  pub root_fallback : Option Bytes
  pub fallback : Option Bytes
  pub use_http_append_fallback : Bool
  pub port_string : Bytes
  pub num_workers : ℤ
  pub num_slots : ℤ
  pub bind_ipv4 : Bool
  pub bind_ipv6 : Bool
  pub silent_mode : Bool

-- The options, with `optarg`; `h` stands for any other one.
pub data Opt : Type 0 where
  w p s t f r : Bytes → Opt
  ipv4 ipv6 h : Opt

abbrev pub default_config : Config
default_config = record {
  root = none;
  root_fallback = some (codes "index.html");
  fallback = some (codes "200.html");
  use_http_append_fallback = true;
  port_string = codes "8012";
  num_workers = pos 2;
  num_slots = pos 128;
  bind_ipv4 = true;
  bind_ipv6 = true;
  silent_mode = false;
}

-- One round of the loop; `none` is an exit.
unfoldable pub set_option : (Bytes → ℤ) → Config → Opt → Option Config
set_option atoi c (Opt.w optarg) = some (record c { root = some optarg })
set_option atoi c (Opt.p optarg) = some (record c { port_string = optarg })
set_option atoi c (Opt.s optarg) =
    if ltb_ℤ (atoi optarg) (pos 1) then none else some (record c { num_slots = atoi optarg })
set_option atoi c (Opt.t optarg) =
    if ltb_ℤ (atoi optarg) (pos 1) then none else some (record c { num_workers = atoi optarg })
set_option atoi c (Opt.f optarg) = some (record c { fallback = some optarg })
set_option atoi c (Opt.r optarg) = some (record c { root_fallback = some optarg })
set_option atoi c Opt.ipv4 = some (record c { bind_ipv4 = true; bind_ipv6 = false })
set_option atoi c Opt.ipv6 = some (record c { bind_ipv4 = false; bind_ipv6 = true })
set_option atoi c Opt.h = none

-- `while ((opt = getopt(...)) != -1)`
unfoldable pub option_loop : (Bytes → ℤ) → Option Config → List Opt → Option Config
unfolding set_option
option_loop atoi none opts = none
option_loop atoi (some c) [] = some c
option_loop atoi (some c) (opt ∷ opts) = option_loop atoi (set_option atoi c opt) opts

abbrev pub with_root : Config → Option Bytes → Option Config
with_root c none = none
with_root c (some root) = some c

abbrev pub check_root : Option Config → Option Config
check_root none = none
check_root (some c) = with_root c c.root

-- `main`, up to the call of `kitserv_server_start`.
unfoldable pub main_config : (Bytes → ℤ) → List Opt → Option Config
unfolding option_loop
main_config atoi opts = check_root (option_loop atoi (some default_config) opts)
