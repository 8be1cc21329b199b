-- ===== src/Main/Options.antt =====
-- The configurations that src/main.c starts the server with.
use kitserv.Prelude.{
  ◌≡◌, refl, sym, ◌∙◌, ◌⊎◌, inl, inr, true, false, Option, none, some, List, [], ◌∷◌, if_both,
}
use kitserv.Prelude.Int.{ℤ, pos, ltb_ℤ}
use kitserv.Cstring.{Bytes}
use kitserv.Main.{
  Config, Opt, default_config, set_option, option_loop, with_root, check_root, main_config,
}

-- An option that the program ends on.
abbrev pub IsRefused : (Bytes → ℤ) → Opt → Type 0
IsRefused atoi (Opt.s n) = ltb_ℤ (atoi n) (pos 1) ≡ true
IsRefused atoi (Opt.t n) = ltb_ℤ (atoi n) (pos 1) ≡ true
IsRefused atoi Opt.h = Unit
IsRefused atoi _ = ⊥

abbrev pub HasRefused : (Bytes → ℤ) → List Opt → Type 0
HasRefused atoi [] = ⊥
HasRefused atoi (o ∷ opts) = IsRefused atoi o ⊎ HasRefused atoi opts

-- The argument of the last `-w`, or what was there before.
abbrev pub last_webdir : Option Bytes → List Opt → Option Bytes
last_webdir root [] = root
last_webdir root (Opt.w dir ∷ opts) = last_webdir (some dir) opts
last_webdir root (_ ∷ opts) = last_webdir root opts

-- The numbers are positive and some family of addresses is asked for.
pub record IsServable (c : Config) : Type 0 where
  pub slots : ltb_ℤ c.num_slots (pos 1) ≡ false
  pub workers : ltb_ℤ c.num_workers (pos 1) ≡ false
  pub family : (c.bind_ipv4 ≡ true) ⊎ (c.bind_ipv6 ≡ true)

abbrev Loops : (Bytes → ℤ) → Config → List Opt → Option Config → Type 0
Loops atoi c opts none = HasRefused atoi opts
Loops atoi c opts (some d) =
    IsServable d × (d.root ≡ last_webdir c.root opts) × ¬ HasRefused atoi opts

neither : {A B : Type 0} → ¬ A → ¬ B → ¬ (A ⊎ B)
neither n m (inl a) = n a
neither n m (inr b) = m b

kept :
    (atoi : Bytes → ℤ) (c : Config) (o : Opt) (opts : List Opt) (d : Config) (r : Option Config)
    → last_webdir d.root opts ≡ last_webdir c.root (o ∷ opts)
    → ¬ IsRefused atoi o
    → Loops atoi d opts r
    → Loops atoi c (o ∷ opts) r
kept atoi c o opts d none e n h = inr h
kept atoi c o opts d (some x) e n (s, l, m) = (s, l ∙ e, neither n m)

-- An option that is accepted.
goes_on :
    (atoi : Bytes → ℤ) (c : Config) (o : Opt) (opts : List Opt) (d : Config)
    → last_webdir d.root opts ≡ last_webdir c.root (o ∷ opts)
    → ¬ IsRefused atoi o
    → IsServable d
    → ((d : Config) → IsServable d → Loops atoi d opts (option_loop atoi (some d) opts))
    → Loops atoi c (o ∷ opts) (option_loop atoi (some d) opts)
goes_on atoi c o opts d e n s next =
    kept atoi c o opts d (option_loop atoi (some d) opts) e n (next d s)

-- One option, of a configuration that can be served.
set_option-Loops :
    (atoi : Bytes → ℤ) (c : Config) (o : Opt) (opts : List Opt)
    → IsServable c
    → ((d : Config) → IsServable d → Loops atoi d opts (option_loop atoi (some d) opts))
    → Loops atoi c (o ∷ opts) (option_loop atoi (set_option atoi c o) opts)
unfolding set_option option_loop
set_option-Loops atoi c (Opt.w dir) opts v next =
    goes_on atoi c (Opt.w dir) opts (record c { root = some dir }) refl (λ r. r)
      (record { slots = v.slots; workers = v.workers; family = v.family }) next
set_option-Loops atoi c (Opt.p port) opts v next =
    goes_on atoi c (Opt.p port) opts (record c { port_string = port }) refl (λ r. r)
      (record { slots = v.slots; workers = v.workers; family = v.family }) next
set_option-Loops atoi c (Opt.f name) opts v next =
    goes_on atoi c (Opt.f name) opts (record c { fallback = some name }) refl (λ r. r)
      (record { slots = v.slots; workers = v.workers; family = v.family }) next
set_option-Loops atoi c (Opt.r name) opts v next =
    goes_on atoi c (Opt.r name) opts (record c { root_fallback = some name }) refl (λ r. r)
      (record { slots = v.slots; workers = v.workers; family = v.family }) next
set_option-Loops atoi c Opt.ipv4 opts v next =
    goes_on atoi c Opt.ipv4 opts (record c { bind_ipv4 = true; bind_ipv6 = false }) refl (λ r. r)
      (record { slots = v.slots; workers = v.workers; family = inl refl }) next
set_option-Loops atoi c Opt.ipv6 opts v next =
    goes_on atoi c Opt.ipv6 opts (record c { bind_ipv4 = false; bind_ipv6 = true }) refl (λ r. r)
      (record { slots = v.slots; workers = v.workers; family = inr refl }) next
set_option-Loops atoi c (Opt.s n) opts v next =
    if_both (λ r. Loops atoi c (Opt.s n ∷ opts) (option_loop atoi r opts)) (ltb_ℤ (atoi n) (pos 1))
      (λ e. inl e)
      (λ e.
        goes_on atoi c (Opt.s n) opts (record c { num_slots = atoi n }) refl (λ r. absurd (cc))
          (record { slots = e; workers = v.workers; family = v.family }) next)
set_option-Loops atoi c (Opt.t n) opts v next =
    if_both (λ r. Loops atoi c (Opt.t n ∷ opts) (option_loop atoi r opts)) (ltb_ℤ (atoi n) (pos 1))
      (λ e. inl e)
      (λ e.
        goes_on atoi c (Opt.t n) opts (record c { num_workers = atoi n }) refl (λ r. absurd (cc))
          (record { slots = v.slots; workers = e; family = v.family }) next)
set_option-Loops atoi c Opt.h opts v next = inl tt

option_loop-Loops :
    (atoi : Bytes → ℤ) (c : Config) (opts : List Opt)
    → IsServable c
    → Loops atoi c opts (option_loop atoi (some c) opts)
unfolding option_loop
option_loop-Loops atoi c [] v = (v, refl, λ h. h)
option_loop-Loops atoi c (o ∷ opts) v =
    set_option-Loops atoi c o opts v (λ d e. option_loop-Loops atoi d opts e)

-- What the options come to: an exit for an option that is refused or without a `-w`; or the configuration
-- for the last `-w`, when no option is refused.
abbrev pub Starts : (Bytes → ℤ) → List Opt → Option Config → Type 0
Starts atoi opts none = HasRefused atoi opts ⊎ (last_webdir none opts ≡ none)
Starts atoi opts (some c) =
    IsServable c
    × ((dir : Bytes) × (c.root ≡ some dir) × (last_webdir none opts ≡ some dir))
    × ¬ HasRefused atoi opts

with_root-Starts :
    (atoi : Bytes → ℤ) (opts : List Opt) (c : Config) (root : Option Bytes)
    → c.root ≡ root
    → last_webdir none opts ≡ root
    → IsServable c
    → ¬ HasRefused atoi opts
    → Starts atoi opts (with_root c root)
with_root-Starts atoi opts c none e l s n = inr l
with_root-Starts atoi opts c (some dir) e l s n = (s, (dir, e, l), n)

check_root-Starts :
    (atoi : Bytes → ℤ) (opts : List Opt) (o : Option Config)
    → Loops atoi default_config opts o
    → Starts atoi opts (check_root o)
check_root-Starts atoi opts none h = inl h
check_root-Starts atoi opts (some c) (s, e, n) =
    with_root-Starts atoi opts c c.root refl (sym e) s n

default_config-IsServable : IsServable default_config
default_config-IsServable = record { slots = refl; workers = refl; family = inl refl }

-- For all options: `main` ends before it calls `kitserv_server_start` exactly if there is an option that
-- it refuses, which is `-h`, an unknown one, or a `-s` or `-t` below 1, or if there is no `-w`. Otherwise
-- the configuration that it passes on has the directory of the last `-w`, positive numbers of slots and
-- workers, and a family of addresses to bind.
pub main_config-Starts :
    (atoi : Bytes → ℤ) (opts : List Opt) → Starts atoi opts (main_config atoi opts)
unfolding main_config
main_config-Starts atoi opts =
    check_root-Starts atoi opts (option_loop atoi (some default_config) opts)
      (option_loop-Loops atoi default_config opts default_config-IsServable)
