-- ===== src/Create.antt =====
-- `kitserv_http_create_client_struct` of src/http.c: what it allocates, and what it frees when an
-- allocation fails. The blocks that `malloc` gives are a parameter.
use kitserv.Prelude.{
  arith, ◌⊎◌, ℕ, ◌≡◌, refl, Bool, true, false, Option, none, some, List, [], ◌∷◌, ◌++◌,
  if◌then◌else◌, ◌==◌, inl, inr,
}
use kitserv.Client.{Buffer, Client, http_bufsz}
use kitserv.Buffer.{Alloc, buffer_init}
use kitserv.Finalize.{reset_client}
use kitserv.Pool.{is_fresh}
use kitserv.Pool.Refine.{reset_client-is_fresh}

-- What each `malloc` gives, in the order of the code, which ends with the one of `kitserv_buffer_init`.
pub record Mallocs : Type 0 where
  pub req_headers : Option ℕ
  pub resp_headers : Option ℕ
  pub resp_start : Option ℕ
  pub req_cookies : Option ℕ
  pub resp_body : ℕ

pub data MemoryEvent : Type 0 where
  allocated : ℕ → MemoryEvent
  released : ℕ → MemoryEvent

-- The client, or -1, and what happened.
abbrev pub Created : Type 0
Created = Option Client × List MemoryEvent

-- `if (!(... = malloc(...))) goto ...`, with what follows: where that fails, the code jumps to the label
-- behind which the block is freed.
abbrev pub allocate : Option ℕ → Created → Created
allocate none next = (none, [])
allocate (some a) (none, es) = (none, MemoryEvent.allocated a ∷ (es ++ MemoryEvent.released a ∷ []))
allocate (some a) (some c, es) = (some c, MemoryEvent.allocated a ∷ es)

abbrev pub with_body : Alloc → ℕ → Client → Option Buffer → Created
with_body realloc block raw none = (none, [])
with_body realloc block raw (some b) =
    (some (reset_client realloc (record raw { resp_body = b })), MemoryEvent.allocated block ∷ [])

-- `raw` is what the memory of the structure holds.
unfoldable pub create_client_struct : Alloc → Mallocs → Client → Created
unfolding buffer_init reset_client
create_client_struct realloc m raw = allocate m.req_headers (
    allocate m.resp_headers (
      allocate m.resp_start (
        allocate m.req_cookies
          (with_body realloc m.resp_body raw (buffer_init realloc http_bufsz)))))

-- The blocks in use, the last one first; `none` where a block is freed that is not the last one.
abbrev pub in_use : List ℕ → List MemoryEvent → Option (List ℕ)
in_use bs [] = some bs
in_use bs (MemoryEvent.allocated a ∷ es) = in_use (a ∷ bs) es
in_use [] (MemoryEvent.released a ∷ es) = none
in_use (b ∷ bs) (MemoryEvent.released a ∷ es) = if a == b then in_use bs es else none

-- The blocks when every allocation succeeds.
abbrev all_of : Option ℕ → Option ℕ → Option ℕ → Option ℕ → ℕ → Option (List ℕ)
all_of (some a) (some b) (some c) (some d) e = some (e ∷ d ∷ c ∷ b ∷ a ∷ [])
all_of _ _ _ _ e = none

abbrev pub all_blocks : Mallocs → Option (List ℕ)
all_blocks m = all_of m.req_headers m.resp_headers m.resp_start m.req_cookies m.resp_body

-- What the function gives, for the blocks of a client, and whether the last allocation succeeds.
abbrev pub Balances : Option (List ℕ) → Bool → Created → Type 0
Balances blocks room (none, es) = (in_use [] es ≡ some []) × ((blocks ≡ none) ⊎ (room ≡ false))
Balances blocks room (some c, es) =
    (room ≡ true)
    × ((bs : List ℕ) × (blocks ≡ some bs) × (in_use [] es ≡ some bs))
    × (is_fresh c ≡ true)

allocate-Balances :
    (realloc : Alloc) (raw : Client) (o1 o2 o3 o4 : Option ℕ) (block : ℕ) (b : Buffer) (room : Bool)
    → Balances (all_of o1 o2 o3 o4 block) room (
        allocate o1 (
          allocate o2 (
            allocate o3
              (allocate o4 (with_body realloc block raw (if room then some b else none))))))
allocate-Balances realloc raw none o2 o3 o4 block b room = (refl, inl refl)
allocate-Balances realloc raw (some k1) none o3 o4 block b room = (ground arith, inl refl)
allocate-Balances realloc raw (some k1) (some k2) none o4 block b room = (ground arith, inl refl)
allocate-Balances realloc raw (some k1) (some k2) (some k3) none block b room =
    (ground arith, inl refl)
allocate-Balances realloc raw (some k1) (some k2) (some k3) (some k4) block b false =
    (ground arith, inr refl)
allocate-Balances realloc raw (some k1) (some k2) (some k3) (some k4) block b true = (
  refl,
  (block ∷ k4 ∷ k3 ∷ k2 ∷ k1 ∷ [], refl, refl),
  reset_client-is_fresh realloc (record raw { resp_body = b }),
)

-- `kitserv_http_create_client_struct` succeeds exactly if every allocation does. Then the five blocks are in
-- use, each allocated once, and the client is as fresh as connection_accept wants it. Otherwise what was
-- allocated is freed, the last block first, and nothing is left in use.
pub create_client_struct-Balances :
    (realloc : Alloc) (m : Mallocs) (raw : Client)
    → Balances (all_blocks m) (realloc http_bufsz) (create_client_struct realloc m raw)
unfolding create_client_struct buffer_init
create_client_struct-Balances realloc m raw =
    allocate-Balances realloc raw m.req_headers m.resp_headers m.resp_start m.req_cookies
      m.resp_body (record { alloc = http_bufsz; bytes = []; max = http_bufsz }) (realloc http_bufsz)
