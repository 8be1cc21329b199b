-- ===== src/Buffer.antt =====
-- src/buffer.c. A buffer's block is modelled by its true size, so that a write behind it shows.
-- `realloc n` says whether an allocation of `n` bytes succeeds: the allocator is a parameter.
pub mod Append
use kitserv.Prelude.{
  ℕ, suc, ◌+◌, ◌-◌, ◌*◌, ◌/◌, Bool, true, false, ◌||◌, ◌&&◌, Option, none, some, List, [], ◌∷◌,
  ◌++◌, leb, ltb, min, if◌then◌else◌, length, take, ◌==◌,
}
use kitserv.Cstring.{Bytes}
use kitserv.Client.{Buffer}

abbrev pub Alloc : Type 0
Alloc = ℕ → Bool

-- 0, -1, or undefined behaviour: a write behind the block, or the use of a block that `realloc` was given
-- with the size 0 and may have freed.
pub data Appended : Type 0 where
  done : Buffer → Appended
  no_memory : Buffer → Appended
  overrun : Appended
  freed : Appended

-- What `ensure_space` leaves; `realloc(buf, 0)` may free the block and return NULL.
pub data Space : Type 0 where
  space : Buffer → Space
  no_space : Space
  zero_size : Space

abbrev pub buffer_increment : ℕ
buffer_increment = 256

abbrev pub len : Buffer → ℕ
len b = length b.bytes

unfoldable pub buffer_init : Alloc → ℕ → Option Buffer
buffer_init realloc size =
    if realloc size then some (record { alloc = size; bytes = []; max = size }) else none

unfoldable pub buffer_reset : Alloc → Buffer → ℕ → Buffer
buffer_reset realloc b size =
    if ltb size b.max
    then (if realloc size
        then record { alloc = size; bytes = []; max = size }
        else record b { bytes = [] })
    else record b { bytes = [] }

-- `realloc(buffer->buf, n)`, not `new_max`.
unfoldable pub ensure_space : Alloc → Buffer → ℕ → Space
ensure_space realloc b n =
    if leb b.max (len b + n)
    then (if n == 0
        then Space.zero_size
        else if realloc n
        then Space.space
            (record b { alloc = n; max = (n / buffer_increment + 1) * buffer_increment })
        else Space.no_space)
    else Space.space b

-- `memcpy(loc, elems, n)`, at `len`; no bytes are no write.
unfoldable pub copy : Buffer → Bytes → Appended
copy b elems =
    if length elems == 0 || leb (len b + length elems) b.alloc
    then Appended.done (record b { bytes = b.bytes ++ elems })
    else Appended.overrun

unfoldable pub copy_into : Buffer → Bytes → Space → Appended
unfolding copy
copy_into b elems Space.no_space = Appended.no_memory b
copy_into b elems Space.zero_size = Appended.freed
copy_into b elems (Space.space b') = copy b' elems

unfoldable pub buffer_append : Alloc → Buffer → Bytes → Appended
unfolding ensure_space copy_into
buffer_append realloc b elems = copy_into b elems (ensure_space realloc b (length elems))

-- The bytes that `vsnprintf` writes at `len`, its NUL included, for a text of `rc` bytes. The size
-- `max - len` is converted to `size_t`: a negative one is no limit, and 0 writes nothing.
abbrev pub printed : Buffer → ℕ → ℕ
printed b rc = if ltb b.max (len b) then rc + 1 else min (rc + 1) (b.max - len b)

-- `rc > buffer->max - buffer->len`
abbrev pub too_long : Buffer → ℕ → Bool
too_long b rc = ltb b.max (len b + rc)

-- The text as it stands in the `rc` bytes that are then counted in: a text that fills the space has
-- lost its last byte to the NUL. An empty text adds nothing.
abbrev pub printed_text : Buffer → Bytes → Bytes
printed_text b text =
    if leb 1 (length text) && len b + length text == b.max
    then take (length text - 1) text ++ 0 ∷ []
    else text

abbrev print_again : Buffer → Bytes → Appended
print_again b text =
    if ltb b.alloc (len b + printed b (length text))
    then Appended.overrun
    else if too_long b (length text)
    then Appended.no_memory b
    else Appended.done (record b { bytes = b.bytes ++ printed_text b text })

-- The second try behind `ensure_space`, whose result is not tested.
abbrev grown : Buffer → Bytes → Space → Appended
grown b text Space.no_space = print_again b text
grown b text Space.zero_size = Appended.freed
grown b text (Space.space b') = print_again b' text

-- `text` is what the format and its arguments give.
unfoldable pub buffer_appendva : Alloc → Buffer → Bytes → Appended
unfolding ensure_space
buffer_appendva realloc b text =
    if ltb b.alloc (len b + printed b (length text))
    then Appended.overrun
    else if too_long b (length text)
    then grown b text (ensure_space realloc b (length text))
    else Appended.done (record b { bytes = b.bytes ++ printed_text b text })

-- `kitserv_buffer_appendf`
abbrev pub buffer_appendf : Alloc → Buffer → Bytes → Appended
buffer_appendf realloc b text = buffer_appendva realloc b text
