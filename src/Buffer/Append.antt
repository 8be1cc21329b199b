-- ===== src/Buffer/Append.antt =====
-- Appending to a buffer of src/buffer.c: what holds while it need not grow, and what happens when it grows.
use kitserv.Prelude.{
  ℕ, ◌+◌, ◌-◌, ◌*◌, ◌/◌, ◌≤◌, ◌<◌, ◌≡◌, true, false, some, [], ◌∷◌, ◌++◌, arith, length,
  length-append, take,
}
use kitserv.Cstring.{Bytes}
use kitserv.Client.{Buffer}
use kitserv.Buffer.{Alloc, Appended, len, buffer_init, buffer_reset, buffer_append, buffer_appendva}

-- The contents fit in the block, and `max` is no more than its size.
pub record IsValid (b : Buffer) : Type 0 where
  pub contents : length b.bytes ≤ b.max
  pub backed : b.max ≤ b.alloc

-- A new buffer is valid and empty.
pub buffer_init-IsValid :
    (realloc : Alloc) (size : ℕ) {b : Buffer}
    → buffer_init realloc size ≡ some b
    → IsValid b × (b.bytes ≡ []) × (b.max ≡ size)
unfolding buffer_init
buffer_init-IsValid realloc size h = ground arith

-- A reset of a valid buffer leaves it valid and empty, whether or not the block could shrink.
pub buffer_reset-IsValid :
    (realloc : Alloc) (b : Buffer) (size : ℕ)
    → IsValid b
    → IsValid (buffer_reset realloc b size) × ((buffer_reset realloc b size).bytes ≡ [])
unfolding buffer_reset
buffer_reset-IsValid realloc b size v = ground arith

-- While the text fits below `max`, a formatted append to a valid buffer succeeds, whatever the
-- allocator does, adds exactly the text, and keeps the buffer valid.
pub buffer_appendva_room :
    (realloc : Alloc) (b : Buffer) (text : Bytes)
    → IsValid b
    → len b + length text < b.max
    → (buffer_appendva realloc b text ≡ Appended.done (record b { bytes = b.bytes ++ text }))
      × IsValid (record b { bytes = b.bytes ++ text })
unfolding buffer_appendva
buffer_appendva_room realloc b text v h = ground (arith, length-append {0} b.bytes text)

-- The flaw: a formatted text that is not empty and fills a valid buffer up to `max` is accepted, with its
-- last byte replaced by the NUL.
pub buffer_appendva_cut :
    (realloc : Alloc) (b : Buffer) (text : Bytes)
    → IsValid b
    → 0 < length text
    → len b + length text ≡ b.max
    → buffer_appendva realloc b text
      ≡ Appended.done (record b { bytes = b.bytes ++ (take (length text - 1) text ++ 0 ∷ []) })
unfolding buffer_appendva
buffer_appendva_cut realloc b text v l h = ground arith

-- What an append does with at least one byte when the bytes do not fit below `max`. Without memory nothing changes and
-- the append fails. With memory, an empty buffer takes the bytes, but its `max` is then larger
-- than its block; and with a buffer that holds anything the write goes past the block, which has
-- room for the new bytes only.
pub buffer_append_grow :
    (realloc : Alloc) (b : Buffer) (elems : Bytes)
    → 0 < length elems
    → b.max ≤ len b + length elems
    → (realloc (length elems) ≡ false → buffer_append realloc b elems ≡ Appended.no_memory b)
      × (realloc (length elems) ≡ true
          → b.bytes ≡ []
          → (b' : Buffer) × (buffer_append realloc b elems ≡ Appended.done b')
            × (b'.bytes ≡ elems)
            × (b'.alloc < b'.max))
      × (realloc (length elems) ≡ true
          → 0 < len b
          → buffer_append realloc b elems ≡ Appended.overrun)
unfolding buffer_append
buffer_append_grow realloc b elems p h = (
  λ f. ground arith,
  λ t e. (
    record { alloc = length elems; bytes = b.bytes ++ elems; max = (length elems / 256 + 1) * 256 },
    ground arith,
    ground arith,
    omega arith,
  ),
  λ t l. ground arith,
)

-- The flaw: when an append has grown an empty buffer, a second one that is not empty and fits
-- below the new `max` overruns the block, which has room for the first bytes only.
pub buffer_append_twice :
    (realloc : Alloc) (b b' : Buffer) (elems more : Bytes)
    → b.bytes ≡ []
    → b.max ≤ length elems
    → realloc (length elems) ≡ true
    → buffer_append realloc b elems ≡ Appended.done b'
    → 0 < length more
    → length elems + length more < b'.max
    → buffer_append realloc b' more ≡ Appended.overrun
unfolding buffer_append
buffer_append_twice realloc b b' elems more e h t d l k = ground arith
