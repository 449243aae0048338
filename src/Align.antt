-- ===== src/Align.antt =====
-- features/align_c.h, features/align_c_inl.h and memory/aligned_malloc.cc: a size_t and an address have 64 bits, NULL is 0, and
-- memory is a byte at each address. What `malloc` answers is given; `held` are the blocks not yet freed, each
-- with its size.
pub mod Rounding
pub mod Blocks
mod Tests
use Prim.Native.Nat.{bit_and}
use rtc_base.Common.{
  ℕ, zero, suc, ◌+◌, ◌-◌, ◌*◌, ◌/◌, ◌%◌, ◌^◌, Bool, not, ◌&&◌, Option, none, some, List, [], ◌∷◌,
  ltb, leb, ◌==◌, if◌then◌else◌,
}

abbrev pub word_size : ℕ
word_size = 8

-- The complement of a size_t, and the macros
complement : ℕ → ℕ
complement m = 2 ^ 64 - 1 - m

pub align_valid : ℕ → Bool
align_valid a = not (a == 0) && (0 == bit_and a (a - 1))

pub align_up : ℕ → ℕ → ℕ
unfolding complement
align_up x a = bit_and ((x + a - 1) % 2 ^ 64) (complement (a - 1))

pub get_right_align : ℕ → ℕ → ℕ
get_right_align pointer alignment =
    if pointer == 0
    then 0
    else if not (align_valid alignment)
    then 0
    else align_up pointer alignment

pub record BlockStore : Type 0 where
  pub memory : ℕ → ℕ
  pub held : List (ℕ × ℕ)

-- A word in memory, its lowest byte first
pub store_word : ℕ → ℕ → (ℕ → ℕ) → ℕ → ℕ
store_word p value memory q =
    if leb p q && ltb q (p + word_size) then value / 256 ^ (q - p) % 256 else memory q

pub read_bytes : ℕ → ℕ → (ℕ → ℕ) → ℕ
read_bytes zero p memory = 0
read_bytes (suc n) p memory = memory p + 256 * read_bytes n (p + 1) memory

pub requested : ℕ → ℕ → ℕ
requested size alignment = (size + word_size + alignment - 1) % 2 ^ 64

pub header_pos : ℕ → ℕ
header_pos aligned_pos = (aligned_pos + 2 ^ 64 - word_size) % 2 ^ 64

-- `aligned_alloc` after a `malloc` that succeeds
place : ℕ → ℕ → ℕ → BlockStore → ℕ × BlockStore
place memory_pointer size alignment s =
    let aligned_pos = align_up ((memory_pointer + word_size) % 2 ^ 64) alignment in
    (
      aligned_pos,
      record {
        memory = store_word (header_pos aligned_pos) memory_pointer s.memory;
        held = (memory_pointer, requested size alignment) ∷ s.held;
      },
    )

pub aligned_alloc : ℕ → ℕ → ℕ → BlockStore → ℕ × BlockStore
unfolding place
aligned_alloc size alignment memory_pointer s =
    if size == 0
    then (0, s)
    else if not (align_valid alignment)
    then (0, s)
    else if memory_pointer == 0
    then (0, s)
    else place memory_pointer size alignment s

-- `free`, which has no result for an address that is not that of a block
pub free_block : ℕ → List (ℕ × ℕ) → Option (List (ℕ × ℕ))
free_block p [] = none
free_block p ((q, size) ∷ rest) =
    let others = free_block p rest in
    if q == p then some rest else elim others [ none ↦ none | some l ↦ some ((q, size) ∷ l) ]

after_free : Option (List (ℕ × ℕ)) → BlockStore → Option BlockStore
after_free none s = none
after_free (some held) s = some (record s { held = held })

pub aligned_free : ℕ → BlockStore → Option BlockStore
unfolding after_free
aligned_free mem_block s =
    if mem_block == 0
    then some s
    else after_free (free_block (read_bytes word_size (header_pos mem_block) s.memory) s.held) s
