-- ===== src/Align/Blocks.antt =====
-- `aligned_alloc` and `aligned_free`: where the block lies, and that the block is given back.
use native.Mathlib.Nat.{mod-eq_of_lt}
use rtc_base.Common.{
  ℕ, ◌+◌, ◌-◌, ◌/◌, ◌%◌, ◌^◌, ◌≤◌, ◌<◌, ◌≡◌, refl, ap, ◌∙◌, sym, true, some, ◌∷◌, arith, ==_above,
  ==_same,
}
use rtc_base.Align.{
  word_size, align_valid, align_up, BlockStore, store_word, read_bytes, requested, header_pos,
  place, aligned_alloc, free_block, after_free, aligned_free,
}
use rtc_base.Align.Rounding.{align_up_lem}

read_word :
    (p v : ℕ) (memory : ℕ → ℕ)
    → v < 2 ^ 64
    → ((i : ℕ) → i < 8 → memory (p + i) ≡ v / 256 ^ i % 256)
    → read_bytes 8 p memory ≡ v
unfolding read_bytes
read_word p v memory small h =
    let next = λ (i : ℕ) (lt : i < 8) (q : ℕ) (e : q ≡ p + i). ap memory e ∙ h i lt in
    omega (
      arith,
      next 0 (omega arith) p (omega arith),
      next 1 (omega arith) (p + 1) refl,
      next 2 (omega arith) (p + 1 + 1) (omega arith),
      next 3 (omega arith) (p + 1 + 1 + 1) (omega arith),
      next 4 (omega arith) (p + 1 + 1 + 1 + 1) (omega arith),
      next 5 (omega arith) (p + 1 + 1 + 1 + 1 + 1) (omega arith),
      next 6 (omega arith) (p + 1 + 1 + 1 + 1 + 1 + 1) (omega arith),
      next 7 (omega arith) (p + 1 + 1 + 1 + 1 + 1 + 1 + 1) (omega arith),
    )

stored : (p v i : ℕ) (memory : ℕ → ℕ) → i < 8 → store_word p v memory (p + i) ≡ v / 256 ^ i % 256
unfolding store_word
stored p v i memory h = let at : p + i - p ≡ i = omega arith in rw at (ground arith)

module _ (size alignment m : ℕ) (s : BlockStore) (some_size : 0 < size)
    (valid : align_valid alignment ≡ true) (found : 0 < m)
    (fits : m + (size + word_size + alignment) ≤ 2 ^ 64) where
  placed : aligned_alloc size alignment m s ≡ (
    align_up (m + 8) alignment,
    record {
      memory = store_word (align_up (m + 8) alignment - 8) m s.memory;
      held = (m, size + 8 + alignment - 1) ∷ s.held;
    },
  )
  unfolding aligned_alloc place header_pos requested
  placed =
      let (multiple, from_here, first) = align_up_lem (m + 8) alignment valid (omega arith) in
      let near : (m + 8) % 2 ^ 64 ≡ m + 8 = mod-eq_of_lt (omega arith) in
      let whole : (size + 8 + alignment - 1) % 2 ^ 64 ≡ size + 8 + alignment - 1 =
        mod-eq_of_lt (omega arith) in
      let header : (align_up (m + 8) alignment + 2 ^ 64 - 8) % 2 ^ 64
          ≡ align_up (m + 8) alignment - 8 =
        omega (arith, from_here, first) in
      rw (near, whole, header, valid, ==_above size 0 some_size, ==_above m 0 found)

  -- Where malloc answers an address other than NULL, the size is not 0, the alignment is valid and the address, the
  -- size, a word and the alignment are no more than 2 ^ 64 together: the address that `aligned_alloc` returns is
  -- a multiple of the alignment, with room for a word in front of it and for the size behind it inside the
  -- block that malloc was asked for, which is the one block more that is held.
  pub aligned_alloc_lem :
      let (p, after) = aligned_alloc size alignment m s in
      (p % alignment ≡ 0)
      × (m + word_size ≤ p)
      × (p + size ≤ m + requested size alignment)
      × (after.held ≡ (m, requested size alignment) ∷ s.held)
  unfolding requested
  aligned_alloc_lem =
      let (multiple, from_here, first) = align_up_lem (m + 8) alignment valid (omega arith) in
      let whole : requested size alignment ≡ size + 8 + alignment - 1 =
        mod-eq_of_lt (omega arith) in
      rw placed
        (multiple, from_here, omega (arith, first, whole), ap (λ n. (m, n) ∷ s.held) (sym whole))

  -- Under the same conditions, whatever is written to the memory afterwards, except to the word in front of the
  -- address: `aligned_free` of the address gives back the block that malloc returned, and no other.
  pub aligned_free-aligned_alloc :
      (written : ℕ → ℕ)
      → ((i : ℕ)
          → i < word_size
          → written ((aligned_alloc size alignment m s).0 - word_size + i)
            ≡ (aligned_alloc size alignment m s).1.memory
                ((aligned_alloc size alignment m s).0 - word_size + i))
      → aligned_free
          (aligned_alloc size alignment m s).0
          (record (aligned_alloc size alignment m s).1 { memory = written })
        ≡ some (record s { memory = written })
  unfolding aligned_free after_free free_block header_pos
  aligned_free-aligned_alloc written kept =
      let (multiple, from_here, first) = align_up_lem (m + 8) alignment valid (omega arith) in
      let p : ℕ = align_up (m + 8) alignment in
      let header : (p + 2 ^ 64 - 8) % 2 ^ 64 ≡ p - 8 = omega (arith, from_here, first) in
      let same = rw placed at kept in
      let word =
        read_word (p - 8) m written (omega arith)
          (λ i lt. same i lt ∙ stored (p - 8) m i s.memory lt) in
      rw (placed, header, word, ==_above p 0 (omega (arith, from_here)), ==_same m)
