-- ===== src/Align/Tests.antt =====
-- A block of 10 bytes at a multiple of 16, where malloc answers 100.
use rtc_base.Common.{◌+◌, ◌%◌, ◌≤◌, ◌≡◌, refl, true, some, [], ◌∷◌, arith}
use rtc_base.Align.{
  word_size, align_valid, BlockStore, requested, aligned_alloc, aligned_free, get_right_align,
  align_up,
}
use rtc_base.Align.Blocks.{aligned_alloc_lem, aligned_free-aligned_alloc}

abbrev empty_store : BlockStore
empty_store = record { memory = λ q. 7; held = [] }

sixteen : align_valid 16 ≡ true
unfolding align_valid
sixteen = refl

aligned_alloc_lem_example :
    let (p, after) = aligned_alloc 10 16 100 empty_store in
    (p % 16 ≡ 0)
    × (100 + word_size ≤ p)
    × (p + 10 ≤ 100 + requested 10 16)
    × (after.held ≡ (100, requested 10 16) ∷ [])
aligned_alloc_lem_example =
    aligned_alloc_lem 10 16 100 empty_store (omega arith) sixteen (omega arith) (omega arith)

aligned_free-aligned_alloc_example :
    aligned_free
      (aligned_alloc 10 16 100 empty_store).0
      (record (aligned_alloc 10 16 100 empty_store).1 {
        memory = (aligned_alloc 10 16 100 empty_store).1.memory;
      })
    ≡ some (record empty_store { memory = (aligned_alloc 10 16 100 empty_store).1.memory })
aligned_free-aligned_alloc_example =
    aligned_free-aligned_alloc 10 16 100 empty_store (omega arith) sixteen (omega arith)
      (omega arith) (aligned_alloc 10 16 100 empty_store).1.memory (λ i lt. refl)

next_page : get_right_align 4097 4096 ≡ 8192
unfolding get_right_align align_valid align_up
next_page = refl
