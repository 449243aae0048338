-- ===== src/Buffer/Growth.antt =====
-- buffer.h: the growth of the capacity, and writes behind the elements, leave the elements alone.
use rtc_base.Common.{
  ℕ, ◌+◌, ◌-◌, ◌≤◌, ◌≡◌, inl, inr, refl, ap, ◌∙◌, arith, Bool, true, false, ◌&&◌, List, length,
  take, length-take, replicate, length-replicate, ltb, leb-cases, Bool-cases,
}
use rtc_base.Buffer.State.{
  Buffer, Allocator, cells, overwrite, overwrite_data, maybe_zero_complete_buffer,
  zero_trailing_data, grown_capacity, reallocate, ensure_capacity_with_headroom, zero_dropped,
}
use rtc_base.Buffer.Block.{
  IsConsistent, elements, take-take, length-overwrite, take-overwrite_before, take-overwrite,
  cells-overwrite_data,
}

pub nothing_before : (n : ℕ) → n ≡ 0 + n
nothing_before n = omega arith

grown_capacity_lem :
    (extra_headroom : Bool) (wanted capacity : ℕ)
    → capacity ≤ wanted
    → (wanted ≤ grown_capacity extra_headroom wanted capacity)
      × (capacity ≤ grown_capacity extra_headroom wanted capacity)
unfolding grown_capacity
grown_capacity_lem true wanted capacity h = (omega arith, omega arith)
grown_capacity_lem false wanted capacity h = (omega arith, omega arith)

module _ {ℓ} {A : Type ℓ} where
  -- A write within the capacity.
  pub written-IsConsistent :
      (offset : ℕ) (source : List A) (b : Buffer A)
      → IsConsistent b
      → offset + length source ≤ b.capacity
      → IsConsistent (record b { data_ = overwrite_data offset source b.data_ })
  written-IsConsistent offset source b v h = record {
    whole =
        ap length (cells-overwrite_data offset source b.data_ (rw v.whole h))
        ∙ length-overwrite offset source (cells b.data_) (rw v.whole h)
        ∙ v.whole;
    within = v.within;
  }

  -- A write behind the elements.
  pub elements_before :
      (n offset : ℕ) (source : List A) (b : Buffer A)
      → IsConsistent b
      → offset + length source ≤ b.capacity
      → n ≤ offset
      → take n (cells (overwrite_data offset source b.data_)) ≡ take n (cells b.data_)
  elements_before n offset source b v h low =
      ap (take n) (cells-overwrite_data offset source b.data_ (rw v.whole h))
      ∙ take-overwrite_before n offset source (cells b.data_) low (rw v.whole (omega arith))

  pub resized-IsConsistent :
      (size : ℕ) (b : Buffer A)
      → IsConsistent b
      → size ≤ b.capacity
      → IsConsistent (record b { size = size })
  resized-IsConsistent size b v h = record { whole = v.whole; within = h }

  module _ (alloc : Allocator A) (zero_element : A) (zero_on_free : Bool) where
    pub maybe_zero_keeps :
        (b : Buffer A)
        → let z = maybe_zero_complete_buffer alloc zero_element zero_on_free b in
          IsConsistent b → IsConsistent z × (z.size ≡ b.size) × (z.capacity ≡ b.capacity)
    unfolding maybe_zero_complete_buffer
    maybe_zero_keeps b v = elim (Bool-cases (zero_on_free && ltb 0 b.capacity)) [
      | inl zeroes ↦ rw zeroes (
        written-IsConsistent 0 (replicate b.capacity zero_element) b v
            (rw (length-replicate b.capacity zero_element) (omega arith)),
        refl,
        refl,
      )
      | inr keeps ↦ rw keeps (v, refl, refl)
    ]

    reallocate_lem :
        (new : ℕ) (b : Buffer A)
        → let r = reallocate alloc zero_element zero_on_free new b in
          IsConsistent b
          → b.size ≤ new
          → IsConsistent r × (elements r ≡ elements b) × (r.size ≡ b.size)
    unfolding reallocate
    reallocate_lem new b v room =
        let (z, same_size, same_capacity) = maybe_zero_keeps b v in
        (
          record {
            whole =
                length-overwrite 0 (take b.size (cells b.data_)) (alloc.block new) (
                  rw (length-take b.size (cells b.data_), alloc.length-block new, v.whole)
                    (omega (arith, v.within)))
                ∙ alloc.length-block new;
            within = rw same_size room;
          },
          ap (λ n. take n (overwrite 0 (take b.size (cells b.data_)) (alloc.block new)))
                (same_size ∙ nothing_before b.size)
              ∙ take-overwrite 0 b.size (take b.size (cells b.data_)) (alloc.block new)
                  (rw (length-take b.size (cells b.data_), v.whole) (omega (arith, v.within)))
                  (omega arith)
              ∙ take-take b.size b.size (cells b.data_) (omega arith),
          same_size,
        )

    pub ensure_lem :
        (wanted : ℕ) (extra_headroom : Bool) (b : Buffer A)
        → let r =
            ensure_capacity_with_headroom alloc zero_element zero_on_free wanted extra_headroom b in
          IsConsistent b
          → IsConsistent r
            × (elements r ≡ elements b)
            × (r.size ≡ b.size)
            × (wanted ≤ r.capacity)
            × (b.capacity ≤ r.capacity)
    unfolding ensure_capacity_with_headroom reallocate
    ensure_lem wanted extra_headroom b v = elim (leb-cases wanted b.capacity) [
      | inl (fits, yes_fits) ↦ rw yes_fits (v, refl, refl, fits, omega arith)
      | inr (more, no_fits) ↦ rw no_fits (
          let (enough, grown) = grown_capacity_lem extra_headroom wanted b.capacity (omega arith) in
          let (v', same, same_size) =
            reallocate_lem (grown_capacity extra_headroom wanted b.capacity) b v
              (omega (arith, v.within)) in
          (v', same, same_size, enough, grown))
    ]

    pub zero_dropped_lem :
        (old_size : ℕ) (b : Buffer A)
        → let r = zero_dropped alloc zero_element zero_on_free old_size b in
          IsConsistent b
          → old_size ≤ b.capacity
          → IsConsistent r
            × (elements r ≡ elements b)
            × (r.size ≡ b.size)
            × (r.capacity ≡ b.capacity)
    unfolding zero_dropped zero_trailing_data
    zero_dropped_lem old_size b v h = elim (Bool-cases (zero_on_free && ltb b.size old_size)) [
      | inr keeps ↦ rw keeps (v, refl, refl, refl)
      | inl zeroes ↦
          let room : b.size + length (replicate (old_size - b.size) zero_element) ≤ b.capacity =
            rw (length-replicate (old_size - b.size) zero_element) (omega (arith, v.within)) in
          rw zeroes (
            written-IsConsistent b.size (replicate (old_size - b.size) zero_element) b v room,
            elements_before b.size b.size (replicate (old_size - b.size) zero_element) b v room
                (omega arith),
            refl,
            refl,
          )
    ]
