-- ===== src/Buffer/Wipe.antt =====
-- buffer.h: what the operations of a `ZeroOnFreeBuffer` give back to the heap.
use rtc_base.Common.{
  ℕ, ◌+◌, ◌≤◌, ◌≡◌, inl, inr, refl, sym, ap, ◌∙◌, arith, Bool, true, Option, none, some, List, [],
  ◌∷◌, ◌++◌, length, take, drop, replicate, length-replicate, ltb, leb, leb-cases, ltb-cases,
  Bool-cases, append-nil, drop_all,
}
use rtc_base.Buffer.State.{
  Buffer, Allocator, cells, overwrite, overwrite_data, release, maybe_zero_complete_buffer,
  zero_trailing_data, reallocate, ensure_capacity_with_headroom, zero_dropped, set_size,
  append_data, set_data, append_data_with, set_data_with, zero_after_setter,
}
use rtc_base.Buffer.Block.{IsConsistent}
use rtc_base.Buffer.Contents.{set_size-elements, append_data_with-elements}
use rtc_base.Buffer.Growth.{zero_dropped_lem, written-IsConsistent, resized-IsConsistent}

module _ {ℓ} {A : Type ℓ} where
  -- Each block holds nothing but zeros.
  abbrev pub Zeroed : A → List (List A) → Type ℓ
  Zeroed zero_element [] = Unit
  Zeroed zero_element (block ∷ released) =
      (block ≡ replicate (length block) zero_element) × Zeroed zero_element released

  -- A setter that keeps to its view.
  abbrev pub IsFair : (List A → List A × ℕ) → Type ℓ
  IsFair setter = (view : List A) → length (setter view).0 ≡ length view

  module _ (alloc : Allocator A) (zero_element : A) where
    wiped :
        (d : Option (List A)) (capacity : ℕ) (released : List (List A))
        → length (cells d) ≡ capacity
        → Zeroed zero_element released
        → Zeroed zero_element
            (release (overwrite_data 0 (replicate capacity zero_element) d) released)
    unfolding overwrite
    wiped none capacity released e z = z
    wiped (some block) capacity released e z = (
      filled
          ∙ ap (λ n. replicate n zero_element)
              (sym (ap length filled ∙ length-replicate capacity zero_element)),
      z,
    )
      where
        filled :
            replicate capacity zero_element
              ++ drop (0 + length (replicate capacity zero_element)) block
            ≡ replicate capacity zero_element
        filled =
            ap (λ l. replicate capacity zero_element ++ l)
              (drop_all (0 + length (replicate capacity zero_element)) block
                (rw (length-replicate capacity zero_element) (omega (arith, e))))
            ∙ append-nil (replicate capacity zero_element)

    pub maybe_zero-Zeroed :
        (b : Buffer A) (released : List (List A))
        → let y = maybe_zero_complete_buffer alloc zero_element true b in
          length (cells b.data_) ≡ b.capacity
          → Zeroed zero_element released
          → (y.released ≡ b.released) × Zeroed zero_element (release y.data_ released)
    unfolding maybe_zero_complete_buffer
    maybe_zero-Zeroed b released v z = elim (ltb-cases 0 b.capacity) [
      | inl (some_room, yes_room) ↦ rw yes_room (refl, wiped b.data_ b.capacity released v z)
      | inr (no_room, not_room) ↦ rw not_room (refl, nothing b.data_ (v ∙ omega arith))
    ]
      where
        nothing :
            (d : Option (List A)) → length (cells d) ≡ 0 → Zeroed zero_element (release d released)
        nothing none e = z
        nothing (some []) e = (refl, z)
        nothing (some (x ∷ xs)) e = absurd (omega arith)

    pub maybe_zero-whole :
        (b : Buffer A)
        → let y = maybe_zero_complete_buffer alloc zero_element true b in
          length (cells b.data_) ≡ b.capacity → length (cells y.data_) ≡ y.capacity
    unfolding maybe_zero_complete_buffer
    maybe_zero-whole b v = elim (Bool-cases (ltb 0 b.capacity)) [
      | inl zeroes ↦ rw zeroes (
          (written-IsConsistent 0 (replicate b.capacity zero_element) (record b { size = 0 })
            (record { whole = v; within = omega arith })
            (rw (length-replicate b.capacity zero_element) (omega arith))).whole)
      | inr keeps ↦ rw keeps v
    ]

    pub ensure-Zeroed :
        (wanted : ℕ) (extra_headroom : Bool) (b : Buffer A)
        → IsConsistent b
        → Zeroed zero_element b.released
        → Zeroed zero_element
            (ensure_capacity_with_headroom alloc zero_element true wanted extra_headroom b).released
    unfolding ensure_capacity_with_headroom reallocate
    ensure-Zeroed wanted extra_headroom b v z = elim (leb-cases wanted b.capacity) [
      | inl (fits, yes_fits) ↦ rw yes_fits z
      | inr (more, no_fits) ↦
          let (same, zeros) = maybe_zero-Zeroed b b.released v.whole z in rw (no_fits, same) zeros
    ]

    zero_dropped_released :
        (old_size : ℕ) (b : Buffer A)
        → (zero_dropped alloc zero_element true old_size b).released ≡ b.released
    unfolding zero_dropped zero_trailing_data
    zero_dropped_released old_size b = elim (Bool-cases (ltb b.size old_size)) [
      | inl zeroes ↦ rw zeroes refl
      | inr keeps ↦ rw keeps refl
    ]

    pub append-Zeroed :
        (source : List A) (b : Buffer A)
        → IsConsistent b
        → Zeroed zero_element b.released
        → Zeroed zero_element (append_data alloc zero_element true source b).released
    unfolding append_data
    append-Zeroed source b v z = ensure-Zeroed (b.size + length source) true b v z

    pub set_data-Zeroed :
        (source : List A) (b : Buffer A)
        → IsConsistent b
        → Zeroed zero_element b.released
        → Zeroed zero_element (set_data alloc zero_element true source b).released
    unfolding set_data
    set_data-Zeroed source b v z =
        rw
          (zero_dropped_released b.size
            (append_data alloc zero_element true source (record b { size = 0 })))
          (append-Zeroed source (record b { size = 0 })
            (record { whole = v.whole; within = omega arith }) z)

    pub set_size-Zeroed :
        (size : ℕ) (b : Buffer A)
        → IsConsistent b
        → Zeroed zero_element b.released
        → Zeroed zero_element (set_size alloc zero_element true size b).released
    unfolding set_size
    set_size-Zeroed size b v z =
        rw
          (zero_dropped_released b.size
            (record (ensure_capacity_with_headroom alloc zero_element true size true b) {
              size = size;
            }))
          (ensure-Zeroed size true b v z)

    -- What a setter form leaves, unless the program stops.
    abbrev pub Leaves : ℕ → Option (ℕ × Buffer A) → Type ℓ
    Leaves capacity none = Unit
    Leaves capacity (some (written, r)) =
        IsConsistent r × Zeroed zero_element r.released × (capacity ≤ r.capacity)

    block_of : Buffer A → Option (ℕ × Buffer A) → List (List A) × ℕ
    block_of grown none = (grown.released, grown.capacity)
    block_of grown (some (written, r)) = (r.released, r.capacity)

    append_with_block :
        (max_elements : ℕ) (setter : List A → List A × ℕ) (b : Buffer A)
        → let grown = set_size alloc zero_element true (b.size + max_elements) b in
          block_of grown (append_data_with alloc zero_element true max_elements setter b)
          ≡ (grown.released, grown.capacity)
    unfolding append_data_with block_of
    append_with_block max_elements setter b =
        let grown = set_size alloc zero_element true (b.size + max_elements) b in
        elim (Bool-cases
          (leb (setter (take max_elements (drop b.size (cells grown.data_)))).1 max_elements)) [
            | inl fits ↦ rw fits refl
            | inr more ↦ rw more refl
          ]

    pub append_with-Zeroed :
        (max_elements : ℕ) (setter : List A → List A × ℕ) (b : Buffer A)
        → IsFair setter
        → IsConsistent b
        → Zeroed zero_element b.released
        → Leaves b.capacity (append_data_with alloc zero_element true max_elements setter b)
    unfolding block_of
    append_with-Zeroed max_elements setter b fair v z =
        let grown = set_size alloc zero_element true (b.size + max_elements) b in
        let sized = set_size-elements alloc zero_element true (b.size + max_elements) b v in
        let zeros = set_size-Zeroed (b.size + max_elements) b v z in
        elim (append_data_with-elements alloc zero_element true max_elements setter b fair v) [
          | inl (r, view, size, fits, e, v', shown) ↦
              let same = sym (ap (block_of grown) e) ∙ append_with_block max_elements setter b in
              rw e (v', rw (ap (λ q. q.0) same) zeros, rw (ap (λ q. q.1) same) sized.3)
          | inr (view, more, e) ↦ rw e tt
        ]

    pub set_with-Zeroed :
        (max_elements : ℕ) (setter : List A → List A × ℕ) (b : Buffer A)
        → IsFair setter
        → IsConsistent b
        → Zeroed zero_element b.released
        → Leaves b.capacity (set_data_with alloc zero_element true max_elements setter b)
    unfolding set_data_with
    set_with-Zeroed max_elements setter b fair v z =
        go (append_data_with alloc zero_element true max_elements setter (record b { size = 0 })) (
          append_with-Zeroed max_elements setter (record b { size = 0 }) fair
            (resized-IsConsistent 0 b v (omega arith)) z)
      where
        go :
            (o : Option (ℕ × Buffer A))
            → Leaves b.capacity o
            → Leaves b.capacity (zero_after_setter alloc zero_element true b.size o)
        go none l = tt
        go (some (written, r)) l = (
          (zero_dropped_lem alloc zero_element true b.size r l.0 (omega (arith, v.within, l.2))).0,
          rw (zero_dropped_released b.size r) (l.1),
          rw
              (zero_dropped_lem alloc zero_element true b.size r l.0
                (omega (arith, v.within, l.2))).3
              (l.2),
        )
