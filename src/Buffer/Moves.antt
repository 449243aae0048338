-- ===== src/Buffer/Moves.antt =====
-- buffer.h: how a buffer is made, moved and compared.
use rtc_base.Common.{
  ℕ, zero, suc, ◌+◌, ◌≤◌, ◌≡◌, ◌↔◌, inl, inr, refl, sym, ap, ap₂, ◌∙◌, arith, Bool, true, false,
  none, some, List, [], ◌∷◌, length, length-take, take, ltb, ltb-cases, Bool-cases, ==_iff, ◌==◌,
  max, if◌then◌else◌,
}
use rtc_base.Buffer.State.{
  Buffer, Allocator, cells, overwrite, release, maybe_zero_complete_buffer, clear, on_moved_from,
  move_assign, equal_from, is_equal, buffer_of, buffer_of_size,
}
use rtc_base.Buffer.Block.{IsConsistent, elements, take_all, cells-overwrite_data, take-overwrite}
use rtc_base.Buffer.Growth.{written-IsConsistent, nothing_before}

module _ {ℓ} {A : Type ℓ} where
  first_or : A → List A → A
  first_or x [] = x
  first_or x (y ∷ ys) = y

  rest : List A → List A
  rest [] = []
  rest (y ∷ ys) = ys

  equal_from_lem :
      (eq : A → A → Bool) (n : ℕ) (xs ys : List A)
      → ((x y : A) → (eq x y ≡ true) ↔ (x ≡ y))
      → n ≤ length xs
      → n ≤ length ys
      → (equal_from eq n xs ys ≡ true) ↔ (take n xs ≡ take n ys)
  unfolding equal_from first_or rest
  equal_from_lem eq zero xs ys exact hx hy = (λ e. refl, λ e. refl)
  equal_from_lem eq (suc n) [] ys exact hx hy = absurd (omega arith)
  equal_from_lem eq (suc n) (x ∷ xs) [] exact hx hy = absurd (omega arith)
  equal_from_lem eq (suc n) (x ∷ xs) (y ∷ ys) exact hx hy =
      let (all_same, same_all) = equal_from_lem eq n xs ys exact (omega arith) (omega arith) in
      elim (Bool-cases (eq x y)) [
        | inl same ↦
            rw same (λ e. ap₂ ◌∷◌ ((exact x y).0 same) (all_same e), λ e. same_all (ap rest e))
        | inr differ ↦
            rw differ (λ e. absurd cc, λ e. sym differ ∙ (exact x y).1 (ap (first_or x) e))
      ]

  size_of : (b : Buffer A) → IsConsistent b → length (elements b) ≡ b.size
  size_of b v = length-take b.size (cells b.data_) ∙ rw v.whole (omega (arith, v.within))

  -- `operator==` tells whether two buffers have the same elements, whatever their capacities.
  pub is_equal-elements :
      (eq : A → A → Bool) (a b : Buffer A)
      → ((x y : A) → (eq x y ≡ true) ↔ (x ≡ y))
      → IsConsistent a
      → IsConsistent b
      → (is_equal eq a b ≡ true) ↔ (elements a ≡ elements b)
  unfolding is_equal
  is_equal-elements eq a b exact v w = elim (Bool-cases (a.size == b.size)) [
    | inl same ↦
        let e : a.size ≡ b.size = (==_iff a.size b.size).0 same in
        let p : take a.size (cells b.data_) ≡ elements b = ap (λ n. take n (cells b.data_)) e in
        let (to, from) =
          equal_from_lem eq a.size (cells a.data_) (cells b.data_) exact (rw v.whole v.within)
            (rw (w.whole, e) w.within) in
        rw same (λ h. to h ∙ p, λ h. from (h ∙ sym p))
    | inr differ ↦ rw differ (
      λ h. absurd cc,
      λ h. sym differ ∙ (==_iff a.size b.size).1 (sym (size_of a v) ∙ ap length h ∙ size_of b w),
    )
  ]

  moved_from :
      (alloc : Allocator A) (zero_element : A) (zero_on_free dcheck : Bool) (f : Buffer A)
      → f.data_ ≡ none
      → (elements (on_moved_from dcheck f) ≡ [])
        × IsConsistent (clear alloc zero_element zero_on_free (on_moved_from dcheck f))
  unfolding on_moved_from clear maybe_zero_complete_buffer
  moved_from alloc zero_element true true f e = (
    ap (λ d. take 1 (cells d)) e,
    record { whole = ap (λ d. length (cells d)) e; within = omega arith },
  )
  moved_from alloc zero_element true false f e = (
    ap (λ d. take 0 (cells d)) e,
    record { whole = ap (λ d. length (cells d)) e; within = omega arith },
  )
  moved_from alloc zero_element false true f e = (
    ap (λ d. take 1 (cells d)) e,
    record { whole = ap (λ d. length (cells d)) e; within = omega arith },
  )
  moved_from alloc zero_element false false f e = (
    ap (λ d. take 0 (cells d)) e,
    record { whole = ap (λ d. length (cells d)) e; within = omega arith },
  )

  module _ (alloc : Allocator A) (zero_element : A) (zero_on_free : Bool) where
    made_block : (n : ℕ) → length (cells (if ltb 0 n then some (alloc.block n) else none)) ≡ n
    made_block n = elim (ltb-cases 0 n) [
      | inl (positive, yes_positive) ↦ rw yes_positive (alloc.length-block n)
      | inr (none_asked, not_positive) ↦ rw not_positive (omega arith)
    ]

    -- A buffer made from an array has its elements, and the capacity that was asked for or its size.
    pub buffer_of-elements :
        (source : List A) (capacity : ℕ)
        → let b = buffer_of alloc zero_element zero_on_free source capacity in
          IsConsistent b × (elements b ≡ source) × (b.capacity ≡ max (length source) capacity)
    unfolding buffer_of buffer_of_size
    buffer_of-elements source capacity =
        let most = max (length source) capacity in
        let d = if ltb 0 most then some (alloc.block most) else none in
        let fresh : IsConsistent
            (buffer_of_size alloc zero_element zero_on_free (length source) capacity) =
          record { whole = made_block most; within = omega arith } in
        let fits : 0 + length source ≤ length (cells d) = rw (made_block most) (omega arith) in
        (
          written-IsConsistent 0 source _ fresh (omega arith),
          ap (take (length source)) (cells-overwrite_data 0 source d fits)
              ∙ ap (λ n. take n (overwrite 0 source (cells d))) (nothing_before (length source))
              ∙ take-overwrite 0 (length source) source (cells d) (omega arith) (omega arith)
              ∙ take_all (length source) source (omega arith),
          refl,
        )

    -- `operator=` from a buffer that gives its block away: this one has the elements, the other none, and
    -- the other can be used again after `Clear`.
    pub move_assign-elements :
        (dcheck : Bool) (b from : Buffer A)
        → IsConsistent from
        → let (t, f) = move_assign alloc zero_element zero_on_free dcheck b from in
          IsConsistent t
          × (elements t ≡ elements from)
          × (t.capacity ≡ from.capacity)
          × (elements f ≡ [])
          × IsConsistent (clear alloc zero_element zero_on_free f)
    unfolding move_assign
    move_assign-elements dcheck b from v =
        let moved =
          moved_from alloc zero_element zero_on_free dcheck
            (record from {
              data_ = none;
              released =
                  release (maybe_zero_complete_buffer alloc zero_element zero_on_free b).data_
                    from.released;
            })
            refl in
        (record { whole = v.whole; within = v.within }, refl, refl, moved.0, moved.1)
