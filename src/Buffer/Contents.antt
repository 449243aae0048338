-- ===== src/Buffer/Contents.antt =====
-- buffer.h: what the operations of `BufferT` do to its elements.
use rtc_base.Common.{
  ℕ, ◌+◌, ◌≤◌, ◌<◌, ◌≡◌, ◌⊎◌, inl, inr, refl, sym, ap, ap₂, ◌∙◌, arith, Bool, true, none, some,
  List, [], ◌++◌, length, take, drop, length-take, length-drop, leb-cases, min,
}
use rtc_base.Buffer.State.{
  Buffer, Allocator, cells, overwrite_data, ensure_capacity_with_headroom, set_size, append_data,
  set_data, append_data_with, clear,
}
use rtc_base.Buffer.Block.{
  IsConsistent, elements, take-take, take_all, take-take-min, take-overwrite, cells-overwrite_data,
}
use rtc_base.Buffer.Growth.{
  written-IsConsistent, resized-IsConsistent, maybe_zero_keeps, ensure_lem, zero_dropped_lem,
}

module _ {ℓ} {A : Type ℓ} (alloc : Allocator A) (zero_element : A) (zero_on_free : Bool) where
  -- `AppendData` puts the new elements behind those that are there, whether it has to grow or not.
  pub append_data-elements :
      (source : List A) (b : Buffer A)
      → IsConsistent b
      → let r = append_data alloc zero_element zero_on_free source b in
        IsConsistent r
        × (elements r ≡ elements b ++ source)
        × (r.size ≡ b.size + length source)
        × (b.capacity ≤ r.capacity)
  unfolding append_data
  append_data-elements source b v =
      let g =
        ensure_capacity_with_headroom alloc zero_element zero_on_free (b.size + length source) true
          b in
      let (v', same, same_size, room, grown) =
        ensure_lem alloc zero_element zero_on_free (b.size + length source) true b v in
      let fits : g.size + length source ≤ g.capacity = omega (arith, same_size) in
      (
        resized-IsConsistent (b.size + length source) _
            (written-IsConsistent g.size source g v' fits) (omega arith),
        ap (λ n. take n (cells (overwrite_data g.size source g.data_))) (omega (arith, same_size))
            ∙ ap (take (g.size + length source))
                (cells-overwrite_data g.size source g.data_ (rw v'.whole fits))
            ∙ take-overwrite g.size (length source) source (cells g.data_) (omega arith)
                (rw v'.whole v'.within)
            ∙ ap₂ ◌++◌ same (take_all (length source) source (omega arith)),
        refl,
        grown,
      )

  -- `SetSize` keeps the elements that fit in the new size; what a greater size adds is not told.
  pub set_size-elements :
      (size : ℕ) (b : Buffer A)
      → IsConsistent b
      → let r = set_size alloc zero_element zero_on_free size b in
        IsConsistent r
        × (r.size ≡ size)
        × (take (min size b.size) (elements r) ≡ take size (elements b))
        × (b.capacity ≤ r.capacity)
  unfolding set_size
  set_size-elements size b v =
      let g = ensure_capacity_with_headroom alloc zero_element zero_on_free size true b in
      let (v', same, same_size, room, grown) =
        ensure_lem alloc zero_element zero_on_free size true b v in
      let (z, same', size', capacity') =
        zero_dropped_lem alloc zero_element zero_on_free b.size (record g { size = size })
          (resized-IsConsistent size g v' room) (omega (arith, v.within)) in
      (
        z,
        size',
        ap (take (min size b.size)) same'
            ∙ take-take (min size b.size) size (cells g.data_) (omega arith)
            ∙ ap (λ n. take (min size n) (cells g.data_)) (sym same_size)
            ∙ sym (take-take-min size g.size (cells g.data_))
            ∙ ap (take size) same,
        omega (arith, capacity', grown),
      )

  -- `SetData` leaves the new elements alone in the buffer.
  pub set_data-elements :
      (source : List A) (b : Buffer A)
      → IsConsistent b
      → let r = set_data alloc zero_element zero_on_free source b in
        IsConsistent r × (elements r ≡ source) × (b.capacity ≤ r.capacity)
  unfolding set_data
  set_data-elements source b v =
      let a = append_data alloc zero_element zero_on_free source (record b { size = 0 }) in
      let (v', added, size', grown) =
        append_data-elements source (record b { size = 0 })
          (resized-IsConsistent 0 b v (omega arith)) in
      let (z, same, size'', capacity') =
        zero_dropped_lem alloc zero_element zero_on_free b.size a v' (omega (arith, v.within)) in
      (z, same ∙ added, omega (arith, capacity', grown))

  -- `Clear` leaves a buffer without elements and with the capacity that it had.
  pub clear-elements :
      (b : Buffer A)
      → IsConsistent b
      → let r = clear alloc zero_element zero_on_free b in
        IsConsistent r × (elements r ≡ []) × (r.capacity ≡ b.capacity)
  unfolding clear
  clear-elements b v =
      let (z, same_size, same_capacity) = maybe_zero_keeps alloc zero_element zero_on_free b v in
      (resized-IsConsistent 0 _ z (omega arith), refl, same_capacity)

  -- `AppendData` with a setter that keeps to its view: if it says to have written more than it was given
  -- room for, the program stops; if not, what it says to have written stands behind the elements.
  pub append_data_with-elements :
      (max_elements : ℕ) (setter : List A → List A × ℕ) (b : Buffer A)
      → ((view : List A) → length (setter view).0 ≡ length view)
      → IsConsistent b
      → ((r : Buffer A) × (view : List A) × (length view ≡ max_elements)
          × ((setter view).1 ≤ max_elements)
          × (append_data_with alloc zero_element zero_on_free max_elements setter b
              ≡ some ((setter view).1, r))
          × IsConsistent r
          × (elements r ≡ elements b ++ take (setter view).1 (setter view).0))
        ⊎ (view : List A) × (max_elements < (setter view).1)
          × (append_data_with alloc zero_element zero_on_free max_elements setter b ≡ none)
  unfolding append_data_with
  append_data_with-elements max_elements setter b fair v =
      let s = set_size alloc zero_element zero_on_free (b.size + max_elements) b in
      let (v', size', kept, grown) = set_size-elements (b.size + max_elements) b v in
      let view = take max_elements (drop b.size (cells s.data_)) in
      let room : b.size + max_elements ≤ s.capacity = omega (arith, size', v'.within) in
      let view_size : length view ≡ max_elements =
        length-take max_elements (drop b.size (cells s.data_))
        ∙ rw (length-drop b.size (cells s.data_), v'.whole) (omega (arith, room)) in
      let fits : b.size + length (setter view).0 ≤ s.capacity =
        omega (arith, fair view, view_size, room) in
      let old : take b.size (cells s.data_) ≡ elements b =
        sym (take-take b.size s.size (cells s.data_) (omega (arith, size')))
        ∙ ap (λ n. take n (elements s)) (omega arith)
        ∙ kept
        ∙ take_all (b.size + max_elements) (elements b)
            (rw (length-take b.size (cells b.data_)) (omega arith)) in
      elim (leb-cases (setter view).1 max_elements) [
        | inl (enough, yes_enough) ↦ inl (
          record s {
            data_ = overwrite_data b.size (setter view).0 s.data_;
            size = b.size + (setter view).1;
          },
          view,
          view_size,
          enough,
          rw yes_enough refl,
          resized-IsConsistent (b.size + (setter view).1) _
              (written-IsConsistent b.size (setter view).0 s v' fits) (omega (arith, room)),
          ap (take (b.size + (setter view).1))
                (cells-overwrite_data b.size (setter view).0 s.data_ (rw v'.whole fits))
              ∙ take-overwrite b.size (setter view).1 (setter view).0 (cells s.data_)
                  (omega (arith, fair view, view_size)) (rw v'.whole (omega (arith, room)))
              ∙ ap (λ l. l ++ take (setter view).1 (setter view).0) old,
        )
        | inr (more, no_enough) ↦ inr (view, more, rw no_enough refl)
      ]
