-- ===== src/Buffer/Release.antt =====
-- buffer.h: `ZeroOnFreeBuffer`, in programs on two buffers, with the checks of `IsConsistent` on (`dcheck`) or off.
use rtc_base.Common.{
  ℕ, ◌≤◌, ◌≡◌, inl, inr, refl, sym, arith, Bool, true, false, not, ◌&&◌, Option, none, some, List,
  [], ◌∷◌, length, if◌then◌else◌, Bool-cases, All,
}
use mathlib.Core.Bool.{false≢true}
use rtc_base.Buffer.State.{
  Buffer, Allocator, cells, maybe_zero_complete_buffer, is_consistent, on_moved_from,
  ensure_capacity, set_size, append_data, set_data, append_data_with, set_data_with, clear, destroy,
  swap, move_assign,
}
use rtc_base.Buffer.Block.{IsConsistent}
use rtc_base.Buffer.Contents.{append_data-elements, set_size-elements, set_data-elements}
use rtc_base.Buffer.Growth.{ensure_lem}
use rtc_base.Buffer.Wipe.{
  Zeroed, IsFair, Leaves, maybe_zero-Zeroed, maybe_zero-whole, ensure-Zeroed, append-Zeroed,
  set_data-Zeroed, set_size-Zeroed, append_with-Zeroed, set_with-Zeroed,
}

-- What the program does to the first of its two buffers; it may swap the two, and move the second into the first.
pub data Operation {ℓ} (A : Type ℓ) : Type ℓ where
  append_op : List A → Operation A
  set_data_op : List A → Operation A
  append_with_op : ℕ → (List A → List A × ℕ) → Operation A
  set_with_op : ℕ → (List A → List A × ℕ) → Operation A
  set_size_op : ℕ → Operation A
  reserve_op : ℕ → Operation A
  clear_op : Operation A
  swap_op : Operation A
  move_op : Operation A

abbrev pub TwoBuffers {ℓ} : Type ℓ → Type ℓ
TwoBuffers A = Buffer A × Buffer A

module _ {ℓ} {A : Type ℓ} where
  -- `RTC_DCHECK(IsConsistent())` and what follows; a check that fails ends the program.
  abbrev pub checked : Bool → Buffer A → Option (TwoBuffers A) → Option (TwoBuffers A)
  checked dcheck b next = if dcheck && not (is_consistent b) then none else next

  -- `AppendData` and `SetData` with a setter go on unless their RTC_CHECK_LE fails.
  abbrev pub keep_other : Buffer A → Option (ℕ × Buffer A) → Option (TwoBuffers A)
  keep_other o none = none
  keep_other o (some (written, b)) = some (b, o)

  module _ (alloc : Allocator A) (zero_element : A) (dcheck : Bool) where
    abbrev pub apply : Operation A → TwoBuffers A → Option (TwoBuffers A)
    apply (append_op source) (b, o) =
        checked dcheck b (some (append_data alloc zero_element true source b, o))
    apply (set_data_op source) (b, o) =
        checked dcheck b (some (set_data alloc zero_element true source b, o))
    apply (append_with_op n setter) (b, o) =
        checked dcheck b (keep_other o (append_data_with alloc zero_element true n setter b))
    apply (set_with_op n setter) (b, o) =
        checked dcheck b (keep_other o (set_data_with alloc zero_element true n setter b))
    apply (set_size_op size) (b, o) =
        checked dcheck b (some (set_size alloc zero_element true size b, o))
    apply (reserve_op capacity) (b, o) =
        checked dcheck b (some (ensure_capacity alloc zero_element true capacity b, o))
    apply clear_op (b, o) = some (clear alloc zero_element true b, o)
    apply swap_op (b, o) = some (swap b o)
    apply move_op (b, o) = checked dcheck o (some (move_assign alloc zero_element true dcheck b o))

    -- The buffers at the end of the program, or where a check ended it.
    abbrev pub run : List (Operation A) → TwoBuffers A → TwoBuffers A
    run [] s = s
    run (op ∷ ops) s = elim (apply op s) [ none ↦ s | some s' ↦ run ops s' ]

    -- The blocks given back so far, and by the destructor, hold nothing but zeros.
    abbrev pub GivesZeros : Buffer A → Type ℓ
    GivesZeros b =
        Zeroed zero_element b.released × Zeroed zero_element (destroy alloc zero_element true b)

    -- A buffer as an operation, or a move out of it, may leave it.
    pub record IsSound (b : Buffer A) : Type ℓ where
      pub whole : length (cells b.data_) ≡ b.capacity
      pub within : dcheck ≡ false → b.size ≤ b.capacity
      pub zeros : Zeroed zero_element b.released

    pub sound : (b : Buffer A) → IsConsistent b → Zeroed zero_element b.released → IsSound b
    sound b v z = record { whole = v.whole; within = λ off. v.within; zeros = z }

    checked-IsConsistent :
        (b : Buffer A) → IsSound b → (dcheck && not (is_consistent b)) ≡ false → IsConsistent b
    unfolding is_consistent
    checked-IsConsistent b s passed = record { whole = s.whole; within = ground (arith, s.within) }

    sound-GivesZeros : (b : Buffer A) → IsSound b → GivesZeros b
    unfolding destroy
    sound-GivesZeros b s =
        let (same, zeros) = maybe_zero-Zeroed alloc zero_element b b.released s.whole s.zeros in
        (s.zeros, rw same zeros)

    abbrev pub Sound : Option (TwoBuffers A) → Type ℓ
    Sound none = Unit
    Sound (some (b, o)) = IsSound b × IsSound o

    checked-Sound :
        (b : Buffer A) (next : Option (TwoBuffers A))
        → IsSound b
        → (IsConsistent b → Sound next)
        → Sound (checked dcheck b next)
    checked-Sound b next s k = elim (Bool-cases (dcheck && not (is_consistent b))) [
      | inl fails ↦ rw fails tt
      | inr passes ↦ rw passes (k (checked-IsConsistent b s passes))
    ]

    keep_other-Sound :
        (capacity : ℕ) (o : Buffer A) (r : Option (ℕ × Buffer A))
        → IsSound o
        → Leaves alloc zero_element capacity r
        → Sound (keep_other o r)
    keep_other-Sound capacity o none s l = tt
    keep_other-Sound capacity o (some (written, b)) s l = (sound b l.0 l.1, s)

    move-Sound :
        (b o : Buffer A)
        → IsSound b
        → IsSound o
        → IsConsistent o
        → Sound (some (move_assign alloc zero_element true dcheck b o))
    unfolding move_assign on_moved_from
    move-Sound b o s t v =
        let wiped = maybe_zero-Zeroed alloc zero_element b o.released s.whole t.zeros in
        let left : Zeroed zero_element
            (maybe_zero_complete_buffer alloc zero_element true b).released =
          rw wiped.0 s.zeros in
        elim (Bool-cases dcheck) [
          | inl on ↦ rw on (
            record { whole = v.whole; within = λ off. v.within; zeros = left },
            record { whole = refl; within = λ off. absurd (false≢true (sym off)); zeros = wiped.1 },
          )
          | inr on ↦ rw on (
            record { whole = v.whole; within = λ off. v.within; zeros = left },
            record { whole = refl; within = λ off. omega arith; zeros = wiped.1 },
          )
        ]

    -- Setters keep to their views.
    abbrev pub Fair : Operation A → Type ℓ
    Fair (append_with_op n setter) = IsFair setter
    Fair (set_with_op n setter) = IsFair setter
    Fair _ = Unit

    clear-Sound : (b : Buffer A) → IsSound b → IsSound (clear alloc zero_element true b)
    unfolding clear
    clear-Sound b s = record {
      whole = maybe_zero-whole alloc zero_element b s.whole;
      within = λ off. omega arith;
      zeros = rw (maybe_zero-Zeroed alloc zero_element b b.released s.whole s.zeros).0 (s.zeros);
    }

    apply-Sound :
        (op : Operation A) (b o : Buffer A)
        → IsSound b
        → IsSound o
        → Fair op
        → Sound (apply op (b, o))
    unfolding ensure_capacity swap
    apply-Sound (append_op source) b o s t f = checked-Sound b _ s (λ v. (
      sound _ (append_data-elements alloc zero_element true source b v).0
          (append-Zeroed alloc zero_element source b v s.zeros),
      t,
    ))
    apply-Sound (set_data_op source) b o s t f = checked-Sound b _ s (λ v. (
      sound _ (set_data-elements alloc zero_element true source b v).0
          (set_data-Zeroed alloc zero_element source b v s.zeros),
      t,
    ))
    apply-Sound (append_with_op n setter) b o s t f = checked-Sound b _ s (λ v.
        keep_other-Sound b.capacity o _ t
          (append_with-Zeroed alloc zero_element n setter b f v s.zeros))
    apply-Sound (set_with_op n setter) b o s t f = checked-Sound b _ s (λ v.
        keep_other-Sound b.capacity o _ t
          (set_with-Zeroed alloc zero_element n setter b f v s.zeros))
    apply-Sound (set_size_op size) b o s t f = checked-Sound b _ s (λ v. (
      sound _ (set_size-elements alloc zero_element true size b v).0
          (set_size-Zeroed alloc zero_element size b v s.zeros),
      t,
    ))
    apply-Sound (reserve_op capacity) b o s t f = checked-Sound b _ s (λ v. (
      sound _ (ensure_lem alloc zero_element true capacity false b v).0
          (ensure-Zeroed alloc zero_element capacity false b v s.zeros),
      t,
    ))
    apply-Sound clear_op b o s t f = (clear-Sound b s, t)
    apply-Sound swap_op b o s t f = (
      record { whole = t.whole; within = t.within; zeros = s.zeros },
      record { whole = s.whole; within = s.within; zeros = t.zeros },
    )
    apply-Sound move_op b o s t f = checked-Sound o _ t (λ v. move-Sound b o s t v)

    run-Sound :
        (ops : List (Operation A)) (b o : Buffer A)
        → IsSound b
        → IsSound o
        → All Fair ops
        → Sound (some (run ops (b, o)))
    run-Sound [] b o s t f = (s, t)
    run-Sound (op ∷ ops) b o s t f =
        go (apply op (b, o)) (apply-Sound op b o s t f.0)
          (λ b' o' s' t'. run-Sound ops b' o' s' t' f.1)
      where
        go :
            (next : Option (TwoBuffers A))
            → Sound next
            → ((b' o' : Buffer A) → IsSound b' → IsSound o' → Sound (some (run ops (b', o'))))
            → Sound
                (some (elim next as (λ _. TwoBuffers A) [ none ↦ (b, o) | some s' ↦ run ops s' ]))
        go none l k = (s, t)
        go (some (b', o')) l k = k b' o' l.0 l.1

    -- Two `ZeroOnFreeBuffer`s give no block back to the heap before they have filled it with zeros, in any run of
    -- `AppendData` and `SetData` (from data or with a setter), `SetSize`, `EnsureCapacity`, `Clear`, `swap` and the
    -- `operator=` that moves one into the other, with the destructors behind it, or up to a check that ends the program.
    -- At the start they are consistent and what they have given back is zeros; setters keep to their views.
    pub run-Zeroed :
        (ops : List (Operation A)) (b o : Buffer A)
        → IsConsistent b
        → IsConsistent o
        → Zeroed zero_element b.released
        → Zeroed zero_element o.released
        → All Fair ops
        → let (b', o') = run ops (b, o) in GivesZeros b' × GivesZeros o'
    run-Zeroed ops b o v w z z' f =
        let l = run-Sound ops b o (sound b v z) (sound o w z') f in
        (sound-GivesZeros _ l.0, sound-GivesZeros _ l.1)
