-- ===== src/Buffer/State.antt =====
-- buffer.h: the members of `BufferT` and its operations. The buffer also notes the blocks that it has
-- given back to the heap, with what was in them.
use rtc_base.Common.{
  ℕ, zero, suc, ◌+◌, ◌-◌, ◌/◌, ◌≡◌, Bool, true, false, ◌&&◌, ◌||◌, Option, none, some, List, [],
  ◌∷◌, ◌++◌, length, take, drop, replicate, ltb, leb, ◌==◌, max, if◌then◌else◌,
}

pub record Buffer {ℓ} (A : Type ℓ) : Type ℓ where
  pub size : ℕ
  pub capacity : ℕ
  pub data_ : Option (List A)
  pub released : List (List A)

-- `new T[n]` gives a block of n elements, whatever is in it.
pub record Allocator {ℓ} (A : Type ℓ) : Type ℓ where
  pub block : ℕ → List A
  pub length-block : (n : ℕ) → length (block n) ≡ n

unfoldable pub grown_capacity : Bool → ℕ → ℕ → ℕ
grown_capacity extra_headroom wanted capacity =
    if extra_headroom then max wanted (capacity + capacity / 2) else wanted

module _ {ℓ} {A : Type ℓ} where
  abbrev pub cells : Option (List A) → List A
  cells none = []
  cells (some block) = block

  -- `memcpy` and `memset`: what comes to stand at an offset
  unfoldable pub overwrite : ℕ → List A → List A → List A
  overwrite offset source block =
      take offset block ++ (source ++ drop (offset + length source) block)

  abbrev pub overwrite_data : ℕ → List A → Option (List A) → Option (List A)
  overwrite_data offset source none = none
  overwrite_data offset source (some block) = some (overwrite offset source block)

  -- The block that a unique_ptr deletes
  abbrev pub release : Option (List A) → List (List A) → List (List A)
  release none released = released
  release (some block) released = block ∷ released

  abbrev is_some : Option (List A) → Bool
  is_some none = false
  is_some (some block) = true

  abbrev pub no_buffer : Buffer A
  no_buffer = record { size = 0; capacity = 0; data_ = none; released = [] }

  unfoldable pub swap : Buffer A → Buffer A → Buffer A × Buffer A
  swap a b = (
    record a { size = b.size; capacity = b.capacity; data_ = b.data_ },
    record b { size = a.size; capacity = a.capacity; data_ = a.data_ },
  )

  unfoldable pub is_consistent : Buffer A → Bool
  is_consistent b = (is_some b.data_ || b.capacity == 0) && leb b.size b.capacity

  -- `OnMovedFrom`, with RTC_DCHECK_IS_ON or not
  unfoldable pub on_moved_from : Bool → Buffer A → Buffer A
  on_moved_from dcheck b =
      if dcheck then record b { size = 1; capacity = 0 } else record b { size = 0; capacity = 0 }

  -- The new buffer and the one moved from
  unfoldable pub move_new : Bool → Buffer A → Buffer A × Buffer A
  move_new dcheck b = (
    record { size = b.size; capacity = b.capacity; data_ = b.data_; released = [] },
    on_moved_from dcheck (record b { data_ = none }),
  )

  unfoldable pub equal_from : (A → A → Bool) → ℕ → List A → List A → Bool
  equal_from eq zero xs ys = true
  equal_from eq (suc n) (x ∷ xs) (y ∷ ys) = if eq x y then equal_from eq n xs ys else false
  equal_from eq (suc n) xs ys = false

  -- `operator==`; false also where it would read outside a block
  unfoldable pub is_equal : (A → A → Bool) → Buffer A → Buffer A → Bool
  is_equal eq a b =
      if a.size == b.size then equal_from eq a.size (cells a.data_) (cells b.data_) else false

  module _ (alloc : Allocator A) (zero_element : A) (zero_on_free : Bool) where
    unfoldable pub buffer_of_size : ℕ → ℕ → Buffer A
    buffer_of_size size capacity =
        let most = max size capacity in
        record {
          size = size;
          capacity = most;
          data_ = if ltb 0 most then some (alloc.block most) else none;
          released = [];
        }

    unfoldable pub buffer_of : List A → ℕ → Buffer A
    buffer_of source capacity =
        let b = buffer_of_size (length source) capacity in
        record b { data_ = overwrite_data 0 source b.data_ }

    unfoldable pub maybe_zero_complete_buffer : Buffer A → Buffer A
    maybe_zero_complete_buffer b =
        if zero_on_free && ltb 0 b.capacity
        then record b { data_ = overwrite_data 0 (replicate b.capacity zero_element) b.data_ }
        else b

    unfoldable pub zero_trailing_data : ℕ → Buffer A → Buffer A
    zero_trailing_data count b = record b {
      data_ = overwrite_data b.size (replicate count zero_element) b.data_;
    }

    unfoldable pub reallocate : ℕ → Buffer A → Buffer A
    reallocate new_capacity b =
        let new_data = overwrite 0 (take b.size (cells b.data_)) (alloc.block new_capacity) in
        let zeroed = maybe_zero_complete_buffer b in
        record zeroed {
          data_ = some new_data;
          capacity = new_capacity;
          released = release zeroed.data_ zeroed.released;
        }

    unfoldable pub ensure_capacity_with_headroom : ℕ → Bool → Buffer A → Buffer A
    ensure_capacity_with_headroom wanted extra_headroom b =
        if leb wanted b.capacity
        then b
        else reallocate (grown_capacity extra_headroom wanted b.capacity) b

    unfoldable pub ensure_capacity : ℕ → Buffer A → Buffer A
    ensure_capacity wanted = ensure_capacity_with_headroom wanted false

    -- `if (ZeroOnFree && size_ < old_size) ZeroTrailingData(old_size - size_);`
    unfoldable pub zero_dropped : ℕ → Buffer A → Buffer A
    zero_dropped old_size b =
        if zero_on_free && ltb b.size old_size then zero_trailing_data (old_size - b.size) b else b

    unfoldable pub set_size : ℕ → Buffer A → Buffer A
    set_size size b =
        zero_dropped b.size (record (ensure_capacity_with_headroom size true b) { size = size })

    unfoldable pub append_data : List A → Buffer A → Buffer A
    append_data source b =
        let new_size = b.size + length source in
        let grown = ensure_capacity_with_headroom new_size true b in
        record grown { data_ = overwrite_data grown.size source grown.data_; size = new_size }

    unfoldable pub set_data : List A → Buffer A → Buffer A
    set_data source b = zero_dropped b.size (append_data source (record b { size = 0 }))

    -- A setter writes to the view that it is given and returns how much. RTC_CHECK_LE aborts.
    unfoldable pub append_data_with : ℕ → (List A → List A × ℕ) → Buffer A → Option (ℕ × Buffer A)
    append_data_with max_elements setter b =
        let grown = set_size (b.size + max_elements) b in
        let (view, written_elements) =
          setter (take max_elements (drop b.size (cells grown.data_))) in
        if leb written_elements max_elements
        then some (
          written_elements,
          record grown {
            data_ = overwrite_data b.size view grown.data_;
            size = b.size + written_elements;
          },
        )
        else none

    -- What follows in `SetData` with a setter
    abbrev pub zero_after_setter : ℕ → Option (ℕ × Buffer A) → Option (ℕ × Buffer A)
    zero_after_setter old_size none = none
    zero_after_setter old_size (some (written, appended)) =
        some (written, zero_dropped old_size appended)

    unfoldable pub set_data_with : ℕ → (List A → List A × ℕ) → Buffer A → Option (ℕ × Buffer A)
    set_data_with max_elements setter b =
        zero_after_setter b.size (append_data_with max_elements setter (record b { size = 0 }))

    unfoldable pub clear : Buffer A → Buffer A
    clear b = record (maybe_zero_complete_buffer b) { size = 0 }

    unfoldable pub destroy : Buffer A → List (List A)
    destroy b = let zeroed = maybe_zero_complete_buffer b in release zeroed.data_ zeroed.released

    -- `operator=(BufferT&&)`: this buffer, which takes the block, and the one moved from
    unfoldable pub move_assign : Bool → Buffer A → Buffer A → Buffer A × Buffer A
    move_assign dcheck b from =
        let zeroed = maybe_zero_complete_buffer b in
        (
          record zeroed { size = from.size; capacity = from.capacity; data_ = from.data_ },
          on_moved_from dcheck
              (record from { data_ = none; released = release zeroed.data_ from.released }),
        )
