-- ===== src/Buffer/Tests.antt =====
-- Buffers of numbers, on a heap whose new blocks are full of nines.
use rtc_base.Common.{
  ℕ, ◌≡◌, refl, arith, true, some, List, [], ◌∷◌, length-map, length-replicate, map, replicate,
}
use rtc_base.Buffer.State.{
  Buffer, Allocator, append_data, set_size, append_data_with, move_assign, swap, clear,
  on_moved_from, is_consistent, maybe_zero_complete_buffer, ensure_capacity_with_headroom,
  reallocate, overwrite, grown_capacity, zero_dropped, zero_trailing_data,
}
use rtc_base.Buffer.Block.{IsConsistent}
use rtc_base.Buffer.Wipe.{IsFair}
use rtc_base.Buffer.Release.{
  Operation, append_op, append_with_op, set_size_op, clear_op, swap_op, move_op, run, GivesZeros,
  run-Zeroed,
}

abbrev nines : Allocator ℕ
nines = record { block = λ n. replicate n 9; length-block = λ n. length-replicate n 9 }

abbrev three : Buffer ℕ
three = record { size = 2; capacity = 3; data_ = some (5 ∷ 6 ∷ 0 ∷ []); released = [] }

abbrev longer : Buffer ℕ
longer = record { size = 2; capacity = 4; data_ = some (5 ∷ 6 ∷ 7 ∷ 7 ∷ []); released = [] }

three-IsConsistent : IsConsistent three
three-IsConsistent = record { whole = refl; within = omega arith }

longer-IsConsistent : IsConsistent longer
longer-IsConsistent = record { whole = refl; within = omega arith }

-- A setter that writes ones and says to have written one.
abbrev ones : List ℕ → List ℕ × ℕ
ones view = (map (λ x. 1) view, 1)

ones_keep : IsFair ones
ones_keep view = length-map view (λ x. 1)

-- The second buffer is moved into the first, which is then written to; the one moved from is cleared.
abbrev moving : List (Operation ℕ)
moving =
    append_op (7 ∷ 8 ∷ [])
    ∷ move_op
    ∷ append_with_op 4 ones
    ∷ swap_op
    ∷ clear_op
    ∷ set_size_op 1
    ∷ []

run-Zeroed_example :
    let (b, o) = run nines 0 true moving (three, longer) in
    GivesZeros nines 0 true b × GivesZeros nines 0 true o
run-Zeroed_example =
    run-Zeroed nines 0 true moving three longer three-IsConsistent longer-IsConsistent tt tt
      (tt, (tt, (ones_keep, (tt, (tt, (tt, tt))))))

-- In this run no check fails.
moving_goes_on : (run nines 0 true moving (three, longer)).0.size ≡ 1
unfolding append_data set_size append_data_with move_assign swap clear on_moved_from is_consistent
    maybe_zero_complete_buffer ensure_capacity_with_headroom reallocate overwrite grown_capacity
    zero_dropped zero_trailing_data
moving_goes_on = refl
