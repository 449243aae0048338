-- ===== src/SwapQueue/Ring.antt =====
-- swap_queue.h: what the updates of the two indices compute.
use native.Mathlib.Nat.{mod-eq_of_lt, mod-eq-sub-mod}
use rtc_base.Common.{
  ℕ, ◌+◌, ◌-◌, ◌%◌, ◌≤◌, ◌<◌, ◌≡◌, ◌∙◌, sym, arith, ◌==◌, leb-cases, Bool-cases, ==_iff, false, inl,
  inr,
}
use rtc_base.SwapQueue.Steps.{advance, advance_by}

pub advance_lem :
    (size i : ℕ) → i < size → (advance size i ≡ (i + 1) % size) × (advance size i < size)
unfolding advance
advance_lem size i h = elim (Bool-cases (i + 1 == size)) [
  | inl at_end ↦
      let e = (==_iff (i + 1) size).0 at_end in
      rw at_end (
        omega (
          arith,
          e,
          mod-eq-sub-mod {n = i + 1} {m = size} (omega arith),
          mod-eq_of_lt {n = 0} {m = size} (omega arith),
        ),
        omega arith,
      )
  | inr inside ↦
      let small : i + 1 < size = within inside in rw inside (sym (mod-eq_of_lt small), small)
]
  where
    within : (i + 1 == size) ≡ false → i + 1 < size
    within no_end = ground arith

pub advance_by_lem :
    (size old i : ℕ)
    → i < size
    → old ≤ size
    → (advance_by size old i ≡ (i + old) % size) × (advance_by size old i < size)
unfolding advance_by
advance_by_lem size old i h small = elim (leb-cases size (i + old)) [
  | inl (past, yes_past) ↦
      let less : i + old - size < size = omega arith in
      rw yes_past (sym (mod-eq-sub-mod past ∙ mod-eq_of_lt less), less)
  | inr (before, no_past) ↦ rw no_past (sym (mod-eq_of_lt before), before)
]
