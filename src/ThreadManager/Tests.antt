-- ===== src/ThreadManager/Tests.antt =====
-- Sends between threads 1, 2 and 3.
use mathlib.Core.WellFounded.{Acc}
use rtc_base.Common.{
  ℕ, ◌≡◌, ◌≢◌, ◌⊎◌, inl, inr, ◌↔◌, List, [], ◌∷◌, ◌==◌, ==_iff, arith, Bool-cases,
}
use rtc_base.ThreadManager.Graph.{
  Entry, targets_of, aborted, registered, register_send_and_check_for_cycles,
  remove_from_send_graph,
}
use rtc_base.ThreadManager.Walk.{Edge, Route, IsAcyclic}
use rtc_base.ThreadManager.Send.{register_send_lem}
use rtc_base.ThreadManager.Remove.{remove_from_send_graph-IsAcyclic}

-- 1 sends to 2.
abbrev one_send : List Entry
one_send = record { source = 1; targets = 2 ∷ [] } ∷ []

Edge-of_one : (x y : ℕ) → Edge (targets_of one_send) x y → (1 ≡ x) × (2 ≡ y)
unfolding targets_of
Edge-of_one x y edge = elim (Bool-cases (1 == x)) [
  | inl same ↦ ((==_iff 1 x).0 same, only (rw same at edge))
  | inr other ↦ absurd (rw other at edge)
]
  where
    only : Edge (λ x. 2 ∷ []) x y → 2 ≡ y
    only (inl e) = e
    only (inr nothing) = absurd nothing

one_send-IsAcyclic : IsAcyclic (targets_of one_send)
one_send-IsAcyclic x = Acc.intro x (λ y edge.
    Acc.intro y (λ z next. absurd (two_steps (Edge-of_one x y edge).1 (Edge-of_one y z next).0)))
  where
    two_steps : {y : ℕ} → 2 ≡ y → 1 ≡ y → ⊥
    two_steps a b = omega arith

-- 2 may not send to 1.
register_send_lem_example :
    (fuel : ℕ) × ((Route (targets_of one_send) 1 2
        × (register_send_and_check_for_cycles fuel 2 1 one_send ≡ aborted))
      ⊎ ((¬ Route (targets_of one_send) 1 2)
          × ((g' : List Entry) × (register_send_and_check_for_cycles fuel 2 1 one_send
                ≡ registered g')
              × IsAcyclic (targets_of g')
              × ((x y : ℕ)
                  → Edge (targets_of g') x y
                    ↔ (((2 ≡ x) × (1 ≡ y)) ⊎ Edge (targets_of one_send) x y)))))
register_send_lem_example = register_send_lem 2 1 one_send one_send-IsAcyclic

remove_from_send_graph-IsAcyclic_example :
    IsAcyclic (targets_of (remove_from_send_graph 2 one_send))
    × ((x y : ℕ)
        → Edge (targets_of (remove_from_send_graph 2 one_send)) x y
          ↔ (Edge (targets_of one_send) x y × (x ≢ 2) × (y ≢ 2)))
remove_from_send_graph-IsAcyclic_example =
    remove_from_send_graph-IsAcyclic 2 one_send one_send-IsAcyclic
