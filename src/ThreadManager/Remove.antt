-- ===== src/ThreadManager/Remove.antt =====
-- thread.cc: `RemoveFromSendGraph`.
use mathlib.Core.WellFounded.{Acc}
use rtc_base.Common.{
  ℕ, ◌≡◌, ◌≢◌, ◌∙◌, sym, false, Bool-cases, inl, inr, ◌↔◌, List, [], ◌∷◌, ◌==◌, ==_iff,
  if◌then◌else◌, arith,
}
use rtc_base.ThreadManager.Graph.{Entry, targets_of, erase_target, remove_from_send_graph}
use rtc_base.ThreadManager.Walk.{IsIn, Edge, IsAcyclic}

erase_lem : (t : ℕ) (ts : List ℕ) (y : ℕ) → IsIn y (erase_target t ts) ↔ (IsIn y ts × (y ≢ t))
unfolding erase_target
erase_lem t [] y = (λ h. absurd h, λ h. absurd h.0)
erase_lem t (x ∷ ts) y = elim (Bool-cases (x == t)) [
  | inl same ↦ rw same (
    λ h. let (i, ne) = (erase_lem t ts y).0 h in (inr i, ne),
    λ h. elim h.0 [
      | inl e ↦ absurd (h.1 (sym e ∙ (==_iff x t).0 same))
      | inr i ↦ (erase_lem t ts y).1 (i, h.1)
    ],
  )
  | inr other ↦ rw other (
    λ h. elim h [
      | inl e ↦ (inl e, λ at_t. differs other (e ∙ at_t))
      | inr i ↦ let (j, ne) = (erase_lem t ts y).0 i in (inr j, ne)
    ],
    λ h. elim h.0 [ inl e ↦ inl e | inr i ↦ inr ((erase_lem t ts y).1 (i, h.1)) ],
  )
]
  where
    differs : (x == t) ≡ false → x ≡ t → ⊥
    differs h e = ground arith

removed_targets :
    (t : ℕ) (g : List Entry) (x : ℕ)
    → targets_of (remove_from_send_graph t g) x
      ≡ (if x == t then [] else erase_target t (targets_of g x))
unfolding remove_from_send_graph targets_of erase_target
removed_targets t [] x = ground arith
removed_targets t (e ∷ g) x = ground (arith, removed_targets t g x)

-- A removed thread sends to none and none sends to it; the sends between the others stay.
remove_from_send_graph_lem :
    (t : ℕ) (g : List Entry) (x y : ℕ)
    → Edge (targets_of (remove_from_send_graph t g)) x y
      ↔ (Edge (targets_of g) x y × (x ≢ t) × (y ≢ t))
remove_from_send_graph_lem t g x y = elim (Bool-cases (x == t)) [
  | inl same ↦
      rw (removed_targets t g x, same) (λ h. absurd h, λ h. absurd (h.1 ((==_iff x t).0 same)))
  | inr other ↦
      rw (removed_targets t g x, other)
        (
          λ h. let (i, ne) = (erase_lem t (targets_of g x) y).0 h in (i, differs other, ne),
          λ h. (erase_lem t (targets_of g x) y).1 (h.0, h.2),
        )
]
  where
    differs : (x == t) ≡ false → x ≢ t
    differs h e = ground arith

acc_of_fewer :
    (to to' : ℕ → List ℕ)
    → ((x y : ℕ) → Edge to' x y → Edge to x y)
    → (x : ℕ) → Acc (λ y x. Edge to x y) x
    → Acc (λ y x. Edge to' x y) x
acc_of_fewer to to' sub x (Acc.intro _ smaller) =
    Acc.intro x (λ y edge. acc_of_fewer to to' sub y (smaller y (sub x y edge)))

-- `RemoveFromSendGraph` takes out exactly the sends from and to the thread, and leaves a graph without
-- cycles without cycles.
pub remove_from_send_graph-IsAcyclic :
    (t : ℕ) (g : List Entry)
    → IsAcyclic (targets_of g)
    → IsAcyclic (targets_of (remove_from_send_graph t g))
      × ((x y : ℕ)
          → Edge (targets_of (remove_from_send_graph t g)) x y
            ↔ (Edge (targets_of g) x y × (x ≢ t) × (y ≢ t)))
remove_from_send_graph-IsAcyclic t g acyclic = (
  λ x.
      acc_of_fewer (targets_of g) (targets_of (remove_from_send_graph t g))
        (λ x y edge. ((remove_from_send_graph_lem t g x y).0 edge).0) x (acyclic x),
  remove_from_send_graph_lem t g,
)
