-- ===== src/ThreadManager/Send.antt =====
-- thread.cc: `RegisterSendAndCheckForCycles` keeps the send graph without cycles.
use mathlib.Core.WellFounded.{Acc}
use rtc_base.Common.{
  ℕ, ◌≡◌, refl, true, false, Bool-cases, ◌⊎◌, inl, inr, ◌↔◌, List, [], ◌∷◌, ◌==◌, ==_iff,
  if◌then◌else◌, arith,
}
use rtc_base.ThreadManager.Graph.{
  Entry, targets_of, contains, insert_target, insert_edge, aborted, registered, check_and_insert,
  register_send_and_check_for_cycles,
}
use rtc_base.ThreadManager.Walk.{
  IsIn, Edge, Route, here, via, IsAcyclic, contains_lem, contains_complete, Rounds-from,
  IsCollected, collect_lem,
}

-- One edge more.
IsIn-insert_target :
    (t : ℕ) (ts : List ℕ) (y : ℕ) → IsIn y (insert_target t ts) ↔ ((t ≡ y) ⊎ IsIn y ts)
unfolding insert_target
IsIn-insert_target t ts y = elim (Bool-cases (contains t ts)) [
  | inl there ↦
      rw there
        (λ h. inr h, λ h. elim h [ inl same ↦ rw (← same) (contains_lem t ts there) | inr h ↦ h ])
  | inr new ↦ rw new (λ h. h, λ h. h)
]

abbrev Added : (ℕ → List ℕ) → ℕ → ℕ → ℕ → ℕ → Type 0
Added to source target x y = ((source ≡ x) × (target ≡ y)) ⊎ Edge to x y

insert_edge_targets :
    (source target : ℕ) (g : List Entry) (x : ℕ)
    → targets_of (insert_edge source target g) x
      ≡ (if source == x then insert_target target (targets_of g x) else targets_of g x)
unfolding insert_edge targets_of insert_target contains
insert_edge_targets source target [] x = ground arith
insert_edge_targets source target (e ∷ g) x = ground (arith, insert_edge_targets source target g x)

insert_edge_lem :
    (source target : ℕ) (g : List Entry) (x y : ℕ)
    → Edge (targets_of (insert_edge source target g)) x y ↔ Added (targets_of g) source target x y
insert_edge_lem source target g x y = elim (Bool-cases (source == x)) [
  | inl same ↦
      let at_source = (==_iff source x).0 same in
      rw (insert_edge_targets source target g x, same)
        (
          λ h. elim ((IsIn-insert_target target (targets_of g x) y).0 h) [
            | inl e ↦ inl (at_source, e)
            | inr old ↦ inr old
          ],
          λ h.
              (IsIn-insert_target target (targets_of g x) y).1
                (elim h [ inl (_, e) ↦ inl e | inr old ↦ inr old ]),
        )
  | inr other ↦
      rw (insert_edge_targets source target g x, other)
        (
          λ h. inr h,
          λ h. elim h [ inl (at_source, _) ↦ absurd (differs other at_source) | inr old ↦ old ],
        )
]
  where
    differs : (source == x) ≡ false → source ≡ x → ⊥
    differs h e = ground arith

-- An edge that closes no cycle.
module _ (to to' : ℕ → List ℕ) (source target : ℕ) (acyclic : IsAcyclic to)
    (no_route : ¬ Route to target source)
    (edges : (x y : ℕ) → Edge to' x y → Added to source target x y) where
  -- Threads that reach no new edge.
  acc_before :
      (x : ℕ) → Acc (λ y x. Edge to x y) x → ¬ Route to x source → Acc (λ y x. Edge to' x y) x
  acc_before x (Acc.intro _ smaller) none_to = Acc.intro x (λ y edge. elim (edges x y edge) [
    | inl (at_source, _) ↦ absurd (none_to (rw at_source (here x)))
    | inr old ↦ acc_before y (smaller y old) (λ r. none_to (via old r))
  ])

  acc_after : (x : ℕ) → Acc (λ y x. Edge to x y) x → Acc (λ y x. Edge to' x y) x
  acc_after x (Acc.intro _ smaller) = Acc.intro x (λ y edge. elim (edges x y edge) [
    | inl (_, at_target) ↦ rw (← at_target) (acc_before target (acyclic target) no_route)
    | inr old ↦ acc_after y (smaller y old)
  ])

  pub IsAcyclic-with : IsAcyclic to'
  IsAcyclic-with x = acc_after x (acyclic x)

module _ (source target : ℕ) (g g1 : List Entry) (all_targets : List ℕ)
    (c : IsCollected (targets_of g) [] (target ∷ []) all_targets g1) where
  Route-found : contains source all_targets ≡ true → Route (targets_of g) target source
  Route-found loops = elim (c.sound source (contains_lem source all_targets loops)) [
    | inl nothing ↦ absurd nothing
    | inr (x, i, r) ↦ elim i [ inl same ↦ rw same r | inr nothing ↦ absurd nothing ]
  ]

  no-Route_found : contains source all_targets ≡ false → ¬ Route (targets_of g) target source
  no-Route_found free r = absurd (
      differs
        (contains_complete source all_targets (c.complete source (inr (target, inl refl, r)))))
    where
      differs : contains source all_targets ≡ true → ⊥
      differs loops = cc

  new_edges :
      (x y : ℕ)
      → Edge (targets_of (insert_edge source target g1)) x y
        ↔ Added (targets_of g) source target x y
  new_edges x y = rw (← c.targets) (insert_edge_lem source target g1 x y)

-- `RegisterSendAndCheckForCycles` on a graph without cycles: its loop ends. If the target reaches the
-- source already, the program is aborted; if not, the send is registered: the edge is Added, no
-- other edge comes or goes, and the graph still has no cycles.
pub register_send_lem :
    (source target : ℕ) (g : List Entry)
    → IsAcyclic (targets_of g)
    → (fuel : ℕ) × ((Route (targets_of g) target source
          × (register_send_and_check_for_cycles fuel source target g ≡ aborted))
        ⊎ ((¬ Route (targets_of g) target source)
            × ((g' : List Entry) × (register_send_and_check_for_cycles fuel source target g
                  ≡ registered g')
                × IsAcyclic (targets_of g')
                × ((x y : ℕ) → Edge (targets_of g') x y ↔ Added (targets_of g) source target x y))))
unfolding register_send_and_check_for_cycles check_and_insert
register_send_lem source target g acyclic =
    let (fuel, rounds) = Rounds-from target acyclic in
    let (all_targets, g1, run, c) = collect_lem fuel g [] (target ∷ []) refl rounds in
    (
      fuel,
      elim (Bool-cases (contains source all_targets)) [
        | inl loops ↦ inl (Route-found source target g g1 all_targets c loops, rw (run, loops))
        | inr free ↦ inr (
          no-Route_found source target g g1 all_targets c free,
          (
            insert_edge source target g1,
            rw (run, free),
            IsAcyclic-with (targets_of g) (targets_of (insert_edge source target g1)) source target
                acyclic (no-Route_found source target g g1 all_targets c free)
                (λ x y edge. (new_edges source target g g1 all_targets c x y).0 edge),
            new_edges source target g g1 all_targets c,
          ),
        )
      ],
    )
