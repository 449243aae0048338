-- ===== src/MessageQueue/Container.antt =====
-- The vector inside the priority queue of thread.h, in any order, and `reheap` of what `ClearInternal` leaves of it.
use rtc_base.Common.{
  ℕ, zero, suc, ◌≡◌, refl, sym, ap, ◌∙◌, inl, inr, Bool, true, false, List, [], ◌∷◌, arith, All,
  All-map, All-select_of, select, Bool-cases,
}
use rtc_base.MessageQueue.Delayed.{DelayedMessage, less, push, reheap, insert_at, arrange}
use rtc_base.MessageQueue.Order.{
  IsOrdered, less-asymm, not_less_trans, push_first, reheap_ordered, select-IsOrdered,
}

-- Each message is to run before those behind it, none at the same time under the same number.
abbrev pub IsStrict : List DelayedMessage → Type 0
IsStrict [] = Unit {0}
IsStrict (d ∷ ds) = All (λ e. less e d ≡ true) ds × IsStrict ds

strict-IsOrdered : (ds : List DelayedMessage) → IsStrict ds → IsOrdered ds
strict-IsOrdered [] h = tt
strict-IsOrdered (d ∷ ds) h = (All-map ds (λ e. less-asymm e d) h.0, strict-IsOrdered ds h.1)

insert_at-All :
    (P : DelayedMessage → Type 0) (k : ℕ) (d : DelayedMessage) (xs : List DelayedMessage)
    → P d
    → All P xs
    → All P (insert_at k d xs)
unfolding insert_at
insert_at-All P zero d xs h hs = (h, hs)
insert_at-All P (suc k) d [] h hs = (h, tt)
insert_at-All P (suc k) d (x ∷ xs) h hs = (hs.0, insert_at-All P k d xs h hs.1)

pub arrange-All :
    (P : DelayedMessage → Type 0) (ks : List ℕ) (ds : List DelayedMessage)
    → All P ds
    → All P (arrange ks ds)
unfolding arrange
arrange-All P [] ds h = h
arrange-All P (k ∷ ks) [] h = tt
arrange-All P (k ∷ ks) (d ∷ ds) h =
    insert_at-All P k d (arrange ks ds) h.0 (arrange-All P ks ds h.1)

push_swap :
    (d e : DelayedMessage) (xs : List DelayedMessage)
    → less e d ≡ true
    → push d (push e xs) ≡ push e (push d xs)
unfolding push
push_swap d e [] h = rw (h, less-asymm e d h) refl
push_swap d e (x ∷ xs) h =
    ground (arith, less-asymm e d h, not_less_trans d e x, not_less_trans e d x, push_swap d e xs h)

module _ (p : DelayedMessage → Bool) where
  reheap-select-insert_at :
      (k : ℕ) (d : DelayedMessage) (xs : List DelayedMessage)
      → All (λ e. less e d ≡ true) xs
      → reheap (select p (insert_at k d xs)) ≡ reheap (select p (d ∷ xs))
  unfolding insert_at reheap
  reheap-select-insert_at zero d xs h = refl
  reheap-select-insert_at (suc k) d [] h = refl
  reheap-select-insert_at (suc k) d (x ∷ xs) h = elim (Bool-cases (p x)) [
    | inl stays ↦ elim (Bool-cases (p d)) [
      | inl kept ↦
          rw (stays, kept)
            (ap (push x) (reheap-select-insert_at k d xs h.1 ∙ rw kept refl)
              ∙ sym (push_swap d x (reheap (select p xs)) h.0))
      | inr gone ↦
          rw (stays, gone) (ap (push x) (reheap-select-insert_at k d xs h.1 ∙ rw gone refl))
    ]
    | inr leaves ↦ rw leaves (reheap-select-insert_at k d xs h.1)
  ]

  reheap-select-add :
      (d : DelayedMessage) (xs ds : List DelayedMessage)
      → All (λ e. less e d ≡ true) ds
      → reheap (select p xs) ≡ select p ds
      → reheap (select p (d ∷ xs)) ≡ select p (d ∷ ds)
  unfolding reheap
  reheap-select-add d xs ds h rest = elim (Bool-cases (p d)) [
    | inl stays ↦
        rw (stays, rest)
          (push_first d (select p ds)
            (All-select_of (λ e. less d e ≡ false) p ds (All-map ds (λ e. less-asymm e d) h)))
    | inr leaves ↦ rw leaves rest
  ]

  -- What is left of a vector in any order is, once it is a heap again, what is left of the queue, in its order.
  pub reheap-select-arrange :
      (ks : List ℕ) (ds : List DelayedMessage)
      → IsStrict ds
      → reheap (select p (arrange ks ds)) ≡ select p ds
  unfolding arrange reheap
  reheap-select-arrange [] ds h =
      reheap_ordered (select p ds) (select-IsOrdered p ds (strict-IsOrdered ds h))
  reheap-select-arrange (k ∷ ks) [] h = refl
  reheap-select-arrange (k ∷ ks) (d ∷ ds) h =
      reheap-select-insert_at k d (arrange ks ds) (arrange-All (λ e. less e d ≡ true) ks ds h.0)
      ∙ reheap-select-add d (arrange ks ds) ds h.0 (reheap-select-arrange ks ds h.1)
