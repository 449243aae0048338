-- ===== src/RefCount/Tests.antt =====
-- Runs of scoped_refptr: two pointers to object 3, and an empty one.
use rtc_base.Common.{
  ℕ, ◌≡◌, refl, true, false, [], ◌∷◌, some, none, ◌==◌, inl, inr, Bool-cases, arith,
}
use rtc_base.Common.Int.{pos, ◌-ℤ◌}
use rtc_base.RefCount.Store.{Heap, at, release, dec_ref, dropped}
use rtc_base.RefCount.{Program, put, get, destroy, release_if, perform, move_assigns, ◌>>=◌}
use rtc_base.RefCount.Accounts.{Balanced, Accounts, perform-Accounts}

abbrev shared : Heap
shared = record { ref_count = at (λ _. pos 0) 3 (pos 2); alive = at (λ _. false) 3 true }

abbrev two_pointers : Program
two_pointers = record { heap = shared; ptrs = some 3 ∷ some 3 ∷ none ∷ [] }

abbrev nothing_owed : ℕ → ℕ
nothing_owed _ = 0

balanced : Balanced nothing_owed two_pointers
balanced o = elim (Bool-cases (o == 3)) [
  | inl t ↦ rw t (inl (refl, refl))
  | inr f ↦ rw f (inr (refl, refl))
]

perform-Accounts_example :
    Accounts (perform (move_assigns 0 1) two_pointers) two_pointers nothing_owed nothing_owed
perform-Accounts_example =
    perform-Accounts (move_assigns 0 1) two_pointers nothing_owed balanced (omega arith)

-- The object dies with its second pointer.
both_gone : (do s ← destroy 0 two_pointers; t ← destroy 1 s; some (t.heap.alive 3)) ≡ some false
unfolding destroy get put release_if release dec_ref dropped ◌-ℤ◌
both_gone = refl
