-- ===== src/RefCount/Accounts.antt =====
-- What the pointers of scoped_refptr.h do to the counts.
use native.Mathlib.Nat.{add-zero}
use mathlib.Core.Path.{subst}
use rtc_base.Common.{
  ℕ, zero, suc, ◌+◌, ◌<◌, ◌≡◌, refl, sym, ap, ◌∙◌, true, List, [], ◌∷◌, Option, none, some, get_or,
  set, length, arith, length-set, ℕ_discrete, ==_same,
}
use rtc_base.Common.Ring.{get_or-set_here, get_or-set_elsewhere}
use rtc_base.RefCount.Store.{
  Heap, Counts, Holds, Reaped, only, counted_lives, add_ref-Counts, release-Counts,
}
use rtc_base.RefCount.{
  Program, get, put, construct, construct_copy, release_ptr, construct_move, destroy, assign,
  assign_copy, swap_raw, assign_move, swap, add_ref_if, release_if, Op, constructs, copies, moves,
  destroys, releases, assigns, copy_assigns, move_assigns, swaps, perform,
}

-- 1 at the object that a pointer points to.
abbrev pub holds : Option ℕ → ℕ → ℕ
holds none x = 0
holds (some o) x = only o x

-- How many pointers point to an object.
abbrev pub pointing : List (Option ℕ) → ℕ → ℕ
pointing [] x = 0
pointing (p ∷ ps) x = holds p x + pointing ps x

pointing-set :
    (ps : List (Option ℕ)) (i : ℕ) (p : Option ℕ) (x : ℕ)
    → i < length ps
    → pointing (set ps i p) x + holds (get_or ps i none) x ≡ pointing ps x + holds p x
pointing-set [] i p x h = absurd (omega arith)
pointing-set (q ∷ ps) zero p x h = omega arith
pointing-set (q ∷ ps) (suc i) p x h = omega (arith, pointing-set ps i p x (omega arith))

-- A pointer that may be copied: null, or to an object that lives.
abbrev pub Live : Heap → Option ℕ → Type 0
Live h none = Unit {0}
Live h (some o) = h.alive o ≡ true

-- The counts of the heap with the references that the program's variables hold and those, `owed`, that it
-- has to release by hand.
abbrev pub Balanced : (ℕ → ℕ) → Program → Type 0
Balanced owed s = Counts s.heap (λ x. pointing s.ptrs x + owed x)

add_ref_if-Counts :
    (p : Option ℕ) (h : Heap) (refs : ℕ → ℕ)
    → Counts h refs
    → Live h p
    → (h' : Heap) × (add_ref_if p h ≡ some h') × Counts h' (λ x. refs x + holds p x)
unfolding add_ref_if
add_ref_if-Counts none h refs c l = (h, refl, λ x. rw (add-zero (refs x)) (c x))
add_ref_if-Counts (some o) h refs c l = add_ref-Counts h refs o c l

release_if-Counts :
    (p : Option ℕ) (h : Heap) (refs left : ℕ → ℕ)
    → Counts h refs
    → ((x : ℕ) → refs x ≡ left x + holds p x)
    → (h' : Heap) × (release_if p h ≡ some h') × Counts h' left × Reaped h' refs left
unfolding release_if
release_if-Counts none h refs left c split =
    let same : (x : ℕ) → refs x ≡ left x = λ x. split x ∙ add-zero (left x) in
    (h, refl, λ x. rw (← same x) (c x), λ x some_ref none_left. absurd (omega (arith, same x)))
release_if-Counts (some o) h refs left c split =
    let (h', status, done, counts, reaped) = release-Counts h refs left o c split in
    (h', rw done refl, counts, reaped)

-- What an operation on pointers does: it touches no deleted object, the counts stay those of the references,
-- and an object that loses its last reference is deleted.
abbrev pub Accounts : Option Program → Program → (ℕ → ℕ) → (ℕ → ℕ) → Type 0
Accounts r s before after =
    (s' : Program) × (r ≡ some s')
    × Balanced after s'
    × (length s'.ptrs ≡ length s.ptrs)
    × Reaped s'.heap (λ x. pointing s.ptrs x + before x) (λ x. pointing s'.ptrs x + after x)

only_self : (o : ℕ) → only o o ≡ 1
only_self o = rw (==_same o) refl

-- An operation that only moves references.
moved-Accounts :
    (s t : Program) (before after : ℕ → ℕ)
    → Balanced before s
    → t.heap ≡ s.heap
    → length t.ptrs ≡ length s.ptrs
    → ((x : ℕ) → pointing s.ptrs x + before x ≡ pointing t.ptrs x + after x)
    → Accounts (some t) s before after
moved-Accounts s t before after b kept long same = (
  t,
  refl,
  λ x.
      subst (λ h. Holds (h.ref_count x) (h.alive x) (pointing t.ptrs x + after x)) (sym kept)
        (subst (Holds (s.heap.ref_count x) (s.heap.alive x)) (same x) (b x)),
  long,
  λ x some_ref none_left. absurd (omega (arith, same x)),
)

null_stays :
    (ps : List (Option ℕ)) (i j : ℕ)
    → get_or ps i none ≡ none
    → get_or (set ps j none) i none ≡ none
null_stays [] i j e = refl
null_stays (q ∷ ps) zero zero e = refl
null_stays (q ∷ ps) (suc i) zero e = e
null_stays (q ∷ ps) zero (suc j) e = e
null_stays (q ∷ ps) (suc i) (suc j) e = null_stays ps i j e

set_again :
    (ps : List (Option ℕ)) (i j : ℕ)
    → j < length ps
    → get_or (set ps i (get_or ps j none)) j none ≡ get_or ps j none
set_again ps i j h = elim (ℕ_discrete i j) [
  | yes e ↦ rw e (get_or-set_here ps j (get_or ps j none) none h)
  | no d ↦ get_or-set_elsewhere ps i j (get_or ps j none) none d
]

module _ (s : Program) (owed : ℕ → ℕ) (b : Balanced owed s) (i : ℕ)
    (in_range : i < length s.ptrs) where
  -- `operator=(T* p)`
  assign-Accounts : (p : Option ℕ) → Live s.heap p → Accounts (assign i p s) s owed owed
  unfolding assign get put
  assign-Accounts p l =
      let (h, added, c) = add_ref_if-Counts p s.heap _ b l in
      let (h', dropped, c', reaped) =
        release_if-Counts (get_or s.ptrs i none) h _ (λ x. pointing (set s.ptrs i p) x + owed x) c
          (λ x. omega (arith, pointing-set s.ptrs i p x in_range)) in
      (
        record { heap = h'; ptrs = set s.ptrs i p },
        rw (added, dropped) refl,
        c',
        length-set s.ptrs i p,
        λ x some_ref none_left. reaped x (omega arith) none_left,
      )

  -- `~scoped_refptr()`
  destroy-Accounts : Accounts (destroy i s) s owed owed
  unfolding destroy get put
  destroy-Accounts =
      let (h', dropped, c', reaped) =
        release_if-Counts (get_or s.ptrs i none) s.heap _
          (λ x. pointing (set s.ptrs i none) x + owed x) b
          (λ x. omega (arith, pointing-set s.ptrs i none x in_range)) in
      (
        record { heap = h'; ptrs = set s.ptrs i none },
        rw dropped refl,
        c',
        length-set s.ptrs i none,
        reaped,
      )

  -- `scoped_refptr(T* p)`
  construct-Accounts :
      (p : Option ℕ) → Live s.heap p → get i s ≡ none → Accounts (construct i p s) s owed owed
  unfolding construct get put
  construct-Accounts p l fresh =
      let (h, added, c) = add_ref_if-Counts p s.heap _ b l in
      let moved : (x : ℕ)
          → pointing s.ptrs x + owed x + holds p x ≡ pointing (set s.ptrs i p) x + owed x =
        λ x. omega (arith, pointing-set s.ptrs i p x in_range, ap (λ q. holds q x) fresh) in
      (
        record { heap = h; ptrs = set s.ptrs i p },
        rw added refl,
        λ x. rw (← moved x) (c x),
        length-set s.ptrs i p,
        λ x some_ref none_left. absurd (omega (arith, moved x)),
      )

  -- A pointer that a variable holds may be copied.
  held_lives : Live s.heap (get i s)
  unfolding get
  held_lives = live (get_or s.ptrs i none) refl
    where
      live : (p : Option ℕ) → get_or s.ptrs i none ≡ p → Live s.heap p
      live none e = tt
      live (some o) e =
          counted_lives s.heap _ o b (
            omega
              (arith, pointing-set s.ptrs i none o in_range, ap (λ q. holds q o) e, only_self o))

  -- `release()`
  release_ptr-Accounts :
      Accounts (some (release_ptr i s).1) s owed (λ x. owed x + holds (get i s) x)
  unfolding release_ptr get put
  release_ptr-Accounts =
      moved-Accounts s _ owed _ b refl (length-set s.ptrs i none)
        (λ x. omega (arith, pointing-set s.ptrs i none x in_range))

module _ (s : Program) (owed : ℕ → ℕ) (b : Balanced owed s) (i j : ℕ) (i_in : i < length s.ptrs)
    (j_in : j < length s.ptrs) where
  -- `scoped_refptr(scoped_refptr&& r)`
  construct_move-Accounts : get i s ≡ none → Accounts (some (construct_move i j s)) s owed owed
  unfolding construct_move release_ptr get put
  construct_move-Accounts fresh =
      moved-Accounts s _ owed owed b refl (length-set t i p ∙ length-set s.ptrs j none) (λ x.
        omega (
          arith,
          pointing-set s.ptrs j none x j_in,
          pointing-set t i p x t_in,
          ap (λ q. holds q x) (null_stays s.ptrs i j fresh),
        ))
    where
      p : Option ℕ
      p = get_or s.ptrs j none

      t : List (Option ℕ)
      t = set s.ptrs j none

      t_in : i < length t
      t_in = omega (arith, length-set {0} s.ptrs j none)

  -- `swap(scoped_refptr& r)`
  swap-Accounts : Accounts (some (swap i j s)) s owed owed
  unfolding swap swap_raw get put
  swap-Accounts =
      moved-Accounts s _ owed owed b refl
        (length-set t j (get_or s.ptrs i none) ∙ length-set s.ptrs i p)
        (λ x. omega (
          arith,
          pointing-set s.ptrs i p x i_in,
          pointing-set t j (get_or s.ptrs i none) x t_in,
          ap (λ q. holds q x) (set_again s.ptrs i j j_in),
        ))
    where
      p : Option ℕ
      p = get_or s.ptrs j none

      t : List (Option ℕ)
      t = set s.ptrs i p

      t_in : j < length t
      t_in = omega (arith, length-set {0} s.ptrs i p)

  -- `operator=(scoped_refptr&& r)`
  assign_move-Accounts : Accounts (assign_move i j s) s owed owed
  unfolding assign_move release_ptr swap_raw get put
  assign_move-Accounts =
      let (h', dropped, c', reaped) =
        release_if-Counts (get_or t i none) s.heap _ (λ x. pointing (set t i p) x + owed x) b
          (λ x. omega (arith, pointing-set s.ptrs j none x j_in, pointing-set t i p x t_in)) in
      (
        record { heap = h'; ptrs = set t i p },
        rw dropped refl,
        c',
        length-set t i p ∙ length-set s.ptrs j none,
        reaped,
      )
    where
      p : Option ℕ
      p = get_or s.ptrs j none

      t : List (Option ℕ)
      t = set s.ptrs j none

      t_in : i < length t
      t_in = omega (arith, length-set {0} s.ptrs j none)

-- A constructor is called for a variable that holds nothing yet; a raw pointer that is given is null or points to
-- an object that lives.
abbrev pub Permitted : Op → Program → Type 0
Permitted (constructs i p) s = (i < length s.ptrs) × (get i s ≡ none) × Live s.heap p
Permitted (copies i j) s = (i < length s.ptrs) × (j < length s.ptrs) × (get i s ≡ none)
Permitted (moves i j) s = (i < length s.ptrs) × (j < length s.ptrs) × (get i s ≡ none)
Permitted (destroys i) s = i < length s.ptrs
Permitted (releases i) s = i < length s.ptrs
Permitted (assigns i p) s = (i < length s.ptrs) × Live s.heap p
Permitted (copy_assigns i j) s = (i < length s.ptrs) × (j < length s.ptrs)
Permitted (move_assigns i j) s = (i < length s.ptrs) × (j < length s.ptrs)
Permitted (swaps i j) s = (i < length s.ptrs) × (j < length s.ptrs)

-- The references to be released by hand after an operation: `release()` adds that of its pointer.
abbrev pub owed_after : Op → Program → (ℕ → ℕ) → ℕ → ℕ
owed_after (releases i) s owed = λ x. owed x + holds (get i s) x
owed_after _ s owed = owed

-- Where each living object counts the pointers to it and the references owed by hand, and a deleted one has neither,
-- every operation on scoped_refptr with permitted arguments, self-assignment and self-move included, returns
-- without an access to a deleted object, leaves the counts that way, and has deleted each object that it left
-- without a reference.
pub perform-Accounts :
    (op : Op) (s : Program) (owed : ℕ → ℕ)
    → Balanced owed s
    → Permitted op s
    → Accounts (perform op s) s owed (owed_after op s owed)
unfolding perform construct_copy assign_copy
perform-Accounts (constructs i p) s owed b a = construct-Accounts s owed b i a.0 p a.2 a.1
perform-Accounts (copies i j) s owed b a =
    construct-Accounts s owed b i a.0 (get j s) (held_lives s owed b j a.1) a.2
perform-Accounts (moves i j) s owed b a = construct_move-Accounts s owed b i j a.0 a.1 a.2
perform-Accounts (destroys i) s owed b a = destroy-Accounts s owed b i a
perform-Accounts (releases i) s owed b a = release_ptr-Accounts s owed b i a
perform-Accounts (assigns i p) s owed b a = assign-Accounts s owed b i a.0 p a.1
perform-Accounts (copy_assigns i j) s owed b a =
    assign-Accounts s owed b i a.0 (get j s) (held_lives s owed b j a.1)
perform-Accounts (move_assigns i j) s owed b a = assign_move-Accounts s owed b i j a.0 a.1
perform-Accounts (swaps i j) s owed b a = swap-Accounts s owed b i j a.0 a.1
