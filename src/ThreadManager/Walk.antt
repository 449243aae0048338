-- ===== src/ThreadManager/Walk.antt =====
-- The edges and routes of a send graph, and the loop of `RegisterSendAndCheckForCycles` (thread.cc).
use mathlib.Core.WellFounded.{Acc}
use mathlib.Core.Path.{fun_ext}
use rtc_base.Common.{
  ℕ, zero, suc, ◌+◌, ◌≡◌, refl, ◌∙◌, ap, true, ◌⊎◌, inl, inr, List, [], ◌∷◌, ◌++◌, Option, some,
  Any, arith,
}
use rtc_base.ThreadManager.Graph.{Entry, targets_of, touch, contains, collect}

abbrev pub IsIn : ℕ → List ℕ → Type 0
IsIn t = Any (λ x. x ≡ t)

-- Who sends to whom: the targets of each thread.
abbrev pub Edge : (ℕ → List ℕ) → ℕ → ℕ → Type 0
Edge to x y = IsIn y (to x)

pub data Route (to : ℕ → List ℕ) : ℕ → ℕ → Type 0 where
  here : (x : ℕ) → Route to x x
  via : {x y z : ℕ} → Edge to x y → Route to y z → Route to x z

-- No thread sends to itself over any number of others.
abbrev pub IsAcyclic : (ℕ → List ℕ) → Type 0
IsAcyclic to = (x : ℕ) → Acc (λ y x. Edge to x y) x

pub contains_lem : (t : ℕ) (ts : List ℕ) → contains t ts ≡ true → IsIn t ts
unfolding contains
contains_lem t [] h = cc
contains_lem t (x ∷ ts) h = ground (arith, contains_lem t ts)

pub contains_complete : (t : ℕ) (ts : List ℕ) → IsIn t ts → contains t ts ≡ true
unfolding contains
contains_complete t [] h = absurd h
contains_complete t (x ∷ ts) (inl e) = ground arith
contains_complete t (x ∷ ts) (inr h) = ground (arith, contains_complete t ts h)

touch_targets : (t : ℕ) (g : List Entry) (x : ℕ) → targets_of (touch t g) x ≡ targets_of g x
unfolding touch targets_of
touch_targets t [] x = ground arith
touch_targets t (e ∷ g) x = ground (arith, touch_targets t g x)

pub IsIn-append : (t : ℕ) (xs ys : List ℕ) → IsIn t (xs ++ ys) → IsIn t xs ⊎ IsIn t ys
IsIn-append t [] ys h = inr h
IsIn-append t (x ∷ xs) ys (inl e) = inl (inl e)
IsIn-append t (x ∷ xs) ys (inr h) = elim (IsIn-append t xs ys h) [
  | inl l ↦ inl (inr l)
  | inr r ↦ inr r
]

pub IsIn-left : (t : ℕ) (xs ys : List ℕ) → IsIn t xs → IsIn t (xs ++ ys)
IsIn-left t [] ys h = absurd h
IsIn-left t (x ∷ xs) ys (inl e) = inl e
IsIn-left t (x ∷ xs) ys (inr h) = inr (IsIn-left t xs ys h)

pub IsIn-right : (t : ℕ) (xs ys : List ℕ) → IsIn t ys → IsIn t (xs ++ ys)
IsIn-right t [] ys h = h
IsIn-right t (x ∷ xs) ys h = inr (IsIn-right t xs ys h)

-- The number of rounds that the loop takes for these threads: one for each, and those of its targets.
pub data Rounds (to : ℕ → List ℕ) : List ℕ → ℕ → Type 0 where
  none_left : Rounds to [] 0
  one_of :
      {t : ℕ} {ts : List ℕ} {n m k : ℕ}
      → Rounds to (to t) n
      → Rounds to ts m
      → k ≡ suc (n + m)
      → Rounds to (t ∷ ts) k

Rounds-append :
    {to : ℕ → List ℕ} {xs ys : List ℕ} {n m k : ℕ}
    → Rounds to xs n
    → Rounds to ys m
    → k ≡ n + m
    → Rounds to (xs ++ ys) k
Rounds-append {m = m} {k = k} none_left r e = let same : k ≡ m = omega arith in rw same r
Rounds-append (one_of down rest e') r e = one_of down (Rounds-append rest r refl) (omega arith)

all-Rounds :
    {to : ℕ → List ℕ} (ts : List ℕ)
    → ((y : ℕ) → IsIn y ts → (n : ℕ) × Rounds to (to y) n)
    → (n : ℕ) × Rounds to ts n
all-Rounds [] f = (0, none_left)
all-Rounds (x ∷ ts) f =
    let (n, r) = f x (inl refl) in
    let (m, rs) = all-Rounds ts (λ y i. f y (inr i)) in (suc (n + m), one_of r rs refl)

-- Without cycles every thread takes a finite number.
Rounds-of : {to : ℕ → List ℕ} (t : ℕ) → Acc (λ y x. Edge to x y) t → (n : ℕ) × Rounds to (to t) n
Rounds-of {to} t (Acc.intro _ smaller) = all-Rounds (to t) (λ y i. Rounds-of y (smaller y i))

pub Rounds-from : {to : ℕ → List ℕ} (t : ℕ) → IsAcyclic to → (n : ℕ) × Rounds to (t ∷ []) n
Rounds-from t acyclic = all-Rounds (t ∷ []) (λ y i. Rounds-of y (acyclic y))

abbrev pub Reached : (ℕ → List ℕ) → List ℕ → ℕ → Type 0
Reached to pending y = (x : ℕ) × IsIn x pending × Route to x y

Reached-step :
    {to : ℕ → List ℕ} (t : ℕ) (ts : List ℕ) (y : ℕ)
    → Reached to (t ∷ ts) y
    → (t ≡ y) ⊎ Reached to (ts ++ to t) y
Reached-step t ts y (x, inl e, here _) = inl e
Reached-step {to} t ts y (x, inl e, via {y = z} edge r) =
    inr (z, IsIn-right z ts (to t) (rw e edge), r)
Reached-step {to} t ts y (x, inr h, r) = inr (x, IsIn-left x ts (to t) h, r)

Reached-back :
    {to : ℕ → List ℕ} (t : ℕ) (ts : List ℕ) (y : ℕ)
    → Reached to (ts ++ to t) y
    → Reached to (t ∷ ts) y
Reached-back {to} t ts y (x, h, r) = elim (IsIn-append x ts (to t) h) [
  | inl l ↦ (x, inr l, r)
  | inr edge ↦ (t, inl refl, via edge r)
]

-- With as many rounds as fuel, the loop ends with the pending threads and all that these reach.
pub record IsCollected (to : ℕ → List ℕ) (done pending all_targets : List ℕ) (g : List Entry)
    : Type 0 where
  pub targets : targets_of g ≡ to
  pub sound : (y : ℕ) → IsIn y all_targets → IsIn y done ⊎ Reached to pending y
  pub complete : (y : ℕ) → IsIn y done ⊎ Reached to pending y → IsIn y all_targets

abbrev found : List ℕ → List Entry → Option (List ℕ × List Entry)
found all_targets g = some (all_targets, g)

ended :
    {to : ℕ → List ℕ} (g : List Entry) (done : List ℕ)
    → targets_of g ≡ to
    → (all_targets : List ℕ) × (g' : List Entry) × (found done g ≡ found all_targets g')
      × IsCollected to done [] all_targets g'
ended g done e = (
  done,
  g,
  refl,
  record {
    targets = e;
    sound = λ y h. inl h;
    complete = λ y h. elim h [ inl l ↦ l | inr (x, i, r) ↦ absurd i ];
  },
)

pub collect_lem :
    {to : ℕ → List ℕ} (n : ℕ) (g : List Entry) (done pending : List ℕ)
    → targets_of g ≡ to
    → Rounds to pending n
    → (all_targets : List ℕ) × (g' : List Entry) × (collect n g done pending
        ≡ some (all_targets, g'))
      × IsCollected to done pending all_targets g'
unfolding collect
collect_lem zero g done [] e r = ended g done e
collect_lem (suc n) g done [] e r = ended g done e
collect_lem zero g done (t ∷ ts) e (one_of down rest k) = absurd (omega arith)
collect_lem {to} (suc n) g done (t ∷ ts) e (one_of down rest k) =
    let e' : targets_of (touch t g) ≡ to = fun_ext (touch_targets t g) ∙ e in
    let (all_targets, g', run, c) =
      collect_lem n (touch t g) (done ++ (t ∷ [])) (ts ++ to t) e'
        (Rounds-append rest down (omega arith)) in
    (
      all_targets,
      g',
      ap (λ (f : ℕ → List ℕ). collect n (touch t g) (done ++ (t ∷ [])) (ts ++ f t)) e ∙ run,
      record {
        targets = c.targets;
        sound = λ y h. sound y (c.sound y h);
        complete = λ y h. c.complete y (complete y h);
      },
    )
  where
    sound :
        (y : ℕ)
        → IsIn y (done ++ (t ∷ [])) ⊎ Reached to (ts ++ to t) y
        → IsIn y done ⊎ Reached to (t ∷ ts) y
    sound y (inr r) = inr (Reached-back t ts y r)
    sound y (inl h) = elim (IsIn-append y done (t ∷ []) h) [
      | inl d ↦ inl d
      | inr i ↦ elim i [
        | inl same ↦ inr (t, inl refl, rw (← same) (here t))
        | inr nothing ↦ absurd nothing
      ]
    ]

    complete :
        (y : ℕ)
        → IsIn y done ⊎ Reached to (t ∷ ts) y
        → IsIn y (done ++ (t ∷ [])) ⊎ Reached to (ts ++ to t) y
    complete y (inl h) = inl (IsIn-left y done (t ∷ []) h)
    complete y (inr r) = elim (Reached-step t ts y r) [
      | inl same ↦ inl (IsIn-right y done (t ∷ []) (inl same))
      | inr later ↦ inr later
    ]
