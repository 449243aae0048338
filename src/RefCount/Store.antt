-- ===== src/RefCount/Store.antt =====
-- ref_counter.h and ref_counted_object.h: the counts of the objects of one heap. An object is a number;
-- `none` is an access to an object that was deleted.
use native.Mathlib.Nat.{add-zero}
use rtc_base.Common.{
  ℕ, suc, ◌+◌, ◌<◌, ◌≡◌, ◌⊎◌, inl, inr, refl, sym, Bool, true, false, Option, none, some, ◌==◌,
  if◌then◌else◌, arith, ap, ◌∙◌, ==_iff, zero, Bool-cases, ==_same, ==_above,
}
use rtc_base.Common.Int.{ℤ, pos, ◌+ℤ◌, ◌-ℤ◌, eqb_ℤ}

-- The function with one value changed.
abbrev pub at : {A : Type 0} → (ℕ → A) → ℕ → A → ℕ → A
at f o v x = if x == o then v else f x

-- `ref_count` is the counter of each object, an int that does not overflow.
pub record Heap : Type 0 where
  pub ref_count : ℕ → ℤ
  pub alive : ℕ → Bool

pub data RefCountReleaseStatus : Type 0 where
  dropped_last_ref other_refs_remained : RefCountReleaseStatus

inc_ref : ℤ → ℤ
inc_ref c = c +ℤ pos 1

-- The new count, and the status.
unfoldable pub dec_ref : ℤ → ℤ × RefCountReleaseStatus
dec_ref c =
    let after_subtract = c -ℤ pos 1 in
    (after_subtract, if eqb_ℤ after_subtract (pos 0) then dropped_last_ref else other_refs_remained)

counter_has_one_ref : ℤ → Bool
counter_has_one_ref c = eqb_ℤ c (pos 1)

-- `new RefCountedObject`.
pub make_object : ℕ → Heap → Heap
make_object o h = record { ref_count = at h.ref_count o (pos 0); alive = at h.alive o true }

pub add_ref : ℕ → Heap → Option Heap
add_ref o h =
    if h.alive o
    then some (record h { ref_count = at h.ref_count o (inc_ref (h.ref_count o)) })
    else none

-- `delete this` after the last reference.
unfoldable pub dropped : RefCountReleaseStatus → ℕ → Heap → Heap
dropped dropped_last_ref o h = record h { alive = at h.alive o false }
dropped other_refs_remained o h = h

unfoldable pub release : ℕ → Heap → Option (Heap × RefCountReleaseStatus)
release o h =
    let (c, status) = dec_ref (h.ref_count o) in
    if h.alive o
    then some (dropped status o (record h { ref_count = at h.ref_count o c }), status)
    else none

pub has_one_ref : ℕ → Heap → Option Bool
unfolding counter_has_one_ref
has_one_ref o h = if h.alive o then some (counter_has_one_ref (h.ref_count o)) else none

-- What is so of an object with `n` references: it counts them while it lives, and has none afterwards.
abbrev pub Holds : ℤ → Bool → ℕ → Type 0
Holds c lives n = ((lives ≡ true) × (c ≡ pos n)) ⊎ ((lives ≡ false) × (n ≡ 0))

abbrev pub Counts : Heap → (ℕ → ℕ) → Type 0
Counts h refs = (o : ℕ) → Holds (h.ref_count o) (h.alive o) (refs o)

-- Every object whose last reference went away was deleted.
abbrev pub Reaped : Heap → (ℕ → ℕ) → (ℕ → ℕ) → Type 0
Reaped h before after = (o : ℕ) → 0 < before o → after o ≡ 0 → h.alive o ≡ false

-- 1 at the object, 0 elsewhere.
abbrev pub only : ℕ → ℕ → ℕ
only o x = if x == o then 1 else 0

-- A reference that is counted is one to a living object.
pub counted_lives :
    (h : Heap) (refs : ℕ → ℕ) (o : ℕ) → Counts h refs → 0 < refs o → h.alive o ≡ true
counted_lives h refs o c some_ref = elim (c o) [
  | inl (lives, _) ↦ lives
  | inr (_, nothing) ↦ absurd (omega arith)
]

at_self : {A : Type 0} (f : ℕ → A) (o : ℕ) (v : A) → at f o v o ≡ v
at_self f o v = rw (==_same o) refl

inc_counted : (c : ℤ) (n : ℕ) → c ≡ pos n → inc_ref c ≡ pos (n + 1)
unfolding inc_ref ◌+ℤ◌
inc_counted c n e = rw e (ground arith)

dec_counted :
    (c : ℤ) (k : ℕ)
    → c ≡ pos (suc k)
    → dec_ref c ≡ (pos k, if k == 0 then dropped_last_ref else other_refs_remained)
unfolding dec_ref ◌-ℤ◌
dec_counted c k e = rw e (ground arith)

-- `AddRef` on a living object.
pub add_ref-Counts :
    (h : Heap) (refs : ℕ → ℕ) (o : ℕ)
    → Counts h refs
    → h.alive o ≡ true
    → (h' : Heap) × (add_ref o h ≡ some h') × Counts h' (λ x. refs x + only o x)
unfolding add_ref
add_ref-Counts h refs o c lives = (
  record h { ref_count = at h.ref_count o (inc_ref (h.ref_count o)) },
  rw lives refl,
  λ x. elim (Bool-cases (x == o)) [
    | inl t ↦ rw t (here x ((==_iff x o).0 t))
    | inr f ↦ rw (f, add-zero) (c x)
  ],
)
  where
    here : (x : ℕ) → x ≡ o → Holds (inc_ref (h.ref_count o)) (h.alive x) (refs x + 1)
    here x e =
        rw e (elim (c o) [ inl (l, k) ↦ inl (l, inc_counted _ _ k) | inr (dead, _) ↦ absurd cc ])

-- `Release` of a reference that is counted.
pub release-Counts :
    (h : Heap) (refs left : ℕ → ℕ) (o : ℕ)
    → Counts h refs
    → ((x : ℕ) → refs x ≡ left x + only o x)
    → (h' : Heap) × (status : RefCountReleaseStatus) × (release o h ≡ some (h', status))
      × Counts h' left
      × Reaped h' refs left
unfolding release dropped
release-Counts h refs left o c split = last (left o) refl
  where
    one_more : refs o ≡ suc (left o)
    one_more = split o ∙ rw (==_same o) (omega arith)

    lives : h.alive o ≡ true
    lives = counted_lives h refs o c (omega (arith, one_more))

    counted : h.ref_count o ≡ pos (suc (left o))
    counted = elim (c o) [
      | inl (_, k) ↦ k ∙ ap pos one_more
      | inr (_, nothing) ↦ absurd (omega (arith, one_more))
    ]

    same : (x : ℕ) → (x == o) ≡ false → refs x ≡ left x
    same x f = split x ∙ rw (f, add-zero) refl

    elsewhere : (x : ℕ) → (x == o) ≡ false → Holds (h.ref_count x) (h.alive x) (left x)
    elsewhere x f = rw (← same x f) (c x)

    kept : (x : ℕ) → (x == o) ≡ false → 0 < refs x → left x ≡ 0 → h.alive x ≡ false
    kept x f some_ref none_left = absurd (omega (arith, same x f))

    there : (x : ℕ) → (x == o) ≡ true → x ≡ o
    there x t = (==_iff x o).0 t

    last :
        (k : ℕ)
        → left o ≡ k
        → (h' : Heap) × (status : RefCountReleaseStatus) × (release o h ≡ some (h', status))
          × Counts h' left
          × Reaped h' refs left
    last zero e = (
      record { ref_count = at h.ref_count o (pos 0); alive = at h.alive o false },
      dropped_last_ref,
      rw (lives, dec_counted _ _ (counted ∙ ap (λ n. pos (suc n)) e)) refl,
      λ x. elim (Bool-cases (x == o)) [
        | inl t ↦ rw t (inr (refl, ap left (there x t) ∙ e))
        | inr f ↦ rw f (elsewhere x f)
      ],
      λ x some_ref none_left. elim (Bool-cases (x == o)) [
        | inl t ↦ rw t refl
        | inr f ↦ rw f (kept x f some_ref none_left)
      ],
    )
    last (suc k) e = (
      record h { ref_count = at h.ref_count o (pos (suc k)) },
      other_refs_remained,
      rw
          (
            lives,
            dec_counted _ _ (counted ∙ ap (λ n. pos (suc n)) e),
            ==_above (suc k) 0 (omega arith),
          )
          refl,
      λ x. elim (Bool-cases (x == o)) [
        | inl t ↦
            rw t (inl (ap h.alive (there x t) ∙ lives, ap pos (sym (ap left (there x t) ∙ e))))
        | inr f ↦ rw f (elsewhere x f)
      ],
      λ x some_ref none_left. elim (Bool-cases (x == o)) [
        | inl t ↦ absurd (omega (arith, ap left (there x t) ∙ e))
        | inr f ↦ kept x f some_ref none_left
      ],
    )
