-- ===== src/View/Parts.antt =====
-- Parts of a view.
use rtc_base.Common.{
  ℕ, true, false, not, ◌&&◌, ◌+◌, ◌-◌, min, ◌<◌, ◌≤◌, ◌≡◌, refl, Bool, none, some, ◌==◌, Bool-cases,
  inl, inr, ltb→lt, if◌then◌else◌, ltb, arith,
}
use rtc_base.View.{View, view, subscript, subview}

-- What the checks of the constructor ask for.
pub record IsView (v : View) : Type 0 where
  pub nowhere : v.size ≡ 0 → v.address ≡ 0
  pub somewhere : 0 < v.size → 0 < v.address

reach_lem :
    (offset size : ℕ) (v : View)
    → IsView v
    → offset < v.size
    → (idx : ℕ)
    → (ltb idx (min size (v.size - offset)) && not (v.address + offset == 0))
      ≡ (ltb idx size && (ltb (offset + idx) v.size && not (v.address == 0)))
reach_lem offset size v h o idx = ground arith

if_and {ℓ} :
    {A : Type ℓ} (b c : Bool) (x y : A)
    → (if b && c then x else y) ≡ (if b then if c then x else y else y)
if_and true c x y = refl
if_and false c x y = refl

there_lem : (a o i : ℕ) → a + o + i ≡ a + (o + i)
there_lem a o i = omega arith

module _ {ℓ} {A : Type ℓ} (memory : ℕ → A) where
  inside_lem :
      (offset size : ℕ) (v : View)
      → IsView v
      → offset < v.size
      → (idx : ℕ)
      → subscript memory
          (record { address = v.address + offset; size = min size (v.size - offset) })
          idx
        ≡ (if ltb idx size then subscript memory v (offset + idx) else none)
  unfolding subscript
  inside_lem offset size v h o idx =
      rw (reach_lem offset size v h o idx, there_lem v.address offset idx)
        (if_and (ltb idx size) (ltb (offset + idx) v.size && not (v.address == 0))
          (some (memory (v.address + (offset + idx)))) none)

  outside_lem :
      (offset size : ℕ) (v : View)
      → v.size ≤ offset
      → (idx : ℕ)
      → subscript memory (record { address = 0; size = 0 }) idx
        ≡ (if ltb idx size then subscript memory v (offset + idx) else none)
  unfolding subscript
  outside_lem offset size v o idx = ground arith

-- In a view that keeps what the constructor asks for, a part of size 0 from an offset inside it fails a check.
pub part_of_no_size :
    (offset : ℕ) (v : View) → IsView v → offset < v.size → subview offset 0 v ≡ none
unfolding subview view
part_of_no_size offset v h o = ground arith

IsView-inside :
    (offset size : ℕ) (v : View)
    → IsView v
    → offset < v.size
    → 0 < size
    → IsView (record { address = v.address + offset; size = min size (v.size - offset) })
IsView-inside offset size v h o p = record {
  nowhere = λ e. ground arith;
  somewhere = λ e. ground arith;
}

view-inside :
    (offset size : ℕ) (v : View)
    → IsView v
    → offset < v.size
    → 0 < size
    → subview offset size v
      ≡ some (record { address = v.address + offset; size = min size (v.size - offset) })
unfolding subview view
view-inside offset size v h o p = ground arith

view-outside :
    (offset size : ℕ) (v : View)
    → v.size ≤ offset
    → subview offset size v ≡ some (record { address = 0; size = 0 })
unfolding subview view
view-outside offset size v o = ground arith

not_lt : (a b : ℕ) → ltb a b ≡ false → b ≤ a
not_lt a b h = ground arith

-- Any part of a view that keeps what the constructor asks for, of a size other than 0, from any offset, is such a view
-- again: it reads in bounds what the view reads there, and nothing elsewhere.
pub subview_lem {ℓ} :
    {A : Type ℓ} (memory : ℕ → A) (offset size : ℕ) (v : View)
    → IsView v
    → 0 < size
    → (part : View) × (subview offset size v ≡ some part)
      × IsView part
      × ((idx : ℕ)
          → subscript memory part idx
            ≡ (if ltb idx size then subscript memory v (offset + idx) else none))
subview_lem memory offset size v h p = elim (Bool-cases (ltb offset v.size)) [
  | inl e ↦ (
    record { address = v.address + offset; size = min size (v.size - offset) },
    view-inside offset size v h (ltb→lt offset v.size e) p,
    IsView-inside offset size v h (ltb→lt offset v.size e) p,
    inside_lem memory offset size v h (ltb→lt offset v.size e),
  )
  | inr e ↦ (
    record { address = 0; size = 0 },
    view-outside offset size v (not_lt offset v.size e),
    record { nowhere = λ _. refl; somewhere = λ l. l },
    outside_lem memory offset size v (not_lt offset v.size e),
  )
]
