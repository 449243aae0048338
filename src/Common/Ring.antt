-- ===== src/Common/Ring.antt =====
-- Places on a ring, and lists of what stands at successive places.
use native.Mathlib.Nat.{mod-eq_of_lt, mod-lt, mod-add-mod, mod-eq-sub-mod}
use rtc_base.Common.{
  ℕ, zero, suc, ◌+◌, ◌-◌, ◌%◌, ◌<◌, ◌≡◌, ◌≢◌, refl, ◌∙◌, sym, ap, ap₂, List, [], ◌∷◌, ◌++◌, arith,
  length, get_or, set, dec_lt,
}

module _ {A : Type 0} where
  pub get_or-set_here :
      (xs : List A) (i : ℕ) (v d : A) → i < length xs → get_or (set xs i v) i d ≡ v
  get_or-set_here [] i v d h = absurd (omega arith)
  get_or-set_here (x ∷ xs) zero v d h = refl
  get_or-set_here (x ∷ xs) (suc i) v d h = get_or-set_here xs i v d (omega arith)

  pub get_or-set_elsewhere :
      (xs : List A) (i j : ℕ) (v d : A) → i ≢ j → get_or (set xs i v) j d ≡ get_or xs j d
  get_or-set_elsewhere [] i j v d h = refl
  get_or-set_elsewhere (x ∷ xs) zero zero v d h = absurd (h refl)
  get_or-set_elsewhere (x ∷ xs) zero (suc j) v d h = refl
  get_or-set_elsewhere (x ∷ xs) (suc i) zero v d h = refl
  get_or-set_elsewhere (x ∷ xs) (suc i) (suc j) v d h =
      get_or-set_elsewhere xs i j v d (λ e. h (ap suc e))

  -- f 0, f 1 and so on: `n` of them
  abbrev pub tabulate : ℕ → (ℕ → A) → List A
  tabulate zero f = []
  tabulate (suc n) f = f 0 ∷ tabulate n (λ i. f (suc i))

  pub tabulate_last : (n : ℕ) (f : ℕ → A) → tabulate (suc n) f ≡ tabulate n f ++ (f n ∷ [])
  tabulate_last zero f = refl
  tabulate_last (suc n) f = ap (λ l. f 0 ∷ l) (tabulate_last n (λ i. f (suc i)))

  pub tabulate_same :
      (n : ℕ) (f g : ℕ → A) → ((i : ℕ) → i < n → f i ≡ g i) → tabulate n f ≡ tabulate n g
  tabulate_same zero f g h = refl
  tabulate_same (suc n) f g h =
      ap₂ ◌∷◌ (h 0 (omega arith))
        (tabulate_same n (λ i. f (suc i)) (λ i. g (suc i)) (λ i l. h (suc i) (omega arith)))

  pub length-tabulate : (n : ℕ) (f : ℕ → A) → length (tabulate n f) ≡ n
  length-tabulate zero f = refl
  length-tabulate (suc n) f = ap suc (length-tabulate n (λ i. f (suc i)))

-- Two places less than a turn apart differ.
pub apart : (size a d : ℕ) → 0 < d → d < size → (a + d) % size ≢ a % size
apart size a d some short same = elim (dec_lt (a % size + d) size) [
  | yes before ↦ omega (arith, same, mod-add-mod a size d, mod-eq_of_lt before)
  | no past ↦ omega (
    arith,
    same,
    mod-add-mod a size d,
    mod-eq-sub-mod {n = a % size + d} {m = size} (omega arith),
    mod-lt a {m = size} (omega arith),
    mod-eq_of_lt {n = a % size + d - size} {m = size}
        (omega (arith, mod-lt a {m = size} (omega arith))),
  )
]

pub shift_mod : (size d a b : ℕ) → a % size ≡ b % size → (a + d) % size ≡ (b + d) % size
shift_mod size d a b same =
    sym (mod-add-mod a size d) ∙ ap (λ n. (n + d) % size) same ∙ mod-add-mod b size d

-- A reduction of the place that the next ones are counted from makes no difference.
pub from_mod : (size a d : ℕ) {b : ℕ} → b ≡ a % size → (b + d) % size ≡ (a + d) % size
from_mod size a d same = ap (λ n. (n + d) % size) same ∙ mod-add-mod a size d

-- Less than a turn from the same place.
pub places_differ : (size a i j : ℕ) → i < size → j < size → i ≢ j → (a + i) % size ≢ (a + j) % size
places_differ size a i j hi hj differ same = elim (dec_lt i j) [
  | yes before ↦
      apart size (a + i) (j - i) (omega arith) (omega arith)
        (ap (λ n. n % size) (omega arith) ∙ sym same)
  | no after ↦
      apart size (a + j) (i - j) (omega (arith, differ)) (omega arith)
        (ap (λ n. n % size) (omega (arith, after)) ∙ same)
]
