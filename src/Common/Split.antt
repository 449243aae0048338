-- ===== src/Common/Split.antt =====
-- `take` and `drop` of a list in two parts.
use Prim.Native.Nat.{ℕ, zero, suc, ◌+◌, ◌≤◌}
use mathlib.Core.Path.{◌≡◌, refl, ap}
use mathlib.Core.List.{List, [], ◌∷◌, ◌++◌}
use native.Mathlib.Omega.{arith}
use rtc_base.Common.Lists.{length, take, drop}

module _ {ℓ} {A : Type ℓ} where
  -- Past the first part.
  pub take-append :
      (xs ys : List A) (n k : ℕ) → n ≡ length xs + k → take n (xs ++ ys) ≡ xs ++ take k ys
  take-append [] ys n k e = ap (λ i. take i ys) (omega arith)
  take-append (x ∷ xs) ys zero k e = absurd (omega arith)
  take-append (x ∷ xs) ys (suc n) k e = ap (λ l. x ∷ l) (take-append xs ys n k (omega arith))

  pub drop-append : (xs ys : List A) (n k : ℕ) → n ≡ length xs + k → drop n (xs ++ ys) ≡ drop k ys
  drop-append [] ys n k e = ap (λ i. drop i ys) (omega arith)
  drop-append (x ∷ xs) ys zero k e = absurd (omega arith)
  drop-append (x ∷ xs) ys (suc n) k e = drop-append xs ys n k (omega arith)

  -- Within the first part.
  pub take-append_within : (xs ys : List A) (n : ℕ) → n ≤ length xs → take n (xs ++ ys) ≡ take n xs
  take-append_within [] ys zero h = refl
  take-append_within [] ys (suc n) h = absurd (omega arith)
  take-append_within (x ∷ xs) ys zero h = refl
  take-append_within (x ∷ xs) ys (suc n) h =
      ap (λ l. x ∷ l) (take-append_within xs ys n (omega arith))

  pub drop-append_within :
      (xs ys : List A) (n : ℕ) → n ≤ length xs → drop n (xs ++ ys) ≡ drop n xs ++ ys
  drop-append_within [] ys zero h = refl
  drop-append_within [] ys (suc n) h = absurd (omega arith)
  drop-append_within (x ∷ xs) ys zero h = refl
  drop-append_within (x ∷ xs) ys (suc n) h = drop-append_within xs ys n (omega arith)

  pub drop-add : (m n : ℕ) (xs : List A) → drop (m + n) xs ≡ drop n (drop m xs)
  drop-add zero n xs = ap (λ i. drop i xs) (omega arith)
  drop-add (suc m) n [] = go (suc m + n) n
    where
      go : (i j : ℕ) → drop {A = A} i [] ≡ drop j []
      go zero zero = refl
      go zero (suc j) = refl
      go (suc i) zero = refl
      go (suc i) (suc j) = refl
  drop-add (suc m) n (x ∷ xs) =
      let shift : suc m + n ≡ suc (m + n) = omega arith in rw shift (drop-add m n xs)

  pub drop_all : (n : ℕ) (xs : List A) → length xs ≤ n → drop n xs ≡ []
  drop_all zero [] h = refl
  drop_all zero (x ∷ xs) h = absurd (omega arith)
  drop_all (suc n) [] h = refl
  drop_all (suc n) (x ∷ xs) h = drop_all n xs (omega arith)
