-- ===== src/Buffer/Block.antt =====
-- buffer.h: `IsConsistent`, the elements of a buffer, and what an access to its block changes.
use rtc_base.Common.{
  ℕ, zero, suc, ◌+◌, ◌≤◌, ◌≡◌, refl, ap, ◌∙◌, arith, Option, none, some, List, [], ◌∷◌, ◌++◌,
  length, length-append, take, drop, length-take, length-drop, take-append, take-append_within, min,
  dec_le,
}
use rtc_base.Buffer.State.{Buffer, cells, overwrite, overwrite_data}

module _ {ℓ} {A : Type ℓ} where
  -- `IsConsistent`, where the capacity is the length of the block. Without a block both are 0.
  pub record IsConsistent (b : Buffer A) : Type ℓ where
    pub whole : length (cells b.data_) ≡ b.capacity
    pub within : b.size ≤ b.capacity

  -- What `data()` and `size()` show.
  abbrev pub elements : Buffer A → List A
  elements b = take b.size (cells b.data_)

  pub take-take : (n m : ℕ) (xs : List A) → n ≤ m → take n (take m xs) ≡ take n xs
  take-take zero m xs h = refl
  take-take (suc n) zero xs h = absurd (omega arith)
  take-take (suc n) (suc m) [] h = refl
  take-take (suc n) (suc m) (x ∷ xs) h = ap (λ l. x ∷ l) (take-take n m xs (omega arith))

  pub take_all : (n : ℕ) (xs : List A) → length xs ≤ n → take n xs ≡ xs
  take_all zero [] h = refl
  take_all zero (x ∷ xs) h = absurd (omega arith)
  take_all (suc n) [] h = refl
  take_all (suc n) (x ∷ xs) h = ap (λ l. x ∷ l) (take_all n xs (omega arith))

  pub take-take-min : (n m : ℕ) (xs : List A) → take n (take m xs) ≡ take (min n m) xs
  take-take-min n m xs = elim (dec_le n m) [
    | yes h ↦ take-take n m xs h ∙ ap (λ k. take k xs) (omega arith)
    | no h ↦
        take_all n (take m xs) (rw (length-take m xs) (omega (arith, h)))
        ∙ ap (λ k. take k xs) (omega (arith, h))
  ]

  pub length-overwrite :
      (offset : ℕ) (source block : List A)
      → offset + length source ≤ length block
      → length (overwrite offset source block) ≡ length block
  unfolding overwrite
  length-overwrite offset source block h =
      length-append (take offset block) (source ++ drop (offset + length source) block)
      ∙ rw
          (
            length-append source (drop (offset + length source) block),
            length-take offset block,
            length-drop (offset + length source) block,
          )
          (omega arith)

  -- What stands before the offset stays.
  pub take-overwrite_before :
      (n offset : ℕ) (source block : List A)
      → n ≤ offset
      → offset ≤ length block
      → take n (overwrite offset source block) ≡ take n block
  unfolding overwrite
  take-overwrite_before n offset source block h inside =
      take-append_within (take offset block) (source ++ drop (offset + length source) block) n
        (rw (length-take offset block) (omega arith))
      ∙ take-take n offset block h

  -- What was written stands behind it.
  pub take-overwrite :
      (offset n : ℕ) (source block : List A)
      → n ≤ length source
      → offset ≤ length block
      → take (offset + n) (overwrite offset source block) ≡ take offset block ++ take n source
  unfolding overwrite
  take-overwrite offset n source block h inside =
      take-append (take offset block) (source ++ drop (offset + length source) block) (offset + n) n
        (rw (length-take offset block) (omega arith))
      ∙ ap (λ l. take offset block ++ l)
          (take-append_within source (drop (offset + length source) block) n h)

  pub cells-overwrite_data :
      (offset : ℕ) (source : List A) (d : Option (List A))
      → offset + length source ≤ length (cells d)
      → cells (overwrite_data offset source d) ≡ overwrite offset source (cells d)
  unfolding overwrite
  cells-overwrite_data offset source (some block) h = refl
  cells-overwrite_data zero [] none h = refl
  cells-overwrite_data zero (x ∷ source) none h = absurd (omega arith)
  cells-overwrite_data (suc offset) source none h = absurd (omega arith)
