-- ===== src/Numerics/Compare.antt =====
-- safe_compare.h and safe_minmax.h as they are compiled: plain operators on values of two types.
use native.Mathlib.Nat.{mod-eq_of_lt}
use rtc_base.Common.{
  ℕ, suc, ◌+◌, ◌-◌, ◌*◌, ◌%◌, ◌^◌, ◌≤◌, ◌<◌, ◌≡◌, ◌∙◌, refl, Bool, true, false, not, Option, some,
  none, ltb, leb, lt→ltb, le→leb, ltb_above, if◌then◌else◌, arith,
}
use rtc_base.Common.Bits.{pow_pos}
use rtc_base.Common.Int.{ℤ, pos, negsuc, eq_of_parts, ltb_ℤ, leb_ℤ, eqb_ℤ, ◌≤ℤ◌}
use rtc_base.Numerics.{IntType, static_cast, max_exponent}
use rtc_base.Numerics.Range.{Holds, int_type, signed_word, cast_pos}
use rtc_base.Numerics.Casts.{static_cast_held}

-- What the language compares two values in: small types become `int`, and of two types the larger
-- is taken, the unsigned one where they are equally large.
abbrev promote : IntType → IntType
promote T = if ltb T.size 4 then int_type true 4 else T

abbrev larger : IntType → IntType → IntType
larger a b = if ltb a.size b.size then b else a

join : Bool → Bool → IntType → IntType → IntType
join true false a b = if leb a.size b.size then b else a
join false true a b = if leb b.size a.size then a else b
join _ _ a b = larger a b

unfoldable pub common_type : IntType → IntType → IntType
unfolding join
common_type A B = join (promote A).is_signed (promote B).is_signed (promote A) (promote B)

module _ (A B : IntType) (a b : ℤ) where
  safe_op : (ℤ → ℤ → Bool) → Bool
  safe_op op = op (static_cast (common_type A B) a) (static_cast (common_type A B) b)

  pub safe_eq : Bool
  unfolding safe_op
  safe_eq = safe_op eqb_ℤ

  pub safe_ne : Bool
  unfolding safe_op
  safe_ne = safe_op (λ x y. not (eqb_ℤ x y))

  pub safe_lt : Bool
  unfolding safe_op
  safe_lt = safe_op ltb_ℤ

  pub safe_le : Bool
  unfolding safe_op
  safe_le = safe_op leb_ℤ

  pub safe_gt : Bool
  unfolding safe_op
  safe_gt = safe_op (λ x y. ltb_ℤ y x)

  pub safe_ge : Bool
  unfolding safe_op
  safe_ge = safe_op (λ x y. leb_ℤ y x)

pub safe_min : (R A B : IntType) → ℤ → ℤ → ℤ
safe_min R A B a b = if safe_lt A B a b then static_cast R a else static_cast R b

pub safe_max : (R A B : IntType) → ℤ → ℤ → ℤ
safe_max R A B a b = if safe_gt A B a b then static_cast R a else static_cast R b

-- `none` is a failed RTC_DCHECK_LE.
pub safe_clamp : (R T L H : IntType) → ℤ → ℤ → ℤ → Option ℤ
safe_clamp R T L H x lo hi =
    if safe_le L H lo hi
    then some (
        if safe_le T L x lo
        then static_cast R lo
        else if safe_ge T H x hi
        then static_cast R hi
        else static_cast R x)
    else none

-- The common type of two types holds a value of each, and has bytes.
pub record Meet (A B : IntType) (a b : ℤ) : Type 0 where
  pub some_bytes : 0 < (common_type A B).size
  pub left_held : Holds (common_type A B) a
  pub right_held : Holds (common_type A B) b

module _ {A B : IntType} {a b : ℤ} (m : Meet A B a b) where
  left_same : static_cast (common_type A B) a ≡ a
  left_same = static_cast_held (common_type A B) a m.some_bytes m.left_held

  right_same : static_cast (common_type A B) b ≡ b
  right_same = static_cast_held (common_type A B) b m.some_bytes m.right_held

  -- Where the common type of their types holds two values, the six comparisons are those of the integers.
  pub comparisons_exact :
      (safe_eq A B a b ≡ eqb_ℤ a b)
      × (safe_ne A B a b ≡ not (eqb_ℤ a b))
      × (safe_lt A B a b ≡ ltb_ℤ a b)
      × (safe_le A B a b ≡ leb_ℤ a b)
      × (safe_gt A B a b ≡ ltb_ℤ b a)
      × (safe_ge A B a b ≡ leb_ℤ b a)
  unfolding safe_eq safe_ne safe_lt safe_le safe_gt safe_ge
  comparisons_exact = rw (left_same, right_same) (refl, refl, refl, refl, refl, refl)

-- The allowed value that is nearest.
abbrev pub nearest : ℤ → ℤ → ℤ → ℤ
nearest lo hi x = if ltb_ℤ x lo then lo else if ltb_ℤ hi x then hi else x

nearest_inclusive :
    (lo hi x : ℤ)
    → lo ≤ℤ hi
    → (if leb_ℤ x lo then lo else if leb_ℤ hi x then hi else x) ≡ nearest lo hi x
nearest_inclusive lo hi x h = ground (arith, eq_of_parts x lo, eq_of_parts x hi)

-- Where the common type of each two of the types holds the two values, and the least value allowed is not
-- above the greatest, `SafeClamp` returns the nearest value that is allowed, converted to the result's type.
pub safe_clamp-nearest :
    (R T L H : IntType) (x lo hi : ℤ)
    → Meet L H lo hi
    → Meet T L x lo
    → Meet T H x hi
    → lo ≤ℤ hi
    → safe_clamp R T L H x lo hi ≡ some (static_cast R (nearest lo hi x))
unfolding safe_clamp
safe_clamp-nearest R T L H x lo hi bounds low high ordered =
    rw
      (
        (comparisons_exact bounds).3,
        (comparisons_exact low).3,
        (comparisons_exact high).5,
        ← nearest_inclusive lo hi x ordered,
      )
      (ground arith)

module _ (n : ℕ) (int_size : 4 ≤ n) where
  mixed : common_type (int_type true n) (int_type false n) ≡ int_type false n
  unfolding common_type join
  mixed = rw (ltb_above n 4 int_size) (rw (le→leb n n (omega arith)) refl)

  alike : common_type (int_type false n) (int_type false n) ≡ int_type false n
  unfolding common_type join
  alike = rw (ltb_above n 4 int_size) (ground arith)

  cast_low : (j : ℕ) → j < 2 ^ (n * 8 - 1) → static_cast (int_type false n) (pos j) ≡ pos j
  unfolding max_exponent
  cast_low j h =
      cast_pos (int_type false n) j (omega (arith, signed_word n (omega arith))) (omega arith)

  cast_wrapped :
      (k : ℕ)
      → k < 2 ^ (n * 8 - 1)
      → static_cast (int_type false n) (negsuc k) ≡ pos (2 ^ (n * 8) - suc k)
  unfolding static_cast max_exponent
  cast_wrapped k h =
      rw bits
        (rw (lt→ltb (2 ^ (n * 8) - suc k) (2 ^ (n * 8)) (omega (arith, pow_pos (n * 8)))) refl)
    where
      bits : (0 + (2 ^ (n * 8) - suc k % 2 ^ (n * 8))) % 2 ^ (n * 8) ≡ 2 ^ (n * 8) - suc k
      bits =
          rw
            (mod-eq_of_lt {n = suc k} {m = 2 ^ (n * 8)}
              (omega (arith, signed_word n (omega arith), pow_pos (n * 8 - 1))))
            (mod-eq_of_lt (omega (arith, pow_pos (n * 8))) ∙ omega arith)

above_both :
    (w lo hi : ℕ) (a b c : ℤ)
    → lo ≤ hi
    → hi < w
    → (if leb_ℤ (pos lo) (pos hi)
        then some (if leb_ℤ (pos w) (pos lo) then a else if leb_ℤ (pos hi) (pos w) then b else c)
        else none)
      ≡ some b
above_both w lo hi a b c h k = ground arith

-- A negative value of a signed type, clamped by two bounds of the unsigned type of the same size, from `int`
-- on, becomes the upper bound where that is below half of the type's range: the comparisons convert it.
pub safe_clamp_negative :
    (R : IntType) (n k lo hi : ℕ)
    → 4 ≤ n
    → k < 2 ^ (n * 8 - 1)
    → lo ≤ hi
    → hi < 2 ^ (n * 8 - 1)
    → safe_clamp R
        (int_type true n)
        (int_type false n)
        (int_type false n)
        (negsuc k)
        (pos lo)
        (pos hi)
      ≡ some (static_cast R (pos hi))
unfolding safe_clamp safe_le safe_ge safe_op
safe_clamp_negative R n k lo hi int_size in_range ordered half =
    rw (mixed n int_size, alike n int_size)
      (rw
        (
          cast_low n int_size lo (omega arith),
          cast_low n int_size hi half,
          cast_wrapped n int_size k in_range,
        )
        (above_both (2 ^ (n * 8) - suc k) lo hi _ _ _ ordered
          (omega (arith, signed_word n (omega arith)))))
