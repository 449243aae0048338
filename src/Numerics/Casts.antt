-- ===== src/Numerics/Casts.antt =====
-- What `saturated_cast` and `checked_cast` return.
use rtc_base.Common.{
  ℕ, ◌+◌, ◌-◌, ◌*◌, ◌<◌, ◌≡◌, refl, Bool, true, false, some, none, arith, if◌then◌else◌, ap,
  ltb-cases, inl, inr,
}
use rtc_base.Common.Bits.{pow_pos}
use rtc_base.Common.Int.{ℤ, pos, negsuc, ltb_ℤ, ◌≤ℤ◌, pos_part, neg_part}
use rtc_base.Numerics.{
  IntType, max_exponent, type_max, type_min, static_cast, is_value_in_range, checked_cast,
  saturated_cast,
}
use rtc_base.Numerics.Range.{Holds, int_type, cast_pos, cast_neg, signed_word, range_check-classify}

cast_held :
    (s : Bool) (n : ℕ) (v : ℤ) → 0 < n → Holds (int_type s n) v → static_cast (int_type s n) v ≡ v
unfolding type_max type_min max_exponent
cast_held true n (pos k) some_bytes h =
    cast_pos (int_type true n) k (omega (arith, h.1, pow_pos (n * 8 - 1))) (omega arith)
cast_held true n (negsuc k) some_bytes h =
    cast_neg (int_type true n) k (omega (arith, h.0, pow_pos (n * 8 - 1)))
      (signed_word n some_bytes)
cast_held false n (pos k) some_bytes h =
    cast_pos (int_type false n) k (omega (arith, h.1, pow_pos (n * 8))) (omega arith)
cast_held false n (negsuc k) some_bytes h = absurd (omega (arith, h.0))

-- A conversion keeps a value that its target holds.
pub static_cast_held : (T : IntType) (v : ℤ) → 0 < T.size → Holds T v → static_cast T v ≡ v
static_cast_held T v some_bytes h = cast_held T.is_signed T.size v some_bytes h

-- The value of the type that is nearest.
abbrev pub clamp_to : IntType → ℤ → ℤ
clamp_to T v =
    if ltb_ℤ v (type_min T) then type_min T else if ltb_ℤ (type_max T) v then type_max T else v

-- A value against a range, with the tests on its parts.
data Side (lo hi v : ℤ) : Type 0 where
  below : ltb_ℤ v lo ≡ true → ¬ (lo ≤ℤ v) → Side lo hi v
  above : ltb_ℤ v lo ≡ false → ltb_ℤ hi v ≡ true → ¬ (v ≤ℤ hi) → Side lo hi v
  inside : ltb_ℤ v lo ≡ false → ltb_ℤ hi v ≡ false → lo ≤ℤ v → v ≤ℤ hi → Side lo hi v

side : (lo hi v : ℤ) → Side lo hi v
side lo hi v = elim (ltb-cases (pos_part v + neg_part lo) (pos_part lo + neg_part v)) [
  | inl (lt, e) ↦ below e (λ h. omega arith)
  | inr (ge, e) ↦ elim (ltb-cases (pos_part hi + neg_part v) (pos_part v + neg_part hi)) [
    | inl (lt, f) ↦ above e f (λ h. omega arith)
    | inr (le, f) ↦ inside e f ge le
  ]
]

module _ (dst src : IntType) (v : ℤ) (some_dst : 0 < dst.size) (some_src : 0 < src.size)
    (held : Holds src v) where
  -- `saturated_cast` of a value of the source type, both of them types of integers with some bytes, returns the
  -- target's value that is nearest: the value itself where the target holds it.
  pub saturated_cast-clamp_to : saturated_cast dst src v ≡ some (clamp_to dst v)
  unfolding saturated_cast
  saturated_cast-clamp_to =
      rw (range_check-classify dst src v some_dst some_src held)
        (elim (side (type_min dst) (type_max dst) v) [
          | below e _ ↦ rw e refl
          | above e f _ ↦ rw (e, f) refl
          | inside e f lo hi ↦ rw (e, f) (ap some (static_cast_held dst v some_dst (lo, hi)))
        ])

  -- `checked_cast` of a value of the source type, both of them types of integers with some bytes, returns a
  -- value that the target holds unchanged, and fails its check on any other.
  pub checked_cast_exact :
      (Holds dst v → checked_cast dst src v ≡ some v)
      × (¬ Holds dst v → checked_cast dst src v ≡ none)
  unfolding checked_cast is_value_in_range
  checked_cast_exact =
      rw (range_check-classify dst src v some_dst some_src held)
        (elim (side (type_min dst) (type_max dst) v) [
          | below e out ↦ rw e (λ h. absurd (out h.0), λ _. refl)
          | above e f out ↦ rw (e, f) (λ h. absurd (out h.1), λ _. refl)
          | inside e f lo hi ↦
              rw (e, f)
                (λ h. ap some (static_cast_held dst v some_dst h), λ out. absurd (out (lo, hi)))
        ])
