-- ===== src/Trace/Filters.antt =====
-- trace_impl_c.c: the filters of the streams.
use rtc_base.Common.{
  ℕ, ◌≡◌, ◌≢◌, inl, inr, refl, sym, ap, ◌∙◌, arith, true, false, Option, none, some, List, [], ◌∷◌,
  Bool-cases, if◌then◌else◌,
}
use rtc_base.Common.Int.{pos, to_int32}
use rtc_base.Trace.Streams.{
  TraceHandle, Trace, same_file, has_file, int_or_minus_one, set_filters, set_level_filter,
  find_filter, level_filter,
}

find_filter_set :
    (f x : ℕ) (hs : List TraceHandle)
    → has_file (some f) hs ≡ true
    → find_filter (some f) (set_filters (some f) x hs) ≡ some x
unfolding find_filter set_filters has_file
find_filter_set f x [] e = absurd cc
find_filter_set f x (h ∷ hs) e = elim (Bool-cases (same_file (some f) h.ostream.file)) [
  | inl same ↦ rw (same, same) refl
  | inr other ↦ rw (other, other) (find_filter_set f x hs (later other e))
]
  where
    later :
        same_file (some f) h.ostream.file ≡ false
        → has_file (some f) (h ∷ hs) ≡ true
        → has_file (some f) hs ≡ true
    later other e = sym (ap (λ b. if b then true else has_file (some f) hs) other) ∙ e

one_file :
    (f g : ℕ) (o : Option ℕ) → same_file (some f) o ≡ true → f ≢ g → same_file (some g) o ≡ false
one_file f g none same differ = refl
one_file f g (some h) same differ = ground arith

find_filter_other :
    (f g x : ℕ) (hs : List TraceHandle)
    → f ≢ g
    → find_filter (some g) (set_filters (some f) x hs) ≡ find_filter (some g) hs
unfolding find_filter set_filters
find_filter_other f g x [] differ = refl
find_filter_other f g x (h ∷ hs) differ = elim (Bool-cases (same_file (some f) h.ostream.file)) [
  | inl same ↦
      rw (same, one_file f g h.ostream.file same differ) (find_filter_other f g x hs differ)
  | inr other ↦ elim (Bool-cases (same_file (some g) h.ostream.file)) [
    | inl found ↦ rw (other, found) refl
    | inr further ↦ rw (other, further) (find_filter_other f g x hs differ)
  ]
]

-- `WebRtcTrace_set_level_filter` of a stream sets what `WebRtcTrace_level_filter` then tells of it, and no
-- other stream's filter.
pub level_filter-set_level_filter :
    (f g x : ℕ) (t : Trace)
    → has_file (some f) t.handles ≡ true
    → f ≢ g
    → (level_filter (some f) (set_level_filter (some f) x t) ≡ to_int32 (pos x))
      × (level_filter (some g) (set_level_filter (some f) x t) ≡ level_filter (some g) t)
unfolding level_filter set_level_filter
level_filter-set_level_filter f g x t there differ = (
  ap int_or_minus_one (find_filter_set f x t.handles there),
  ap int_or_minus_one (find_filter_other f g x t.handles differ),
)
