-- ===== src/Trace/Parts.antt =====
-- trace_impl_c.c: what each part of a line puts in the buffer, and how long it is.
use rtc_base.Common.{
  ℕ, zero, suc, ◌+◌, ◌-◌, ◌*◌, ◌/◌, ◌%◌, ◌≤◌, ◌<◌, ◌≡◌, refl, ap, ◌∙◌, sym, arith, List, [], ◌∷◌,
  ◌++◌, length, replicate, length-append, length-replicate, take, Option, none, some, append-nil,
  append_assoc, ◌==◌, Bool, true, ◌&&◌,
}
use rtc_base.Common.Int.{ℤ, pos, negsuc}
use rtc_base.Trace.Message.{printed}
use rtc_base.Trace.Head.{
  codes, digits, unsigned_text, signed_text, pad, sprintf, Part, find_text, level_texts, put_level,
  TimeOfDay, time_text, module_texts, id_text, put_module, thread_text, ◌then_add◌,
}
use Prim.Native.String.{String}

-- 10 to a power
abbrev pub ten_to : ℕ → ℕ
ten_to zero = 1
ten_to (suc j) = 10 * ten_to j

length-digits : (j most n : ℕ) → n < ten_to (suc j) → length (digits most n) ≤ suc j
unfolding digits
length-digits j zero n h = omega arith
length-digits zero (suc most) n h = ground arith
length-digits (suc j) (suc most) n h = ground (
  arith,
  length-append (digits most (n / 10)) ((b'0' + n % 10) ∷ []),
  length-digits j most (n / 10) (omega arith),
)

length-pad : (width : ℕ) (text : List ℕ) → length text ≤ width → length (pad width text) ≡ width
unfolding pad
length-pad width text h =
    length-append (replicate (width - length text) b' ') text
    ∙ omega (arith, length-replicate {A = ℕ} (width - length text) b' ')

-- A part that puts a text where it starts and returns its length.
pub record Puts (text : List ℕ) (part : Part) : Type 0 where
  pub len : (offset : ℕ) (buffer : List ℕ) → (part offset buffer).0 ≡ length text
  pub size :
      (offset : ℕ) (buffer : List ℕ)
      → offset + length text < length buffer
      → length (part offset buffer).1 ≡ length buffer
  pub kept :
      (offset : ℕ) (buffer : List ℕ)
      → offset + length text < length buffer
      → take (offset + length text) (part offset buffer).1 ≡ take offset buffer ++ text

pub sprintf-Puts :
    (n : ℕ) (text : List ℕ)
    → n ≡ length text
    → Puts text (λ offset buffer. (n, sprintf offset text buffer))
unfolding sprintf
sprintf-Puts n text e = record {
  len = λ offset buffer. e;
  size = λ offset buffer h. (printed offset text buffer (omega arith)).0;
  kept = λ offset buffer h. (printed offset text buffer (omega arith)).1;
}

nothing-Puts : Puts [] (λ offset buffer. (0, buffer))
nothing-Puts = record {
  len = λ offset buffer. refl;
  size = λ offset buffer h. refl;
  kept = λ offset buffer h.
      ap (λ n. take n buffer) (omega arith) ∙ sym (append-nil (take offset buffer));
}

pub then_add-Puts : (t u : List ℕ) (f g : Part) → Puts t f → Puts u g → Puts (t ++ u) (f then_add g)
unfolding ◌then_add◌
then_add-Puts t u f g p q = record {
  len = λ offset buffer. omega (
    arith,
    p.len offset buffer,
    q.len (offset + (f offset buffer).0) (f offset buffer).1,
    length-append t u,
  );
  size = λ offset buffer h.
      let room : offset + length t + length u < length buffer =
        omega (arith, h, length-append t u) in
      let same = p.size offset buffer (omega arith) in
      rw (p.len offset buffer)
        (q.size (offset + length t) (f offset buffer).1 (omega (arith, same)) ∙ same);
  kept = λ offset buffer h.
      let room : offset + length t + length u < length buffer =
        omega (arith, h, length-append t u) in
      let same = p.size offset buffer (omega arith) in
      let whole : offset + length (t ++ u) ≡ offset + length t + length u =
        omega (arith, length-append t u) in
      rw (p.len offset buffer, whole)
        (q.kept (offset + length t) (f offset buffer).1 (omega (arith, same))
          ∙ ap (λ l. l ++ u) (p.kept offset buffer (omega arith))
          ∙ append_assoc (take offset buffer) t u);
}

pub all_long : ℕ → List (ℕ × String) → Bool
all_long n [] = true
all_long n ((k, text) ∷ rest) = (length (codes text) == n) && all_long n rest

pub find_text-all_long :
    (n key : ℕ) (texts : List (ℕ × String)) (text : String)
    → all_long n texts ≡ true
    → find_text key texts ≡ some text
    → length (codes text) ≡ n
unfolding all_long find_text
find_text-all_long n key [] text all e = cc
find_text-all_long n key ((k, t) ∷ rest) text all e =
    ground (arith, find_text-all_long n key rest text)

pub levels_long : all_long 12 level_texts ≡ true
unfolding all_long
levels_long = refl

pub modules_long : all_long 13 module_texts ≡ true
unfolding all_long
modules_long = refl

abbrev pub text_of : Option String → List ℕ
text_of none = []
text_of (some text) = codes text

pub put_level-Puts :
    (found : Option String)
    → ((text : String) → found ≡ some text → length (codes text) ≡ 12)
    → Puts (text_of found) (put_level found)
unfolding put_level
put_level-Puts none long = nothing-Puts
put_level-Puts (some text) long = sprintf-Puts 12 (codes text) (sym (long text refl))

abbrev pub module_text : Option String → ℤ → List ℕ
module_text none id = []
module_text (some text) id = codes text ++ id_text id

-- A number that a field of so many characters holds.
abbrev pub Fits : ℕ → ℤ → Type 0
Fits j (pos n) = n < ten_to j
Fits j (negsuc n) = n + 1 < ten_to (j - 1)

length-id_text : (id : ℤ) → Fits 11 id → length (id_text id) ≡ 12
length-id_text (pos n) h =
    length-append (pad 11 (unsigned_text n)) (codes ";")
    ∙ ap (λ m. m + 1) (length-pad 11 (unsigned_text n) (length-digits 10 20 n h))
length-id_text (negsuc n) h =
    length-append (pad 11 (signed_text (negsuc n))) (codes ";")
    ∙ ap (λ m. m + 1)
        (length-pad 11 (signed_text (negsuc n)) (omega (arith, length-digits 9 20 (n + 1) h)))

pub put_module-Puts :
    (found : Option String) (id : ℤ)
    → ((text : String) → found ≡ some text → length (codes text) ≡ 13)
    → Fits 11 id
    → Puts (module_text found id) (put_module found id)
unfolding put_module
put_module-Puts none id long h = nothing-Puts
put_module-Puts (some text) id long h =
    sprintf-Puts 25 (codes text ++ id_text id)
      (omega (arith, length-append (codes text) (id_text id), long text refl, length-id_text id h))

-- A time of day with fields of two digits, and less than a second.
pub record IsTime (t : TimeOfDay) : Type 0 where
  pub hour : t.tm_hour < 100
  pub minute : t.tm_min < 100
  pub second : t.tm_sec < 100
  pub millisecond : t.ms_time < 1000

length-field :
    (j n : ℕ) (after : List ℕ)
    → n < ten_to (suc j)
    → length (pad (suc j) (unsigned_text n) ++ after) ≡ suc j + length after
length-field j n after h =
    length-append (pad (suc j) (unsigned_text n)) after
    ∙ ap (λ m. m + length after) (length-pad (suc j) (unsigned_text n) (length-digits j 20 n h))

pub length-time_text : (t : TimeOfDay) → IsTime t → length (time_text t) ≡ 15
unfolding time_text
length-time_text t h =
    let millisecond = pad 3 (unsigned_text t.ms_time) ++ codes ") " in
    let second = pad 2 (unsigned_text t.tm_sec) ++ (codes ":" ++ millisecond) in
    let minute = pad 2 (unsigned_text t.tm_min) ++ (codes ":" ++ second) in
    omega (
      arith,
      length-field 2 t.ms_time (codes ") ") h.millisecond,
      length-field 1 t.tm_sec (codes ":" ++ millisecond) h.second,
      length-field 1 t.tm_min (codes ":" ++ second) h.minute,
      length-field 1 t.tm_hour (codes ":" ++ minute) h.hour,
    )

length-digits_most : (most n : ℕ) → length (digits most n) ≤ most
unfolding digits
length-digits_most zero n = omega arith
length-digits_most (suc most) n = ground (
  arith,
  length-append (digits most (n / 10)) ((b'0' + n % 10) ∷ []),
  length-digits_most most (n / 10),
)

pub length-thread_text : (thread_id : ℕ) → length (thread_text thread_id) ≤ 22
unfolding thread_text pad
length-thread_text thread_id =
    let number = unsigned_text thread_id in
    omega (
      arith,
      length-append (replicate (10 - length number) b' ' ++ number) (codes "; "),
      length-append (replicate (10 - length number) b' ') number,
      length-replicate {A = ℕ} (10 - length number) b' ',
      length-digits_most 20 thread_id,
    )

pub length-text_of :
    (found : Option String)
    → ((text : String) → found ≡ some text → length (codes text) ≡ 12)
    → length (text_of found) ≤ 12
length-text_of none long = omega arith
length-text_of (some text) long = omega (arith, long text refl)

pub length-module_text :
    (found : Option String) (id : ℤ)
    → ((text : String) → found ≡ some text → length (codes text) ≡ 13)
    → Fits 11 id
    → length (module_text found id) ≤ 25
length-module_text none id long h = omega arith
length-module_text (some text) id long h =
    omega (arith, length-append (codes text) (id_text id), long text refl, length-id_text id h)
