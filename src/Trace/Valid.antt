-- ===== src/Trace/Valid.antt =====
-- trace_impl_c.c: the streams that are registered, and their filters.
use rtc_base.Common.{
  ℕ, ◌+◌, ◌≤◌, ◌≡◌, inl, inr, refl, sym, ap, ap₂, ◌∙◌, arith, Bool, true, false, ◌||◌, Option, none,
  some, List, [], ◌∷◌, ◌++◌, length, length-append, map, length-map, leb, ◌==◌, Bool-cases,
  if◌then◌else◌,
}
use rtc_base.Trace.Streams.{
  File, TraceOStream, TraceHandle, Trace, max_ostream_number, same_file, is_null, check_level,
  trace_check, has_file, fresh_handle, add_stream, set_ostream, set_filters, set_level_filter,
  note_wrap, go_back, wrap, write_row, write_to_file, write_handle, add_to_list,
  add_trace_message_to_list, default_stream, trace_init, init_once, add,
}

abbrev pub files_of : List TraceHandle → List (Option ℕ)
files_of hs = map (λ h. h.ostream.file) hs

abbrev pub among : Option ℕ → List (Option ℕ) → Bool
among file [] = false
among file (g ∷ gs) = if same_file file g then true else among file gs

-- No stream is NULL or there twice.
abbrev pub Distinct : List (Option ℕ) → Type 0
Distinct [] = Unit
Distinct (g ∷ gs) = (is_null g ≡ false) × (among g gs ≡ false) × Distinct gs

has_file-among :
    (file : Option ℕ) (hs : List TraceHandle) → has_file file hs ≡ among file (files_of hs)
unfolding has_file
has_file-among file [] = refl
has_file-among file (h ∷ hs) =
    ap (λ b. if same_file file h.ostream.file then true else b) (has_file-among file hs)

same_file_sym : (f g : Option ℕ) → same_file f g ≡ false → same_file g f ≡ false
same_file_sym none none e = e
same_file_sym none (some y) e = refl
same_file_sym (some x) none e = refl
same_file_sym (some x) (some y) e = ground arith

neither : (b c : Bool) → (if b then true else c) ≡ false → (b ≡ false) × (c ≡ false)
neither true c e = absurd cc
neither false c e = (refl, e)

among_last :
    (f g : Option ℕ) (gs : List (Option ℕ))
    → among f gs ≡ false
    → same_file f g ≡ false
    → among f (gs ++ (g ∷ [])) ≡ false
among_last f g [] absent other = rw other refl
among_last f g (x ∷ gs) absent other =
    let (differ, rest) = neither (same_file f x) (among f gs) absent in
    rw differ (among_last f g gs rest other)

Distinct-last :
    (g : Option ℕ) (gs : List (Option ℕ))
    → Distinct gs
    → is_null g ≡ false
    → among g gs ≡ false
    → Distinct (gs ++ (g ∷ []))
Distinct-last g [] d real absent = (real, refl, tt)
Distinct-last g (x ∷ gs) (real_x, apart, d) real absent =
    let (differ, rest) = neither (same_file g x) (among g gs) absent in
    (real_x, among_last x g gs apart (same_file_sym g x differ), Distinct-last g gs d real rest)

set_filters_files :
    (file : Option ℕ) (filter : ℕ) (hs : List TraceHandle)
    → files_of (set_filters file filter hs) ≡ files_of hs
unfolding set_filters
set_filters_files file filter [] = refl
set_filters_files file filter (h ∷ hs) =
    elim (Bool-cases (is_null file || same_file file h.ostream.file)) [
      | inl set ↦ rw set (ap (λ l. h.ostream.file ∷ l) (set_filters_files file filter hs))
      | inr kept ↦ rw kept (ap (λ l. h.ostream.file ∷ l) (set_filters_files file filter hs))
    ]

write_to_file_ostream :
    (msg : List ℕ) (h : TraceHandle) (f : File) → (write_to_file msg h f).0.ostream ≡ h.ostream
unfolding write_to_file write_row wrap go_back note_wrap
write_to_file_ostream msg h f = ground arith

write_handle_ostream :
    (msg : List ℕ) (h : TraceHandle) (file : Option ℕ) (files : ℕ → File)
    → (write_handle msg h file files).0.ostream ≡ h.ostream
unfolding write_handle
write_handle_ostream msg h none files = refl
write_handle_ostream msg h (some i) files = write_to_file_ostream msg h (files i)

add_to_list_files :
    (msg : List ℕ) (level : ℕ) (hs : List TraceHandle) (files : ℕ → File)
    → files_of (add_to_list msg level hs files).0 ≡ files_of hs
unfolding add_to_list
add_to_list_files msg level [] files = refl
add_to_list_files msg level (h ∷ hs) files = elim (Bool-cases (check_level h level)) [
  | inl logs ↦ rw logs (
      ap₂ ◌∷◌ (ap (λ o. o.file) (write_handle_ostream msg h h.ostream.file files))
        (add_to_list_files msg level hs (write_handle msg h h.ostream.file files).1))
  | inr quiet ↦ rw quiet (ap (λ l. h.ostream.file ∷ l) (add_to_list_files msg level hs files))
]

-- At most three streams, of which none is NULL or there twice.
pub record IsValid (t : Trace) : Type 0 where
  pub few : length t.handles ≤ max_ostream_number
  pub distinct : Distinct (files_of t.handles)

same_files-IsValid :
    (t t' : Trace) → files_of t'.handles ≡ files_of t.handles → IsValid t → IsValid t'
same_files-IsValid t t' same v = record {
  few = omega (
    arith,
    v.few,
    length-map t.handles (λ h. h.ostream.file),
    length-map t'.handles (λ h. h.ostream.file),
    ap length same,
  );
  distinct = rw same v.distinct;
}

files_of_last :
    (hs : List TraceHandle) (h : TraceHandle)
    → files_of (hs ++ (h ∷ [])) ≡ files_of hs ++ (h.ostream.file ∷ [])
files_of_last [] h = refl
files_of_last (x ∷ hs) h = ap (λ l. x.ostream.file ∷ l) (files_of_last hs h)

none_of_three : (a b c : Bool) → (a || b || c) ≡ false → (a ≡ false) × (b ≡ false) × (c ≡ false)
none_of_three true b c e = absurd cc
none_of_three false true c e = absurd cc
none_of_three false false c e = (refl, refl, e)

room_left : (n m : ℕ) → leb m n ≡ false → n + 1 ≤ m
room_left n m e = ground arith

either-IsValid : (b : Bool) (t t' : Trace) → IsValid t → IsValid t' → IsValid (if b then t else t')
either-IsValid true t t' v v' = v
either-IsValid false t t' v v' = v'

add_stream-IsValid : (o : TraceOStream) (t : Trace) → IsValid t → IsValid (add_stream o t).1
unfolding add_stream
add_stream-IsValid o t v =
    elim (Bool-cases
      (leb max_ostream_number (length t.handles) || is_null o.file || has_file o.file t.handles)) [
        | inl refused ↦ rw refused v
        | inr taken ↦
            let (room, real, absent) =
              none_of_three (leb max_ostream_number (length t.handles)) (is_null o.file)
                (has_file o.file t.handles) taken in
            rw taken record {
              few =
                  rw (length-append t.handles (fresh_handle o ∷ []))
                    (room_left (length t.handles) max_ostream_number room);
              distinct = rw (files_of_last t.handles (fresh_handle o)) (
                  Distinct-last o.file (files_of t.handles) v.distinct real
                    (sym (has_file-among o.file t.handles) ∙ absent));
            }
      ]

-- What a program calls.
pub data Call : Type 0 where
  set_stream : Option TraceOStream → Call
  set_filter : Option ℕ → ℕ → Call
  log : ℕ → List ℕ → Call

module _ (stdout : ℕ) (date : List ℕ) where
  abbrev pub call : Call → Trace → Trace
  call (set_stream ostream) t = (set_ostream ostream t).1
  call (set_filter file filter) t = set_level_filter file filter t
  call (log level line) t = add stdout date level line t

  abbrev pub calls : List Call → Trace → Trace
  calls [] t = t
  calls (c ∷ cs) t = calls cs (call c t)

  default_stream-IsValid : (t : Trace) → IsValid t → IsValid (default_stream stdout t)
  unfolding default_stream set_ostream
  default_stream-IsValid t v = elim (Bool-cases (length t.handles == 0)) [
    | inl no_stream ↦ rw no_stream (add_stream-IsValid _ t v)
    | inr streams ↦ rw streams v
  ]

  init_once-IsValid : (t : Trace) → IsValid t → IsValid (init_once stdout date t)
  unfolding init_once trace_init
  init_once-IsValid t v =
      either-IsValid t.initialized t _ v
        (same_files-IsValid (default_stream stdout t) _ refl (default_stream-IsValid t v))

  add-IsValid :
      (level : ℕ) (line : List ℕ) (t : Trace) → IsValid t → IsValid (add stdout date level line t)
  unfolding add add_trace_message_to_list
  add-IsValid level line t v =
      let started = init_once stdout date t in
      let v' = init_once-IsValid t v in
      elim (Bool-cases (trace_check level started.handles)) [
        | inl logs ↦ rw logs (
            same_files-IsValid started _
              (add_to_list_files line level started.handles started.files) v')
        | inr quiet ↦ rw quiet v'
      ]

  -- Whatever a program calls, there are at most three streams, and none of them is NULL or has the file of
  -- another.
  pub calls-IsValid : (cs : List Call) (t : Trace) → IsValid t → IsValid (calls cs t)
  unfolding set_ostream set_level_filter
  calls-IsValid [] t v = v
  calls-IsValid (set_stream none ∷ cs) t v = calls-IsValid cs t v
  calls-IsValid (set_stream (some o) ∷ cs) t v =
      calls-IsValid cs (add_stream o t).1 (add_stream-IsValid o t v)
  calls-IsValid (set_filter file filter ∷ cs) t v =
      calls-IsValid cs (set_level_filter file filter t) (
        same_files-IsValid t (set_level_filter file filter t)
          (set_filters_files file filter t.handles) v)
  calls-IsValid (log level line ∷ cs) t v =
      calls-IsValid cs (add stdout date level line t) (add-IsValid level line t v)
