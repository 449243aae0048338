-- ===== src/Trace/Dates.antt =====
-- trace_impl_c.c: the line with the date.
use rtc_base.Common.{
  ℕ, ◌+◌, ◌-◌, ◌<◌, ◌≡◌, refl, ap, ◌∙◌, arith, List, [], ◌∷◌, ◌++◌, length, get_or, length-append,
  take, drop, take-append_within, append_assoc,
}
use rtc_base.Buffer.State.{overwrite}
use rtc_base.Buffer.Block.{take-overwrite_before, length-overwrite, take_all}
use rtc_base.Trace.Message.{line, max_message_size, printed, end_line, end_at}
use rtc_base.Trace.Head.{codes, sprintf, date_line, add_date_time_info, strip_newline}

get_or-append_here {ℓ} :
    {A : Type ℓ} (xs ys : List A) (y d : A) → get_or (xs ++ (y ∷ ys)) (length xs) d ≡ y
get_or-append_here [] ys y d = refl
get_or-append_here (x ∷ xs) ys y d = get_or-append_here xs ys y d

newline_here :
    (ys buffer : List ℕ)
    → get_or (overwrite 0 ((ys ++ (10 ∷ [])) ++ (0 ∷ [])) buffer) (length ys) 0 ≡ 10
unfolding overwrite
newline_here ys buffer =
    rw
      (
        append_assoc ys (10 ∷ []) (0 ∷ []),
        append_assoc ys (10 ∷ 0 ∷ []) (drop (0 + length (ys ++ (10 ∷ 0 ∷ []))) buffer),
      )
      (get_or-append_here ys (0 ∷ drop (0 + length (ys ++ (10 ∷ 0 ∷ []))) buffer) 10 0)

kept_here :
    (ys buffer : List ℕ)
    → take (length ys) (overwrite 0 ((ys ++ (10 ∷ [])) ++ (0 ∷ [])) buffer) ≡ ys
unfolding overwrite
kept_here ys buffer =
    let source = (ys ++ (10 ∷ [])) ++ (0 ∷ []) in
    let long = length-append ys (10 ∷ []) in
    take-append_within source (drop (0 + length source) buffer) (length ys)
      (omega (arith, long, length-append (ys ++ (10 ∷ [])) (0 ∷ [])))
    ∙ take-append_within (ys ++ (10 ∷ [])) (0 ∷ []) (length ys) (omega (arith, long))
    ∙ take-append_within ys (10 ∷ []) (length ys) (omega arith)
    ∙ take_all (length ys) ys (omega arith)

newline_lem :
    (ys buffer : List ℕ)
    → length ys + 2 < length buffer
    → let (len, after) =
        strip_newline (length (ys ++ (10 ∷ []))) (sprintf 0 (ys ++ (10 ∷ [])) buffer) in
      end_line len after ≡ line (ys ++ (10 ∷ []))
unfolding strip_newline sprintf
newline_lem ys buffer room =
    let after = overwrite 0 ((ys ++ (10 ∷ [])) ++ (0 ∷ [])) buffer in
    let long : length (ys ++ (10 ∷ [])) ≡ length ys + 1 = length-append ys (10 ∷ []) in
    let size : length after ≡ length buffer =
      (printed 0 (ys ++ (10 ∷ [])) buffer (omega (arith, long))).0 in
    let less : length ys + 1 - 1 ≡ length ys = omega arith in
    let last = overwrite (length ys) (0 ∷ []) after in
    let same : length last ≡ length after =
      length-overwrite (length ys) (0 ∷ []) after (omega (arith, size)) in
    rw (long, less, newline_here ys buffer)
      (end_at (length ys + 1) (length ys) last refl (omega (arith, size, same))
        ∙ ap (λ l. line (l ++ (10 ∷ [])))
            (take-overwrite_before (length ys) (length ys) (0 ∷ []) after (omega arith)
                (omega (arith, size))
              ∙ kept_here ys buffer))

-- The line with the date, of the text that `ctime_r` gives with a newline at its end, is that text as it is.
pub date_line_lem :
    (time buffer : List ℕ)
    → length time < 1000
    → length buffer ≡ max_message_size
    → date_line (time ++ (10 ∷ [])) buffer ≡ line (codes "Local DateTime: " ++ (time ++ (10 ∷ [])))
unfolding date_line add_date_time_info
date_line_lem time buffer short room =
    newline_lem (codes "Local DateTime: " ++ time) buffer (omega arith)
