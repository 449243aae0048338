-- ===== src/Trace/Message.antt =====
-- trace_impl_c.c: `AddTraceMessage`, and the end of the line in `AddImpl`. What stands before the message
-- in the buffer is given.
use rtc_base.Common.{
  ℕ, zero, suc, ◌+◌, ◌-◌, ◌≤◌, ◌<◌, ◌≡◌, ◌⊎◌, inl, inr, ap, ◌∙◌, arith, List, [], ◌∷◌, ◌++◌, length,
  length-append, take, length-take, ltb, leb, ltb-cases, leb_above, ltb_above, if◌then◌else◌,
  take-append_within, dec_le,
}
use rtc_base.Buffer.State.{overwrite}
use rtc_base.Buffer.Block.{take_all, take-overwrite_before, take-overwrite, length-overwrite}

abbrev pub max_message_size : ℕ
max_message_size = 1024

-- `snprintf` of a text, in a buffer from an offset on
unfoldable pub print : ℕ → ℕ → List ℕ → List ℕ → List ℕ
print offset zero msg buffer = buffer
print offset (suc n) msg buffer = overwrite offset (take n msg ++ (0 ∷ [])) buffer

-- What becomes of a message. `unknown` is a size below zero for `snprintf`.
pub data Line : Type 0 where
  unknown : Line
  no_line : Line
  line : List ℕ → Line

-- `trace_message[ack_len] = '\0'; trace_message[ack_len - 1] = '\n';`
unfoldable pub end_line : ℕ → List ℕ → Line
end_line ack_len buffer =
    line (take ack_len (overwrite (ack_len - 1) (10 ∷ []) (overwrite ack_len (0 ∷ []) buffer)))

unfoldable pub cut_message : ℕ → ℕ → List ℕ → List ℕ → Line
cut_message written_so_far length_remain msg buffer =
    if ltb length_remain (length msg)
    then end_line (written_so_far + (length_remain + 1))
        (overwrite (written_so_far + length_remain) (0 ∷ []) buffer)
    else end_line (written_so_far + (length msg + 1)) buffer

unfoldable pub add_trace_message : List ℕ → ℕ → List ℕ → Line
add_trace_message msg written_so_far buffer =
    let length_remain = max_message_size - 2 - written_so_far in
    if leb max_message_size written_so_far
    then no_line
    else if ltb (max_message_size - 2) written_so_far
    then unknown
    else cut_message written_so_far length_remain msg
        (print written_so_far length_remain msg buffer)

-- The line is what stands in the buffer, with its last byte replaced by the newline.
end_line_lem :
    (n : ℕ) (buffer : List ℕ)
    → n + 1 < length buffer
    → end_line (n + 1) buffer ≡ line (take n buffer ++ (10 ∷ []))
unfolding end_line
end_line_lem n buffer room = ap line (
    ap (λ m. take (n + 1) (overwrite m (10 ∷ []) (overwrite (n + 1) (0 ∷ []) buffer))) back
    ∙ take-overwrite n 1 (10 ∷ []) (overwrite (n + 1) (0 ∷ []) buffer) (omega arith)
        (rw (length-overwrite (n + 1) (0 ∷ []) buffer (omega arith)) (omega arith))
    ∙ ap (λ l. l ++ (10 ∷ []))
        (take-overwrite_before n (n + 1) (0 ∷ []) buffer (omega arith) (omega arith)))
  where
    back : n + 1 - 1 ≡ n
    back = omega arith

-- What `snprintf` leaves in the buffer, without its NUL and with it.
pub printed :
    (offset : ℕ) (text buffer : List ℕ)
    → offset + (length text + 1) ≤ length buffer
    → let after = overwrite offset (text ++ (0 ∷ [])) buffer in
      (length after ≡ length buffer)
      × (take (offset + length text) after ≡ take offset buffer ++ text)
      × (take (offset + (length text + 1)) after ≡ take offset buffer ++ (text ++ (0 ∷ [])))
printed offset text buffer room = (
  length-overwrite offset (text ++ (0 ∷ [])) buffer (omega (arith, size)),
  take-overwrite offset (length text) (text ++ (0 ∷ [])) buffer (omega (arith, size)) (omega arith)
      ∙ ap (λ l. take offset buffer ++ l)
          (take-append_within text (0 ∷ []) (length text) (omega arith)
            ∙ take_all (length text) text (omega arith)),
  take-overwrite offset (length text + 1) (text ++ (0 ∷ [])) buffer (omega (arith, size))
        (omega arith)
      ∙ ap (λ l. take offset buffer ++ l)
          (take_all (length text + 1) (text ++ (0 ∷ [])) (omega (arith, size))),
)
  where
    size : length (text ++ (0 ∷ [])) ≡ length text + 1
    size = length-append text (0 ∷ [])

pub end_at :
    (k n : ℕ) (buffer : List ℕ)
    → k ≡ n + 1
    → n + 1 < length buffer
    → end_line k buffer ≡ line (take n buffer ++ (10 ∷ []))
end_at k n buffer same room = ap (λ m. end_line m buffer) same ∙ end_line_lem n buffer room

module _ (msg buffer : List ℕ) (w n : ℕ) (fits : w + n + 3 ≤ length buffer) where
  short_message :
      length msg ≤ n
      → cut_message w (suc n) msg (print w (suc n) msg buffer)
        ≡ line (take w buffer ++ msg ++ (10 ∷ []))
  unfolding cut_message print
  short_message short =
      let (same_size, kept, _) = printed w msg buffer (omega arith) in
      rw (ltb_above (suc n) (length msg) (omega arith), take_all n msg short)
        (end_at (w + (length msg + 1)) (w + length msg) (overwrite w (msg ++ (0 ∷ [])) buffer)
            (omega arith) (omega (arith, same_size))
          ∙ ap (λ l. line (l ++ (10 ∷ []))) kept)

  long_message :
      n < length msg
      → cut_message w (suc n) msg (print w (suc n) msg buffer)
        ≡ line (take w buffer ++ (take n msg ++ (0 ∷ [])) ++ (10 ∷ []))
  unfolding cut_message print
  long_message long =
      let size : length (take n msg) ≡ n = length-take n msg ∙ omega arith in
      let X = overwrite w (take n msg ++ (0 ∷ [])) buffer in
      let (same_size, _, kept) = printed w (take n msg) buffer (omega (arith, size)) in
      let kept_all : take (w + suc n) X ≡ take w buffer ++ (take n msg ++ (0 ∷ [])) =
        ap (λ k. take k X) (omega (arith, size)) ∙ kept in
      elim (ltb-cases (suc n) (length msg)) [
        | inl (longer, yes_longer) ↦ rw yes_longer (
            end_at (w + (suc n + 1)) (w + suc n) (overwrite (w + suc n) (0 ∷ []) X) (omega arith) (
              rw (length-overwrite (w + suc n) (0 ∷ []) X (omega (arith, same_size)))
                (omega (arith, same_size)))
            ∙ ap (λ l. line (l ++ (10 ∷ [])))
                (take-overwrite_before (w + suc n) (w + suc n) (0 ∷ []) X (omega arith)
                    (omega (arith, same_size))
                  ∙ kept_all))
        | inr (exact, not_longer) ↦ rw not_longer (
            end_at (w + (length msg + 1)) (w + suc n) X (omega arith) (omega (arith, same_size))
            ∙ ap (λ l. line (l ++ (10 ∷ []))) kept_all)
      ]

-- `AddTraceMessage` and the end of the line, with at most 1021 bytes before the message. A message that
-- leaves room for one byte more than `snprintf` needs is put behind them whole, with a newline; one that
-- does not is cut, and a NUL stands between what is left of it and the newline.
pub add_trace_message_lem :
    (msg buffer : List ℕ) (written_so_far : ℕ)
    → length buffer ≡ max_message_size
    → written_so_far ≤ 1021
    → (length msg + written_so_far ≤ 1021)
        × (add_trace_message msg written_so_far buffer
            ≡ line (take written_so_far buffer ++ msg ++ (10 ∷ [])))
      ⊎ (1021 < length msg + written_so_far)
        × (add_trace_message msg written_so_far buffer
            ≡ line (
                take written_so_far buffer
                ++ (take (1021 - written_so_far) msg ++ (0 ∷ []))
                ++ (10 ∷ [])))
unfolding add_trace_message
add_trace_message_lem msg buffer w size small =
    let n = 1021 - w in
    let remain : 1024 - 2 - w ≡ suc n = omega arith in
    rw (leb_above 1024 w (omega arith), ltb_above 1022 w (omega arith), remain)
      (elim (dec_le (length msg) n) [
        | yes short ↦ inl (omega arith, short_message msg buffer w n (omega arith) short)
        | no long ↦
            inr
              (omega (arith, long), long_message msg buffer w n (omega arith) (omega (arith, long)))
      ])
