-- ===== src/Trace/Lines.antt =====
-- trace_impl_c.c: the whole line that `AddImpl` makes of a message, and where it goes.
use rtc_base.Common.{
  ℕ, ◌+◌, ◌-◌, ◌≤◌, ◌<◌, ◌≡◌, ◌⊎◌, inl, inr, refl, ap, ◌∙◌, sym, arith, List, [], ◌∷◌, ◌++◌, length,
  length-append, take, some,
}
use rtc_base.Common.Int.{ℤ}
use rtc_base.Trace.Message.{line, max_message_size, add_trace_message_lem}
use rtc_base.Trace.Head.{
  find_text, level_texts, add_level, TimeOfDay, time_text, add_time, module_texts,
  add_module_and_id, thread_text, add_thread_id, ◌then_add◌, add_impl, send_line, trace_add,
}
use rtc_base.Trace.Parts.{
  Puts, sprintf-Puts, then_add-Puts, find_text-all_long, levels_long, modules_long, put_level-Puts,
  put_module-Puts, length-time_text, length-thread_text, length-text_of, length-module_text,
  text_of, module_text, Fits, IsTime,
}
use rtc_base.Trace.Streams.{Trace, add}

-- What stands before a message: the level, the time, the module with its number, and the thread.
pub head_text : ℕ → TimeOfDay → ℕ → ℤ → ℕ → List ℕ
head_text level time module_ id thread_id =
    text_of (find_text level level_texts)
    ++ (time_text time
        ++ (module_text (find_text module_ module_texts) id ++ thread_text thread_id))

module _ (level : ℕ) (time : TimeOfDay) (module_ : ℕ) (id : ℤ) (thread_id : ℕ) (right : IsTime time)
    (fits : Fits 11 id) where
  head-Puts : Puts (head_text level time module_ id thread_id) (
      add_level level
      then_add add_time time
      then_add add_module_and_id module_ id
      then_add add_thread_id thread_id)
  unfolding head_text add_level add_time add_module_and_id add_thread_id
  head-Puts =
      let found = find_text level level_texts in
      let named = find_text module_ module_texts in
      then_add-Puts _ _ _ _
        (put_level-Puts found (λ text. find_text-all_long 12 level level_texts text levels_long))
        (then_add-Puts _ _ _ _
          (sprintf-Puts 15 (time_text time) (sym (length-time_text time right)))
          (then_add-Puts _ _ _ _
            (put_module-Puts named id
              (λ text. find_text-all_long 13 module_ module_texts text modules_long) fits)
            (sprintf-Puts (length (thread_text thread_id)) (thread_text thread_id) refl)))

  length-head_text : length (head_text level time module_ id thread_id) ≤ 74
  unfolding head_text
  length-head_text =
      let first = text_of (find_text level level_texts) in
      let third = module_text (find_text module_ module_texts) id in
      let fourth = thread_text thread_id in
      omega (
        arith,
        length-append first (time_text time ++ (third ++ fourth)),
        length-append (time_text time) (third ++ fourth),
        length-append third fourth,
        length-text_of (find_text level level_texts)
            (λ text. find_text-all_long 12 level level_texts text levels_long),
        length-time_text time right,
        length-module_text (find_text module_ module_texts) id
            (λ text. find_text-all_long 13 module_ module_texts text modules_long) fits,
        length-thread_text thread_id,
      )

  add_impl_lem :
      (msg buffer : List ℕ)
      → length buffer ≡ max_message_size
      → let head = head_text level time module_ id thread_id in
        (length head ≤ 74)
        × ((length msg + length head ≤ 1021)
              × (add_impl level time module_ id thread_id msg buffer
                  ≡ line (head ++ msg ++ (10 ∷ [])))
            ⊎ (1021 < length msg + length head)
              × (add_impl level time module_ id thread_id msg buffer
                  ≡ line (head ++ (take (1021 - length head) msg ++ (0 ∷ [])) ++ (10 ∷ []))))
  unfolding add_impl
  add_impl_lem msg buffer room =
      let head = head_text level time module_ id thread_id in
      let part =
        add_level level
        then_add add_time time
        then_add add_module_and_id module_ id
        then_add add_thread_id thread_id in
      let small = length-head_text in
      let p = head-Puts in
      let whole : 0 + length head ≡ length head = omega arith in
      let kept : take (length head) (part 0 buffer).1 ≡ head =
        ap (λ n. take n (part 0 buffer).1) (sym whole) ∙ p.kept 0 buffer (omega (arith, room)) in
      let size = p.size 0 buffer (omega (arith, room)) ∙ room in
      let made = add_trace_message_lem msg (part 0 buffer).1 (length head) size (omega arith) in
      (small, rw (p.len 0 buffer) (rw kept at made))

  sent :
      (stdout : ℕ) (date msg buffer l : List ℕ) (t : Trace)
      → add_impl level time module_ id thread_id msg buffer ≡ line l
      → trace_add stdout date level time module_ id thread_id msg buffer t
        ≡ some (add stdout date level l t)
  unfolding trace_add send_line add
  sent stdout date msg buffer l t e = rw e (ground arith)

  -- For a time of day in two digits and milliseconds in three, and a number of 11 characters at most, whatever the level, the module and the thread, and
  -- whatever stood in the buffer: `WebRtcTrace_Add` adds to the streams the line of the text of the level, the time, the
  -- module with the number, and the thread, one directly after the other, which are at most 74 bytes, then the
  -- message and a newline. Where head and message are longer than 1021 bytes, the message is cut to make them
  -- 1021 bytes, and a NUL stands in front of the newline.
  pub trace_add-add :
      (stdout : ℕ) (date msg buffer : List ℕ) (t : Trace)
      → length buffer ≡ max_message_size
      → let head = head_text level time module_ id thread_id in
        (length head ≤ 74)
        × ((length msg + length head ≤ 1021)
              × (trace_add stdout date level time module_ id thread_id msg buffer t
                  ≡ some (add stdout date level (head ++ msg ++ (10 ∷ [])) t))
            ⊎ (1021 < length msg + length head)
              × (trace_add stdout date level time module_ id thread_id msg buffer t
                  ≡ some (
                      add stdout date level
                        (head ++ (take (1021 - length head) msg ++ (0 ∷ [])) ++ (10 ∷ []))
                        t)))
  trace_add-add stdout date msg buffer t room =
      let (small, made) = add_impl_lem msg buffer room in
      (
        small,
        elim made [
          | inl (short, e) ↦ inl (short, sent stdout date msg buffer _ t e)
          | inr (long, e) ↦ inr (long, sent stdout date msg buffer _ t e)
        ],
      )
