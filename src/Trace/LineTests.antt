-- ===== src/Trace/LineTests.antt =====
-- The line of a message.
use rtc_base.Common.{
  ℕ, ◌+◌, ◌-◌, ◌≤◌, ◌<◌, ◌≡◌, ◌⊎◌, refl, arith, List, [], ◌∷◌, ◌++◌, replicate, length, take,
  length-replicate, some, true, false,
}
use rtc_base.Common.Int.{pos}
use rtc_base.Trace.Streams.{Trace, add}
use rtc_base.Trace.Message.{line, add_trace_message, cut_message, end_line, print}
use rtc_base.Trace.Head.{
  codes, TimeOfDay, add_impl, trace_add, date_line, ◌then_add◌, add_level, put_level, find_text,
  add_time, add_module_and_id, put_module, add_thread_id, thread_text, pad, digits, sprintf,
  time_text, add_date_time_info, strip_newline,
}
use rtc_base.Buffer.State.{overwrite}
use rtc_base.Trace.Lines.{head_text, trace_add-add}

abbrev after_noon : TimeOfDay
after_noon = record { tm_hour = 12; tm_min = 34; tm_sec = 5; ms_time = 78 }

abbrev old_bytes : List ℕ
old_bytes = replicate 1024 204

abbrev idle : Trace
idle = record {
  handles = [];
  files = λ i. record { content = []; position = 0; is_open = true };
  initialized = false;
}

error_line :
    add_impl 4 after_noon 1 (pos 5) 140 (codes "hi") old_bytes
    ≡ line (codes "ERROR     ; (12:34: 5: 78)        VOICE:          5;       140; hi" ++ (10 ∷ []))
unfolding add_impl add_trace_message ◌then_add◌ add_level put_level find_text add_time
    add_module_and_id put_module add_thread_id thread_text pad digits cut_message end_line print
    sprintf time_text overwrite
error_line = refl

no_level :
    add_impl 3 after_noon 0 (pos 5) 140 (codes "hi") old_bytes
    ≡ line (codes "(12:34: 5: 78)        140; hi" ++ (10 ∷ []))
unfolding add_impl add_trace_message ◌then_add◌ add_level put_level find_text add_time
    add_module_and_id put_module add_thread_id thread_text pad digits cut_message end_line print
    sprintf time_text overwrite
no_level = refl

day :
    date_line (codes "Mon Jan  1" ++ (10 ∷ [])) old_bytes
    ≡ line (codes "Local DateTime: Mon Jan  1" ++ (10 ∷ []))
unfolding date_line end_line add_date_time_info strip_newline sprintf overwrite
day = refl

trace_add-add_example :
    let head = head_text 4 after_noon 1 (pos 5) 140 in
    (length head ≤ 74)
    × ((length (codes "hi") + length head ≤ 1021)
          × (trace_add 1 [] 4 after_noon 1 (pos 5) 140 (codes "hi") old_bytes idle
              ≡ some (add 1 [] 4 (head ++ codes "hi" ++ (10 ∷ [])) idle))
        ⊎ (1021 < length (codes "hi") + length head)
          × (trace_add 1 [] 4 after_noon 1 (pos 5) 140 (codes "hi") old_bytes idle
              ≡ some (
                  add 1 [] 4
                    (head ++ (take (1021 - length head) (codes "hi") ++ (0 ∷ [])) ++ (10 ∷ []))
                    idle)))
trace_add-add_example =
    trace_add-add 4 after_noon 1 (pos 5) 140 (omega arith) (omega arith) 1 [] (codes "hi") old_bytes
      idle (length-replicate {A = ℕ} 1024 204)
