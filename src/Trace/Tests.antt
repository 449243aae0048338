-- ===== src/Trace/Tests.antt =====
-- Two streams, 7 and 8.
use rtc_base.Common.{ℕ, replicate, ◌≡◌, refl, arith, true, false, none, some, List, [], ◌∷◌, take}
use rtc_base.Trace.Streams.{
  File, TraceOStream, Trace, fresh_handle, add, check_level, init_once, trace_init, default_stream,
  write_date, trace_check, add_trace_message_to_list, add_to_list, write_handle, write_to_file,
  write_row, wrap, go_back, note_wrap, write,
}
use rtc_base.Trace.Wrap.{write_lines, write_lines-joined}
use rtc_base.Trace.Valid.{IsValid, Call, set_stream, set_filter, log, calls, calls-IsValid}

abbrev new_file : File
new_file = record { content = []; position = 0; is_open = true }

abbrev console : TraceOStream
console = record { file = some 7; filter = 4; wrap_line_number = 0 }

abbrev log_file : TraceOStream
log_file = record { file = some 8; filter = 255; wrap_line_number = 1 }

abbrev nothing : Trace
nothing = record { handles = []; files = λ i. new_file; initialized = false }

abbrev both : Trace
both = record nothing { handles = fresh_handle console ∷ fresh_handle log_file ∷ [] }

nothing-IsValid : IsValid nothing
nothing-IsValid = record { few = omega arith; distinct = tt }

abbrev program : List Call
program =
    set_stream (some console)
    ∷ set_stream (some log_file)
    ∷ set_stream (some console)
    ∷ log 4 (65 ∷ 10 ∷ [])
    ∷ set_filter none 0
    ∷ []

calls-IsValid_example : IsValid (calls 1 (68 ∷ 10 ∷ []) program nothing)
calls-IsValid_example = calls-IsValid 1 (68 ∷ 10 ∷ []) program nothing nothing-IsValid

-- The first line stays, and two more follow.
write_lines-joined_example :
    take 2
      (write_lines
        ((65 ∷ 10 ∷ []) ∷ (66 ∷ 10 ∷ []) ∷ (67 ∷ 10 ∷ []) ∷ [])
        (fresh_handle log_file)
        new_file).1.content
    ≡ 65 ∷ 10 ∷ []
write_lines-joined_example =
    write_lines-joined ((65 ∷ 10 ∷ []) ∷ []) ((66 ∷ 10 ∷ []) ∷ (67 ∷ 10 ∷ []) ∷ [])
      (fresh_handle log_file) new_file refl (omega arith) refl refl

-- A message that passes the filter of the console goes there, behind the date.
logged_line :
    (add 1
        (68 ∷ 10 ∷ [])
        4
        (65 ∷ 10 ∷ [])
        (record nothing { handles = fresh_handle console ∷ [] })).files
      7
    ≡ record { content = 68 ∷ 10 ∷ 65 ∷ 10 ∷ []; position = 4; is_open = true }
unfolding add init_once trace_init default_stream write_date trace_check check_level
    add_trace_message_to_list add_to_list write_handle write_to_file write_row wrap go_back
    note_wrap write
logged_line = refl

abbrev blank : List ℕ
blank = replicate 1024 32
