-- ===== src/Trace/Head.antt =====
-- trace_impl_c.c: what `AddImpl` puts before a message, as it is built for POSIX. Each part is written with a NUL
-- after it, where the part before it ended; the time of day and the number of the thread are given.
use Prim.Native.Char.{code}
use Prim.Native.String.{String}
use rtc_base.Common.{
  ℕ, zero, suc, ◌+◌, ◌-◌, ◌/◌, ◌%◌, List, [], ◌∷◌, ◌++◌, length, get_or, replicate, Option, none,
  some, ltb, ◌==◌, if◌then◌else◌,
}
use rtc_base.Common.Int.{ℤ, pos, negsuc}
use rtc_base.Trace.Streams.{Trace, init_once, trace_check, add_trace_message_to_list}
use rtc_base.Buffer.State.{overwrite}
use rtc_base.Trace.Message.{Line, line, no_line, unknown, add_trace_message, end_line}

abbrev pub codes : String → List ℕ
codes String.[] = []
codes (String.◌∷◌ c s) = code c ∷ codes s

-- A number with at most so many decimal digits, the last of which are printed.
unfoldable pub digits : ℕ → ℕ → List ℕ
digits zero n = []
digits (suc most) n =
    let rest = digits most (n / 10) in
    if ltb n 10 then (b'0' + n) ∷ [] else rest ++ ((b'0' + n % 10) ∷ [])

-- `%lu` and `%ld`. An unsigned long has 20 digits at most.
abbrev pub unsigned_text : ℕ → List ℕ
unsigned_text n = digits 20 n

abbrev pub signed_text : ℤ → List ℕ
signed_text (pos n) = unsigned_text n
signed_text (negsuc n) = b'-' ∷ unsigned_text (n + 1)

-- The width of a format
unfoldable pub pad : ℕ → List ℕ → List ℕ
pad width text = replicate (width - length text) b' ' ++ text

unfoldable pub sprintf : ℕ → List ℕ → List ℕ → List ℕ
sprintf offset text buffer = overwrite offset (text ++ (0 ∷ [])) buffer

-- What is written at an offset of the buffer: the length that the function returns, and the buffer.
abbrev pub Part : Type 0
Part = ℕ → List ℕ → ℕ × List ℕ

unfoldable pub find_text : ℕ → List (ℕ × String) → Option String
find_text key [] = none
find_text key ((k, text) ∷ rest) = if key == k then some text else find_text key rest

abbrev pub level_texts : List (ℕ × String)
level_texts =
    (1, "STATEINFO ; ")
    ∷ (2, "WARNING   ; ")
    ∷ (4, "ERROR     ; ")
    ∷ (8, "CRITICAL  ; ")
    ∷ (0x10, "APICALL   ; ")
    ∷ (0x20, "MODULECALL; ")
    ∷ (0x100, "MEMORY    ; ")
    ∷ (0x200, "TIMER     ; ")
    ∷ (0x400, "STREAM    ; ")
    ∷ (0x800, "DEBUG     ; ")
    ∷ (0x1000, "DEBUGINFO ; ")
    ∷ []

unfoldable pub put_level : Option String → Part
put_level none offset buffer = (0, buffer)
put_level (some text) offset buffer = (12, sprintf offset (codes text) buffer)

unfoldable pub add_level : ℕ → Part
add_level level = put_level (find_text level level_texts)

-- The fields of `struct tm` that are printed, and the milliseconds.
pub record TimeOfDay : Type 0 where
  pub tm_hour : ℕ
  pub tm_min : ℕ
  pub tm_sec : ℕ
  pub ms_time : ℕ

unfoldable pub time_text : TimeOfDay → List ℕ
time_text t =
    codes "("
    ++ (pad 2 (unsigned_text t.tm_hour)
        ++ (codes ":"
            ++ (pad 2 (unsigned_text t.tm_min)
                ++ (codes ":"
                    ++ (pad 2 (unsigned_text t.tm_sec)
                        ++ (codes ":" ++ (pad 3 (unsigned_text t.ms_time) ++ codes ") ")))))))

unfoldable pub add_time : TimeOfDay → Part
add_time t offset buffer = (15, sprintf offset (time_text t) buffer)

abbrev pub module_texts : List (ℕ × String)
module_texts =
    (1, "       VOICE:")
    ∷ (2, "       VIDEO:")
    ∷ (3, "     UTILITY:")
    ∷ (4, "    RTP/RTCP:")
    ∷ (5, "   TRANSPORT:")
    ∷ (6, "        SRTP:")
    ∷ (7, "AUDIO CODING:")
    ∷ (8, " AUDIO MIX/S:")
    ∷ (9, " AUDIO MIX/C:")
    ∷ (0xa, "        FILE:")
    ∷ (0xb, "  AUDIO PROC:")
    ∷ (0x10, "VIDEO CODING:")
    ∷ (0x11, "   VIDEO MIX:")
    ∷ (0x12, "AUDIO DEVICE:")
    ∷ (0x14, "VIDEO RENDER:")
    ∷ (0x15, "VIDEO CAPTUR:")
    ∷ (0x17, "     BWE RBE:")
    ∷ []

abbrev pub id_text : ℤ → List ℕ
id_text id = pad 11 (signed_text id) ++ codes ";"

unfoldable pub put_module : Option String → ℤ → Part
put_module none id offset buffer = (0, buffer)
put_module (some text) id offset buffer = (25, sprintf offset (codes text ++ id_text id) buffer)

unfoldable pub add_module_and_id : ℕ → ℤ → Part
add_module_and_id module_ id = put_module (find_text module_ module_texts) id

unfoldable pub thread_text : ℕ → List ℕ
thread_text thread_id = pad 10 (unsigned_text thread_id) ++ codes "; "

unfoldable pub add_thread_id : ℕ → Part
add_thread_id thread_id offset buffer =
    (length (thread_text thread_id), sprintf offset (thread_text thread_id) buffer)

-- `message_ptr += len; ack_len += len;` between two parts. None of them returns -1.
infixr 20 ◌then_add◌
unfoldable pub ◌then_add◌ : Part → Part → Part
◌then_add◌ first second offset buffer =
    let (len, after) = first offset buffer in
    let (len', after') = second (offset + len) after in (len + len', after')

unfoldable pub add_impl : ℕ → TimeOfDay → ℕ → ℤ → ℕ → List ℕ → List ℕ → Line
add_impl level time module_ id thread_id msg buffer =
    let (ack_len, after) =
      (add_level level
          then_add add_time time
          then_add add_module_and_id module_ id
          then_add add_thread_id thread_id)
        0 buffer in
    add_trace_message msg ack_len after

-- The call of `AddTraceMessageToList`, and `WebRtcTrace_Add` of a message that is printed; the buffer of
-- `AddImpl` is not initialised.
unfoldable pub send_line : ℕ → Line → Trace → Option Trace
send_line level unknown t = none
send_line level no_line t = some t
send_line level (line l) t = some (add_trace_message_to_list l level t)

unfoldable pub trace_add :
    ℕ → List ℕ → ℕ → TimeOfDay → ℕ → ℤ → ℕ → List ℕ → List ℕ → Trace → Option Trace
trace_add stdout date level time module_ id thread_id msg buffer t =
    let started = init_once stdout date t in
    if trace_check level started.handles
    then send_line level (add_impl level time module_ id thread_id msg buffer) started
    else some started

-- `AddDateTimeInfo` of what `ctime_r` gives, which is 25 bytes: a newline at the end is taken away.
unfoldable pub strip_newline : ℕ → List ℕ → ℕ × List ℕ
strip_newline len buffer =
    if get_or buffer (len - 1) 0 == 10
    then (len - 1 + 1, overwrite (len - 1) (0 ∷ []) buffer)
    else (len + 1, buffer)

unfoldable pub add_date_time_info : List ℕ → List ℕ → ℕ × List ℕ
add_date_time_info time buffer =
    let text = codes "Local DateTime: " ++ time in
    strip_newline (length text) (sprintf 0 text buffer)

-- The line that `TraceInit` writes
unfoldable pub date_line : List ℕ → List ℕ → Line
date_line time buffer = let (len, after) = add_date_time_info time buffer in end_line len after
