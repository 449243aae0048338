-- ===== src/Trace/Streams.antt =====
-- trace_impl_c.c: the streams, and who writes to them. A FILE is a number; its bytes and its position
-- stand in the state. The line that `AddImpl` makes of a message is given.
use Prim.Native.Nat.{bit_and}
use rtc_base.Common.{
  ℕ, ◌+◌, Bool, true, false, not, ◌||◌, Option, none, some, List, [], ◌∷◌, ◌++◌, length, take, drop,
  ltb, leb, ◌==◌, if◌then◌else◌,
}
use rtc_base.Common.Int.{ℤ, pos, negsuc, to_int32}

pub record File : Type 0 where
  pub content : List ℕ
  pub position : ℕ
  pub is_open : Bool

-- The filter is the 32 bits of its int.
pub record TraceOStream : Type 0 where
  pub file : Option ℕ
  pub filter : ℕ
  pub wrap_line_number : ℕ

pub record TraceHandle : Type 0 where
  pub ostream : TraceOStream
  pub wrap_offset : ℕ
  pub row_count_text : ℕ

pub record Trace : Type 0 where
  pub handles : List TraceHandle  -- the first handle_number
  pub files : ℕ → File
  pub initialized : Bool

abbrev pub max_ostream_number : ℕ
max_ostream_number = 3

abbrev pub max_file_size : ℕ
max_file_size = 1000

abbrev pub trace_default : ℕ
trace_default = 255

abbrev pub same_file : Option ℕ → Option ℕ → Bool
same_file none none = true
same_file none (some g) = false
same_file (some f) none = false
same_file (some f) (some g) = f == g

abbrev pub is_null : Option ℕ → Bool
is_null none = true
is_null (some f) = false

unfoldable pub check_level : TraceHandle → ℕ → Bool
check_level handle level = not (bit_and level handle.ostream.filter == 0)

unfoldable pub trace_check : ℕ → List TraceHandle → Bool
trace_check level [] = false
trace_check level (h ∷ hs) = if check_level h level then true else trace_check level hs

unfoldable pub has_file : Option ℕ → List TraceHandle → Bool
has_file file [] = false
has_file file (h ∷ hs) = if same_file file h.ostream.file then true else has_file file hs

abbrev pub fresh_handle : TraceOStream → TraceHandle
fresh_handle ostream = record { ostream = ostream; wrap_offset = 0; row_count_text = 0 }

unfoldable pub add_stream : TraceOStream → Trace → ℤ × Trace
add_stream ostream t =
    if leb max_ostream_number (length t.handles)
      || is_null ostream.file
      || has_file ostream.file t.handles
    then (negsuc 0, t)
    else (pos 0, record t { handles = t.handles ++ (fresh_handle ostream ∷ []) })

-- The pointer to the stream may be NULL.
unfoldable pub set_ostream : Option TraceOStream → Trace → ℤ × Trace
set_ostream none t = (negsuc 0, t)
set_ostream (some ostream) t = add_stream ostream t

unfoldable pub set_filters : Option ℕ → ℕ → List TraceHandle → List TraceHandle
set_filters file filter [] = []
set_filters file filter (h ∷ hs) =
    let rest = set_filters file filter hs in
    if is_null file || same_file file h.ostream.file
    then record h { ostream = record h.ostream { filter = filter } } ∷ rest
    else h ∷ rest

unfoldable pub set_level_filter : Option ℕ → ℕ → Trace → Trace
set_level_filter file filter t = record t { handles = set_filters file filter t.handles }

unfoldable pub find_filter : Option ℕ → List TraceHandle → Option ℕ
find_filter file [] = none
find_filter file (h ∷ hs) =
    if same_file file h.ostream.file then some h.ostream.filter else find_filter file hs

abbrev pub int_or_minus_one : Option ℕ → ℤ
int_or_minus_one none = negsuc 0
int_or_minus_one (some filter) = to_int32 (pos filter)

unfoldable pub level_filter : Option ℕ → Trace → ℤ
level_filter none t = negsuc 0
level_filter (some file) t = int_or_minus_one (find_filter (some file) t.handles)

-- `fwrite` at the position
unfoldable pub write : List ℕ → File → File
write msg f = record f {
  content = take f.position f.content ++ (msg ++ drop (f.position + length msg) f.content);
  position = f.position + length msg;
}

-- `if (row_count_text == wrap_line_number) wrap_offset = ftell(file);`
unfoldable pub note_wrap : TraceHandle → File → TraceHandle
note_wrap h f =
    if h.row_count_text == h.ostream.wrap_line_number
    then record h { wrap_offset = f.position }
    else h

-- `if (row_count_text >= WEBRTC_TRACE_MAX_FILE_SIZE) { ... fseek(file, wrap_offset, SEEK_SET); }`
unfoldable pub go_back : TraceHandle → File → TraceHandle × File
go_back h f =
    if leb max_file_size h.row_count_text
    then (
      record h { row_count_text = h.ostream.wrap_line_number },
      record f { position = h.wrap_offset },
    )
    else (h, f)

unfoldable pub wrap : TraceHandle → File → TraceHandle × File
wrap h f =
    if leb h.ostream.wrap_line_number h.row_count_text then go_back (note_wrap h f) f else (h, f)

unfoldable pub write_row : List ℕ → TraceHandle × File → TraceHandle × File
write_row msg (h, f) =
    if ltb h.row_count_text max_file_size
    then (record h { row_count_text = h.row_count_text + 1 }, write msg f)
    else (h, f)

-- A file that is closed has the number -1.
unfoldable pub write_to_file : List ℕ → TraceHandle → File → TraceHandle × File
write_to_file msg h f = if f.is_open then write_row msg (wrap h f) else (h, f)

abbrev pub put_file : ℕ → File → (ℕ → File) → ℕ → File
put_file i f files j = if j == i then f else files j

unfoldable pub write_handle :
    List ℕ → TraceHandle → Option ℕ → (ℕ → File) → TraceHandle × (ℕ → File)
write_handle msg h none files = (h, files)
write_handle msg h (some i) files =
    let (h', f') = write_to_file msg h (files i) in (h', put_file i f' files)

unfoldable pub add_to_list :
    List ℕ → ℕ → List TraceHandle → (ℕ → File) → List TraceHandle × (ℕ → File)
add_to_list msg level [] files = ([], files)
add_to_list msg level (h ∷ hs) files =
    let (h', files') =
      if check_level h level then write_handle msg h h.ostream.file files else (h, files) in
    let (hs', files'') = add_to_list msg level hs files' in (h' ∷ hs', files'')

unfoldable pub add_trace_message_to_list : List ℕ → ℕ → Trace → Trace
add_trace_message_to_list msg level t =
    let (handles', files') = add_to_list msg level t.handles t.files in
    record t { handles = handles'; files = files' }

-- The line with the date goes to each stream, whatever its filter.
unfoldable pub write_date : List ℕ → List TraceHandle → (ℕ → File) → ℕ → File
write_date date [] files = files
write_date date (h ∷ hs) files = write_date date hs (dated h.ostream.file)
  where
    dated : Option ℕ → ℕ → File
    dated none = files
    dated (some i) = put_file i (write date (files i)) files

unfoldable pub default_stream : ℕ → Trace → Trace
default_stream stdout t =
    if length t.handles == 0
    then (set_ostream
        (some (record { file = some stdout; filter = trace_default; wrap_line_number = 0 })) t).1
    else t

unfoldable pub trace_init : ℕ → List ℕ → Trace → Trace
trace_init stdout date t =
    let started = default_stream stdout t in
    record started { files = write_date date started.handles started.files; initialized = true }

-- `once(TraceInit)`
unfoldable pub init_once : ℕ → List ℕ → Trace → Trace
init_once stdout date t = if t.initialized then t else trace_init stdout date t

unfoldable pub add : ℕ → List ℕ → ℕ → List ℕ → Trace → Trace
add stdout date level line t =
    let started = init_once stdout date t in
    if trace_check level started.handles
    then add_trace_message_to_list line level started
    else started
