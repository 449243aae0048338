-- ===== src/Trace/Wrap.antt =====
-- trace_impl_c.c: `WriteToFile` over many lines.
use rtc_base.Common.{
  ℕ, ◌+◌, ◌≤◌, ◌<◌, ◌≡◌, refl, sym, ap, ◌∙◌, arith, true, List, [], ◌∷◌, ◌++◌, length,
  length-append, take, drop, drop_all, append-nil, append_assoc, leb_above, if◌then◌else◌,
}
use rtc_base.Buffer.Block.{take_all}
use rtc_base.Trace.Streams.{
  File, TraceHandle, max_file_size, write, note_wrap, go_back, wrap, write_row, write_to_file,
}
use rtc_base.Trace.Settled.{Settled, row_room, write_to_file-Settled}

abbrev pub write_lines : List (List ℕ) → TraceHandle → File → TraceHandle × File
write_lines [] h f = (h, f)
write_lines (msg ∷ msgs) h f = let (h', f') = write_to_file msg h f in write_lines msgs h' f'

abbrev pub joined : List (List ℕ) → List ℕ
joined [] = []
joined (msg ∷ msgs) = msg ++ joined msgs

write_lines-Settled :
    (k : ℕ) (msgs : List (List ℕ)) (h : TraceHandle) (f : File)
    → h.ostream.wrap_line_number ≤ max_file_size
    → Settled k h f
    → take k (write_lines msgs h f).1.content ≡ take k f.content
write_lines-Settled k [] h f small v = refl
write_lines-Settled k (msg ∷ msgs) h f small v =
    let (v', kept, same) = write_to_file-Settled k msg h f small v in
    let (h', f') = write_to_file msg h f in
    write_lines-Settled k msgs h' f' (rw same small) v' ∙ kept

-- Before the wrap line a line goes to the end of the file.
on_filling :
    (msg : List ℕ) (h : TraceHandle) (f : File)
    → f.is_open ≡ true
    → h.row_count_text < h.ostream.wrap_line_number
    → h.ostream.wrap_line_number ≤ max_file_size
    → write_to_file msg h f ≡ (record h { row_count_text = h.row_count_text + 1 }, write msg f)
unfolding write_to_file wrap
on_filling msg h f opened before small =
    ap (λ b. if b then write_row msg (wrap h f) else (h, f)) opened
    ∙ ap (λ b. write_row msg (if b then go_back (note_wrap h f) f else (h, f)))
        (leb_above h.ostream.wrap_line_number h.row_count_text before)
    ∙ row_room msg h f (omega arith)

write_end :
    (msg : List ℕ) (f : File)
    → f.position ≡ length f.content
    → ((write msg f).content ≡ f.content ++ msg)
      × ((write msg f).position ≡ length (write msg f).content)
unfolding write
write_end msg f at_end =
    (appended, omega (arith, at_end, ap length appended, length-append f.content msg))
  where
    appended :
        take f.position f.content ++ (msg ++ drop (f.position + length msg) f.content)
        ≡ f.content ++ msg
    appended =
        ap (λ l. l ++ (msg ++ drop (f.position + length msg) f.content))
          (take_all f.position f.content (omega (arith, at_end)))
        ∙ ap (λ l. f.content ++ (msg ++ l))
            (drop_all (f.position + length msg) f.content (omega (arith, at_end)))
        ∙ ap (λ l. f.content ++ l) (append-nil msg)

-- The first `wrap_line_number` lines that are written to a stream stay in its file, behind what was there,
-- however many lines follow: those that follow, and wrap, come behind them. The stream is at the end of
-- an open file with `wrap_line_number` lines to go, which is at most the size of a file.
pub write_lines-joined :
    (first more : List (List ℕ)) (h : TraceHandle) (f : File)
    → h.row_count_text + length first ≡ h.ostream.wrap_line_number
    → h.ostream.wrap_line_number ≤ max_file_size
    → f.is_open ≡ true
    → f.position ≡ length f.content
    → take (length (f.content ++ joined first)) (write_lines (first ++ more) h f).1.content
      ≡ f.content ++ joined first
unfolding write
write_lines-joined [] more h f rows small opened at_end =
    ap (λ l. take (length l) (write_lines more h f).1.content) (append-nil f.content)
    ∙ write_lines-Settled (length f.content) more h f small (record {
      opened = opened;
      rows = omega arith;
      behind = omega (arith, at_end);
      inside = omega (arith, at_end);
      at_wrap = λ e. at_end;
      noted = λ e. absurd (omega arith);
    })
    ∙ take_all (length f.content) f.content (omega arith)
    ∙ sym (append-nil f.content)
write_lines-joined (msg ∷ first) more h f rows small opened at_end =
    let h' = record h { row_count_text = h.row_count_text + 1 } in
    let (content, position) = write_end msg f at_end in
    let same : (write msg f).content ++ joined first ≡ f.content ++ joined (msg ∷ first) =
      ap (λ l. l ++ joined first) content ∙ append_assoc f.content msg (joined first) in
    ap (λ l. take (length l) (write_lines (msg ∷ (first ++ more)) h f).1.content) (sym same)
    ∙ ap
        (λ r.
          take (length ((write msg f).content ++ joined first))
            (write_lines (first ++ more) r.0 r.1).1.content)
        (on_filling msg h f opened (omega arith) small)
    ∙ write_lines-joined first more h' (write msg f) (omega arith) small opened position
    ∙ same
