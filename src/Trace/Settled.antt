-- ===== src/Trace/Settled.antt =====
-- trace_impl_c.c: `WriteToFile` on a stream that has come to its wrap line.
use rtc_base.Common.{
  ℕ, ◌+◌, ◌≤◌, ◌<◌, ◌≡◌, inl, inr, refl, ap, ◌∙◌, arith, true, false, List, ◌++◌, length,
  length-append, take, drop, length-take, take-append_within, leb, ◌==◌, leb-cases, ltb-cases,
  Bool-cases, ==_iff, leb_above, ltb_above, dec_le, dec_lt, if◌then◌else◌,
}
use rtc_base.Buffer.Block.{take-take}
use rtc_base.Trace.Streams.{
  File, TraceHandle, max_file_size, write, note_wrap, go_back, wrap, write_row, write_to_file,
}

-- A write leaves alone what stands before it.
write_before :
    (k : ℕ) (msg : List ℕ) (f : File)
    → k ≤ f.position
    → f.position ≤ length f.content
    → take k (write msg f).content ≡ take k f.content
unfolding write
write_before k msg f behind inside =
    take-append_within (take f.position f.content) (msg ++ drop (f.position + length msg) f.content)
      k (rw (length-take f.position f.content) (omega arith))
    ∙ take-take k f.position f.content behind

write_inside :
    (msg : List ℕ) (f : File)
    → f.position ≤ length f.content
    → (write msg f).position ≤ length (write msg f).content
unfolding write
write_inside msg f inside =
    rw
      (
        length-append (take f.position f.content) (msg ++ drop (f.position + length msg) f.content),
        length-append msg (drop (f.position + length msg) f.content),
        length-take f.position f.content,
      )
      (omega arith)

-- The handle has come to its wrap line, which begins at the byte `k`.
pub record Settled (k : ℕ) (h : TraceHandle) (f : File) : Type 0 where
  pub opened : f.is_open ≡ true
  pub rows : h.ostream.wrap_line_number ≤ h.row_count_text
  pub behind : k ≤ f.position
  pub inside : f.position ≤ length f.content
  pub at_wrap : (h.row_count_text ≡ h.ostream.wrap_line_number) → f.position ≡ k
  pub noted : h.ostream.wrap_line_number < h.row_count_text → h.wrap_offset ≡ k

note_wrap_lem :
    (k : ℕ) (h : TraceHandle) (f : File)
    → Settled k h f
    → note_wrap h f ≡ record h { wrap_offset = k }
unfolding note_wrap
note_wrap_lem k h f v = elim (Bool-cases (h.row_count_text == h.ostream.wrap_line_number)) [
  | inl at_wrap ↦ rw at_wrap (
      ap (λ p. record h { wrap_offset = p })
        (v.at_wrap ((==_iff h.row_count_text h.ostream.wrap_line_number).0 at_wrap)))
  | inr past ↦ rw past (ap (λ p. record h { wrap_offset = p }) (v.noted (later past v.rows)))
]
  where
    later : {a b : ℕ} → (a == b) ≡ false → b ≤ a → b < a
    later e h = ground arith

-- What `WriteToFile` does to such a handle, when the file has all its rows and when it has room.
on_Settled :
    (k : ℕ) (msg : List ℕ) (h : TraceHandle) (f : File)
    → Settled k h f
    → write_to_file msg h f ≡ write_row msg (go_back (record h { wrap_offset = k }) f)
unfolding write_to_file wrap
on_Settled k msg h f v =
    ap (λ b. if b then write_row msg (wrap h f) else (h, f)) v.opened
    ∙ ap (λ b. write_row msg (if b then go_back (note_wrap h f) f else (h, f))) wraps
    ∙ ap (λ n. write_row msg (go_back n f)) (note_wrap_lem k h f v)
  where
    wraps : leb h.ostream.wrap_line_number h.row_count_text ≡ true
    wraps = elim (leb-cases h.ostream.wrap_line_number h.row_count_text) [
      | inl (_, e) ↦ e
      | inr (less, _) ↦ absurd (omega (arith, v.rows))
    ]

back_full :
    (h : TraceHandle) (f : File)
    → max_file_size ≤ h.row_count_text
    → go_back h f ≡ (
      record h { row_count_text = h.ostream.wrap_line_number },
      record f { position = h.wrap_offset },
    )
unfolding go_back
back_full h f full =
    ap
      (λ b.
        if b
        then (
          record h { row_count_text = h.ostream.wrap_line_number },
          record f { position = h.wrap_offset },
        )
        else (h, f))
      (elim (leb-cases max_file_size h.row_count_text) [
        | inl (_, e) ↦ e
        | inr (less, _) ↦ absurd (omega arith)
      ])

back_room : (h : TraceHandle) (f : File) → h.row_count_text < max_file_size → go_back h f ≡ (h, f)
unfolding go_back
back_room h f room =
    ap
      (λ b.
        if b
        then (
          record h { row_count_text = h.ostream.wrap_line_number },
          record f { position = h.wrap_offset },
        )
        else (h, f))
      (leb_above max_file_size h.row_count_text room)

pub row_room :
    (msg : List ℕ) (h : TraceHandle) (f : File)
    → h.row_count_text < max_file_size
    → write_row msg (h, f) ≡ (record h { row_count_text = h.row_count_text + 1 }, write msg f)
unfolding write_row
row_room msg h f room =
    ap
      (λ b. if b then (record h { row_count_text = h.row_count_text + 1 }, write msg f) else (h, f))
      (elim (ltb-cases h.row_count_text max_file_size) [
        | inl (_, e) ↦ e
        | inr (more, _) ↦ absurd (omega arith)
      ])

row_full :
    (msg : List ℕ) (h : TraceHandle) (f : File)
    → max_file_size ≤ h.row_count_text
    → write_row msg (h, f) ≡ (h, f)
unfolding write_row
row_full msg h f full =
    ap
      (λ b. if b then (record h { row_count_text = h.row_count_text + 1 }, write msg f) else (h, f))
      (ltb_above h.row_count_text max_file_size full)

-- A row that is written behind the byte `k`.
write-Settled :
    (k : ℕ) (msg : List ℕ) (h : TraceHandle) (f : File)
    → f.is_open ≡ true
    → h.ostream.wrap_line_number ≤ h.row_count_text
    → h.wrap_offset ≡ k
    → k ≤ f.position
    → f.position ≤ length f.content
    → Settled k (record h { row_count_text = h.row_count_text + 1 }) (write msg f)
unfolding write
write-Settled k msg h f opened rows noted behind inside = record {
  opened = opened;
  rows = omega arith;
  behind = omega arith;
  inside = write_inside msg f inside;
  at_wrap = λ e. absurd (omega arith);
  noted = λ e. noted;
}

-- One more line: it goes behind the byte `k`.
pub write_to_file-Settled :
    (k : ℕ) (msg : List ℕ) (h : TraceHandle) (f : File)
    → h.ostream.wrap_line_number ≤ max_file_size
    → Settled k h f
    → let (h', f') = write_to_file msg h f in
      Settled k h' f' × (take k f'.content ≡ take k f.content) × (h'.ostream ≡ h.ostream)
write_to_file-Settled k msg h f small v =
    let h' = record h { wrap_offset = k } in
    let h'' = record h { wrap_offset = k; row_count_text = h.ostream.wrap_line_number } in
    let f'' = record f { position = k } in
    let start : k ≤ length f.content = omega (arith, v.behind, v.inside) in
    elim (dec_le max_file_size h.row_count_text) [
      | yes full ↦ elim (dec_lt h.ostream.wrap_line_number max_file_size) [
        | yes room ↦
            rw (on_Settled k msg h f v, back_full h' f full, row_room msg h'' f'' room)
              (
                write-Settled k msg h'' f'' v.opened (omega arith) refl (omega arith) start,
                write_before k msg f'' (omega arith) start,
                refl,
              )
        | no no_room ↦
            rw
              (
                on_Settled k msg h f v,
                back_full h' f full,
                row_full msg h'' f'' (omega (arith, no_room)),
              )
              (
                record {
                  opened = v.opened;
                  rows = omega arith;
                  behind = omega arith;
                  inside = start;
                  at_wrap = λ e. refl;
                  noted = λ e. refl;
                },
                refl,
                refl,
              )
      ]
      | no room ↦
          rw
            (
              on_Settled k msg h f v,
              back_room h' f (omega (arith, room)),
              row_room msg h' f (omega (arith, room)),
            )
            (
              write-Settled k msg h' f v.opened v.rows refl v.behind v.inside,
              write_before k msg f v.behind v.inside,
              refl,
            )
    ]
