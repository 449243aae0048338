-- ===== src/MessageQueue/Delivery.antt =====
-- When `Thread::Get` and `Thread::Peek` (thread.cc) answer, and what.
use rtc_base.Common.{
  zero, suc, ◌&&◌, ◌||◌, ◌≡◌, refl, ◌∙◌, sym, ap, true, false, not, List, [], ◌∷◌, ◌++◌, arith, All,
  All-map, Any, select, Bool-cases, inl, inr, ◌≢◌, ◌⊎◌,
}
use rtc_base.Common.Int.{ℤ, pos, negsuc, ◌-ℤ◌, ◌≤ℤ◌, ◌<ℤ◌, eqb_ℤ, leb_ℤ}
use mathlib.Core.List.{head?, tail}
use rtc_base.Message.{Message}
use rtc_base.MessageQueue.State.{Queue, is_quitting}
use rtc_base.MessageQueue.Get.{
  forever, scan, gives_up, Wait, got, failed, waiting, Outcome, get_loop, get, keep_peek, peek,
}
use rtc_base.MessageQueue.Loop.{
  answer, get_loop_found, get_loop_quitting, get_loop_inv, get_loop_fails_only, get_loop-gives_up,
  get_loop_stops, scan-peek_keep, call-peek_keep,
}
use rtc_base.MessageQueue.Order.{IsOrdered}
use rtc_base.MessageQueue.Due.{is_due, is_live, pending, Scanned, scan-Scanned}

pub get_unpeeked :
    (cms start : ℤ) (ws : List Wait) (q : Queue)
    → q.peek_keep ≡ false
    → get cms start ws q ≡ get_loop cms start start (pos 0) q ws
unfolding get
get_unpeeked cms start ws q e = rw e

-- With no peeked message, `Get` answers at once, without a wait and also while the thread is quitting,
-- if a message that is no dispose message was posted or is due: it returns the first of these, the
-- posted ones before the delayed ones and the latter in the order of their run times, and leaves the
-- others in this order; the delayed messages that are not due stay.
pub get_delivers :
    (cms start : ℤ) (ws : List Wait) (q : Queue) {m : Message} {rest : List Message}
    → IsOrdered q.delayed_messages
    → q.peek_keep ≡ false
    → select is_live (pending start q) ≡ m ∷ rest
    → let o = get cms start ws q in
      (o.reply ≡ got m)
      × (select is_live o.queue.messages ≡ rest)
      × (o.queue.delayed_messages ≡ select (λ d. not (is_due start d)) q.delayed_messages)
      × (o.timeouts ≡ [])
get_delivers cms start ws q {m} {rest} h p e =
    rw
      (
        get_unpeeked cms start ws q p,
        get_loop_found cms start start (pos 0) q ws (s.found ∙ ap head? e),
      )
      (refl, s.left ∙ ap tail e, s.delayed, refl)
  where
    s : Scanned start q (scan start q)
    s = scan-Scanned start q h

is_quitting_cong : (q r : Queue) → q.stop ≡ r.stop → is_quitting q ≡ is_quitting r
unfolding is_quitting
is_quitting_cong q r e = rw e

-- With no peeked message and nothing to return, `Get` on a quitting thread fails without a wait.
pub get_drained :
    (cms start : ℤ) (ws : List Wait) (q : Queue)
    → IsOrdered q.delayed_messages
    → q.peek_keep ≡ false
    → select is_live (pending start q) ≡ []
    → is_quitting q ≡ true
    → let o = get cms start ws q in
      (o.reply ≡ failed)
      × (o.queue.delayed_messages ≡ select (λ d. not (is_due start d)) q.delayed_messages)
      × (o.timeouts ≡ [])
get_drained cms start ws q h p e stopped =
    rw
      (
        get_unpeeked cms start ws q p,
        get_loop_quitting cms start start (pos 0) q ws (s.found ∙ ap head? e)
            (is_quitting_cong (scan start q).queue q s.stop ∙ stopped),
      )
      (refl, s.delayed, refl)
  where
    s : Scanned start q (scan start q)
    s = scan-Scanned start q h

peek_unpeeked :
    (cms start : ℤ) (ws : List Wait) (q : Queue)
    → q.peek_keep ≡ false
    → peek cms start ws q ≡ keep_peek (get cms start ws q)
unfolding peek
peek_unpeeked cms start ws q e = simp e

keep_peek_got :
    (o : Outcome) {m : Message}
    → o.reply ≡ got m
    → keep_peek o
      ≡ record o { reply = got m; queue = record (o.queue) { msg_peek = m; peek_keep = true } }
unfolding keep_peek
keep_peek_got o r = ground arith

pub get_peeked :
    (cms start : ℤ) (ws : List Wait) (q : Queue)
    → q.peek_keep ≡ true
    → get cms start ws q ≡ answer (got q.msg_peek) (record q { peek_keep = false })
unfolding get
get_peeked cms start ws q e = simp e

get-peek_keep :
    (cms start : ℤ) (ws : List Wait) (q : Queue) → (get cms start ws q).queue.peek_keep ≡ false
get-peek_keep cms start ws q = elim (Bool-cases q.peek_keep) [
  | inl peeked ↦ rw (get_peeked cms start ws q peeked)
  | inr fresh ↦ rw (get_unpeeked cms start ws q fresh) (
      get_loop_inv (λ r. r.peek_keep ≡ false) scan-peek_keep call-peek_keep cms start start (pos 0)
        q ws fresh)
]

-- A message that `Peek` returns is the one that the next `Get` returns, at once, and the queue is
-- then the one that a `Get` in place of the `Peek` would have left, but for the copy in `msgPeek_`.
pub get-peek :
    (cms start cms' start' : ℤ) (ws ws' : List Wait) (q : Queue) {m : Message}
    → q.peek_keep ≡ false
    → (get cms start ws q).reply ≡ got m
    → let p = peek cms start ws q in
      let o = get cms' start' ws' p.queue in
      (p.reply ≡ got m)
      × (o.reply ≡ got m)
      × (o.queue ≡ record ((get cms start ws q).queue) { msg_peek = m })
      × (o.timeouts ≡ [])
get-peek cms start cms' start' ws ws' q {m} e r =
    rw
      (
        peek_unpeeked cms start ws q e,
        keep_peek_got (get cms start ws q) r,
        get_peeked cms' start' ws' (record left { msg_peek = m; peek_keep = true }) refl,
      )
      (
        refl,
        refl,
        ap (λ b. record left { msg_peek = m; peek_keep = b }) (sym (get-peek_keep cms start ws q)),
        refl,
      )
  where
    left : Queue
    left = (get cms start ws q).queue

-- A wait that succeeds and ends before the asked time has passed.
abbrev pub IsEarly : ℤ → ℤ → Wait → Type 0
IsEarly cms start w = (w.success ≡ true) × ((cms ≡ forever) ⊎ (w.now -ℤ start <ℤ cms))

-- A wait that fails, or that ends when the asked time has passed.
abbrev pub IsOver : ℤ → ℤ → Wait → Type 0
IsOver cms start w = (w.success ≡ false) ⊎ ((cms ≢ forever) × (cms ≤ℤ w.now -ℤ start))

early-goes_on : (cms start : ℤ) (w : Wait) → IsEarly cms start w → gives_up cms start w ≡ false
unfolding gives_up
early-goes_on cms start w (ok, inl e) = rw (ok, e) refl
early-goes_on cms start w (ok, inr e) = rw ok (ground arith)

over-gives_up : (cms start : ℤ) (w : Wait) → IsOver cms start w → gives_up cms start w ≡ true
unfolding gives_up
over-gives_up cms start w (inl bad) = rw bad refl
over-gives_up cms start w (inr (timed, passed)) = elim (Bool-cases w.success) [
  | inl ok ↦ rw ok (over cms timed passed)
  | inr bad ↦ rw bad refl
]
  where
    over :
        (c : ℤ)
        → c ≢ forever
        → c ≤ℤ w.now -ℤ start
        → (not true || (not (eqb_ℤ c forever) && leb_ℤ c (w.now -ℤ start))) ≡ true
    over (pos n) ne h = ground arith
    over (negsuc zero) ne h = absurd (ne refl)
    over (negsuc (suc n)) ne h = ground arith

-- If every wait succeeds and ends before the asked time has passed, or no limit was asked for, then `Get` on a
-- thread with no peeked message returns false only when the thread is quitting.
pub get_fails_only :
    (cms start : ℤ) (ws : List Wait) (q : Queue)
    → q.peek_keep ≡ false
    → All (IsEarly cms start) ws
    → (get cms start ws q).reply ≡ failed
    → is_quitting (get cms start ws q).queue ≡ true
get_fails_only cms start ws q p on e = rw (get_unpeeked cms start ws q p) (
    get_loop_fails_only cms start start (pos 0) q ws (All-map ws (early-goes_on cms start) on)
      (rw (get_unpeeked cms start ws q p) at e))

here :
    (cms start : ℤ) (before after : List Wait) (w : Wait)
    → gives_up cms start w ≡ true
    → Any (λ v. gives_up cms start v ≡ true) (before ++ w ∷ after)
here cms start [] after w h = inl h
here cms start (v ∷ before) after w h = inr (here cms start before after w h)

-- `Get` comes back: if one of the waits fails, or ends when the asked time has passed or just then (and a time
-- was asked for), `Get` does not wait any more after it, and what it answers depends on no later wait.
pub get-gives_up :
    (cms start : ℤ) (before after : List Wait) (w : Wait) (q : Queue)
    → IsOver cms start w
    → let o = get cms start (before ++ w ∷ after) q in
      (o.reply ≢ waiting) × (o ≡ get cms start (before ++ w ∷ []) q)
get-gives_up cms start before after w q h = elim (Bool-cases q.peek_keep) [
  | inl peeked ↦
      rw
        (
          get_peeked cms start (before ++ w ∷ after) q peeked,
          get_peeked cms start (before ++ w ∷ []) q peeked,
        )
        (λ e. cc, refl)
  | inr fresh ↦
      rw
        (
          get_unpeeked cms start (before ++ w ∷ after) q fresh,
          get_unpeeked cms start (before ++ w ∷ []) q fresh,
        )
        (
          get_loop-gives_up cms start start (pos 0) q (before ++ w ∷ after)
              (here cms start before after w (over-gives_up cms start w h)),
          get_loop_stops cms start start (pos 0) q before after w (over-gives_up cms start w h),
        )
]
