-- ===== src/MessageQueue/Timeouts.antt =====
-- How long `Thread::Get` (thread.cc) lets the socket server wait.
use rtc_base.Common.{
  ◌-◌, ◌^◌, ◌≡◌, ◌≢◌, ◌⊎◌, inl, inr, refl, true, false, not, List, [], ◌∷◌, arith, All, All-map,
  Bool-cases, All-select, All-select_of,
}
use rtc_base.Common.Int.{ℤ, pos, negsuc, ◌-ℤ◌, ◌≤ℤ◌, ◌<ℤ◌, max_ℤ, to_int32, -ℤ_parts}
use rtc_base.MessageQueue.State.{Queue}
use rtc_base.MessageQueue.Delayed.{DelayedMessage, less}
use rtc_base.MessageQueue.Get.{forever, scan, next_wait, gives_up, Wait, get_loop, get}
use rtc_base.MessageQueue.Calls.{calls}
use rtc_base.MessageQueue.Invariant.{IsValid, call-IsValid, scan-IsValid}
use rtc_base.MessageQueue.Delivery.{get_peeked, get_unpeeked}
use rtc_base.MessageQueue.Loop.{conclude_cases, calls_inv}
use rtc_base.MessageQueue.Order.{IsOrdered, select-IsOrdered}
use rtc_base.MessageQueue.Due.{is_due, first_delay, Scanned, scan-Scanned}

abbrev pub int_max : ℤ
int_max = pos (2 ^ 31 - 1)

to_int32_fits : (t : ℤ) → negsuc (2 ^ 31 - 1) ≤ℤ t → t ≤ℤ int_max → to_int32 t ≡ t
unfolding to_int32
to_int32_fits (pos n) lo hi = ground arith
to_int32_fits (negsuc n) lo hi = ground arith

-- An argument of `Get`: `kForever`, or a number of milliseconds.
abbrev pub IsTimeout : ℤ → Type 0
IsTimeout cms = (cms ≡ forever) ⊎ (pos 0 ≤ℤ cms)

abbrev pub IsWithin : ℤ → ℤ → DelayedMessage → Type 0
IsWithin t now d = (pos 0 ≤ℤ t) × (t ≤ℤ d.run_time_ms -ℤ now)

soonest :
    (now t : ℤ) (d e : DelayedMessage) → less d e ≡ false → IsWithin t now d → IsWithin t now e
unfolding less
soonest now t d e h w = ground (arith, -ℤ_parts d.run_time_ms now, -ℤ_parts e.run_time_ms now)

next_wait-IsWithin :
    (cms elapsed now : ℤ) (d : DelayedMessage)
    → IsTimeout cms
    → now <ℤ d.run_time_ms
    → IsWithin (next_wait cms elapsed (d.run_time_ms -ℤ now)) now d
unfolding next_wait
next_wait-IsWithin cms elapsed now d c h =
    ground (arith, -ℤ_parts d.run_time_ms now, -ℤ_parts cms elapsed)

-- What a timeout `t` for `ss_->Wait` may be, with the delayed messages `ds`.
pub record IsTimely (t cms elapsed now : ℤ) (ds : List DelayedMessage) : Type 0 where
  pub within : All (IsWithin t now) ds
  pub asked : cms ≢ forever → (pos 0 ≤ℤ t) × (t ≤ℤ max_ℤ (pos 0) (cms -ℤ elapsed))
  pub endless : t ≡ forever → (cms ≡ forever) × (ds ≡ [])

abbrev pub IsShort : ℤ → DelayedMessage → Type 0
IsShort now d = d.run_time_ms -ℤ now ≤ℤ int_max

next_wait_asked :
    (cms elapsed delay : ℤ)
    → cms ≢ forever
    → (delay ≡ forever) ⊎ (pos 0 ≤ℤ delay)
    → let t = next_wait cms elapsed delay in (pos 0 ≤ℤ t) × (t ≤ℤ max_ℤ (pos 0) (cms -ℤ elapsed))
unfolding next_wait
next_wait_asked cms elapsed delay c d = ground (arith, -ℤ_parts cms elapsed)

asked-le_int_max :
    (cms elapsed : ℤ)
    → cms ≤ℤ int_max
    → pos 0 ≤ℤ elapsed
    → max_ℤ (pos 0) (cms -ℤ elapsed) ≤ℤ int_max
asked-le_int_max cms elapsed c e = ground (arith, -ℤ_parts cms elapsed)

next_wait-forever : (elapsed : ℤ) → next_wait forever elapsed forever ≡ forever
unfolding next_wait
next_wait-forever elapsed = refl

nonneg-ne-forever : (t : ℤ) → pos 0 ≤ℤ t → t ≢ forever
nonneg-ne-forever t h = ground arith

timely :
    (cms elapsed now : ℤ) (ds : List DelayedMessage)
    → IsTimeout cms
    → cms ≤ℤ int_max
    → pos 0 ≤ℤ elapsed
    → IsOrdered ds
    → All (λ d. now <ℤ d.run_time_ms) ds
    → All (IsShort now) ds
    → IsTimely (to_int32 (next_wait cms elapsed (first_delay now ds))) cms elapsed now ds
timely cms elapsed now [] (inl c) small e o later short =
    rw (c, next_wait-forever)
      (record { within = tt; asked = λ ne. absurd (ne refl); endless = λ f. (refl, refl) })
timely cms elapsed now [] (inr c) small e o later short =
    rw
      (to_int32_fits t (omega (arith, bounds))
        (omega (arith, bounds, asked-le_int_max cms elapsed small e)))
      (record {
        within = tt;
        asked = λ _. bounds;
        endless = λ f. absurd (nonneg-ne-forever t bounds.0 f);
      })
  where
    t : ℤ
    t = next_wait cms elapsed forever

    bounds : (pos 0 ≤ℤ t) × (t ≤ℤ max_ℤ (pos 0) (cms -ℤ elapsed))
    bounds = next_wait_asked cms elapsed forever (nonneg-ne-forever cms c) (inl refl)
timely cms elapsed now (d ∷ ds) c small e o later short =
    rw (to_int32_fits t (omega (arith, w)) (omega (arith, w, short.0))) (record {
      within = (w, All-map ds (λ x h. soonest now t d x h w) o.0);
      asked = λ ne. next_wait_asked cms elapsed _ ne (inr (omega (arith, w)));
      endless = λ f. absurd (nonneg-ne-forever t w.0 f);
    })
  where
    t : ℤ
    t = next_wait cms elapsed (d.run_time_ms -ℤ now)

    w : IsWithin t now d
    w = next_wait-IsWithin cms elapsed now d c later.0

is_due_later : (now : ℤ) (d : DelayedMessage) → not (is_due now d) ≡ true → now <ℤ d.run_time_ms
is_due_later now d h = ground arith

wait-IsTimely :
    (cms elapsed now : ℤ) (q : Queue)
    → IsTimeout cms
    → cms ≤ℤ int_max
    → pos 0 ≤ℤ elapsed
    → IsOrdered q.delayed_messages
    → All (IsShort now) q.delayed_messages
    → let s = scan now q in
      IsTimely
        (to_int32 (next_wait cms elapsed s.delay_next))
        cms
        elapsed
        now
        s.queue.delayed_messages
wait-IsTimely cms elapsed now q c small e o short =
    rw (s.next, s.delayed)
      (timely cms elapsed now _ c small e
        (select-IsOrdered (λ d. not (is_due now d)) q.delayed_messages o)
        (All-map _ (is_due_later now) (All-select (λ d. not (is_due now d)) q.delayed_messages))
        (All-select_of (IsShort now) (λ d. not (is_due now d)) q.delayed_messages short))
  where
    s : Scanned now q (scan now q)
    s = scan-Scanned now q o

-- The queue that `Get` finds after a wait for which it did not return, from the queue of the round before.
abbrev pub next_queue : ℤ → Queue → Wait → Queue
next_queue now q w = calls w.during (scan now q).queue

-- In each round of `Get` the delayed messages run within the next 2 ^ 31 - 1 milliseconds.
abbrev pub Short : ℤ → Queue → List Wait → Type 0
Short now q [] = All (IsShort now) q.delayed_messages
Short now q (w ∷ ws) = All (IsShort now) q.delayed_messages × Short w.now (next_queue now q w) ws

-- One timeout for each round, from the one that begins at `now`: it is timely for the time that has passed
-- since `start`, and for the delayed messages that are not due in that round.
abbrev pub EachTimely : ℤ → ℤ → ℤ → Queue → List Wait → List ℤ → Type 0
EachTimely cms start now q ws [] = Unit {0}
EachTimely cms start now q [] (t ∷ ts) =
    IsTimely t cms (now -ℤ start) now (scan now q).queue.delayed_messages × (ts ≡ [])
EachTimely cms start now q (w ∷ ws) (t ∷ ts) =
    IsTimely t cms (now -ℤ start) now (scan now q).queue.delayed_messages
    × EachTimely cms start w.now (next_queue now q w) ws ts

since-nonneg : (now start : ℤ) → start ≤ℤ now → pos 0 ≤ℤ now -ℤ start
since-nonneg now start h = omega (arith, -ℤ_parts now start)

since_start : (start : ℤ) → pos 0 ≡ start -ℤ start
unfolding ◌-ℤ◌
since_start (pos n) = ground arith
since_start (negsuc n) = ground arith

module _ (cms start : ℤ) (c : IsTimeout cms) (small : cms ≤ℤ int_max) where
  loop-EachTimely :
      (now elapsed : ℤ) (q : Queue) (ws : List Wait)
      → elapsed ≡ now -ℤ start
      → start ≤ℤ now
      → All (λ w. start ≤ℤ w.now) ws
      → IsValid q
      → Short now q ws
      → EachTimely cms start now q ws (get_loop cms start now elapsed q ws).timeouts
  unfolding get_loop
  loop-EachTimely now elapsed q [] e onward later v short =
      conclude_cases (λ o. EachTimely cms start now q [] o.timeouts) (scan now q) _ (λ _ _. tt)
        (λ _. tt)
        (λ _. (
          rw e (
              wait-IsTimely cms (now -ℤ start) now q c small (since-nonneg now start onward)
                v.ordered short),
          refl,
        ))
  loop-EachTimely now elapsed q (w ∷ ws) e onward later v short =
      conclude_cases (λ o. EachTimely cms start now q (w ∷ ws) o.timeouts) (scan now q) _
        (λ _ _. tt) (λ _. tt)
        (λ _. elim (Bool-cases (gives_up cms start w)) [
          | inl over ↦ rw over (first, tt)
          | inr on ↦ rw on (
            first,
            loop-EachTimely w.now (w.now -ℤ start) (next_queue now q w) ws refl later.0 later.1
                (calls_inv IsValid call-IsValid w.during (scan now q).queue (scan-IsValid now q v))
                short.1,
          )
        ])
    where
      first :
          IsTimely
            (to_int32 (next_wait cms elapsed (scan now q).delay_next))
            cms
            (now -ℤ start)
            now
            (scan now q).queue.delayed_messages
      first = rw e (
          wait-IsTimely cms (now -ℤ start) now q c small (since-nonneg now start onward) v.ordered
            short.0)

  -- The timeout of each `ss_->Wait` of `Get` ends when the first delayed message of that round becomes due, or
  -- before; it is at most what is left, at the round's time, of the time that was asked for at the start; and `Get`
  -- waits with no limit only if it was asked to and there is no delayed message. The asked time is `kForever`, or
  -- fits in `int`; the queue is valid, the clock is never before the start, and in each round the delayed messages run
  -- within the next 2 ^ 31 - 1 milliseconds.
  pub get-EachTimely :
      (ws : List Wait) (q : Queue)
      → IsValid q
      → All (λ w. start ≤ℤ w.now) ws
      → Short start q ws
      → EachTimely cms start start q ws (get cms start ws q).timeouts
  get-EachTimely ws q v later short = elim (Bool-cases q.peek_keep) [
    | inl peeked ↦ rw (get_peeked cms start ws q peeked) tt
    | inr fresh ↦
        rw (get_unpeeked cms start ws q fresh)
          (loop-EachTimely start (pos 0) q ws (since_start start) (omega arith) later v short)
  ]
