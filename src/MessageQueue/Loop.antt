-- ===== src/MessageQueue/Loop.antt =====
-- The outer loop of `Thread::Get` (thread.cc): how it ends, and a rule for what it keeps.
use rtc_base.Common.{
  ◌≡◌, refl, ◌∙◌, sym, ap, Bool, true, false, Option, none, some, List, [], ◌∷◌, ◌++◌, arith, All,
  Any, Bool-cases, inl, inr, if◌then◌else◌, ◌≢◌, ◌⊎◌,
}
use rtc_base.Common.Int.{ℤ, ◌-ℤ◌}
use mathlib.Core.Bool.{false≢true}
use rtc_base.Message.{Message}
use rtc_base.MessageQueue.State
use rtc_base.MessageQueue.Clear.{clear_internal}
use rtc_base.MessageQueue.State.{Queue, is_quitting}
use rtc_base.MessageQueue.Calls.{Call, call, calls}
use rtc_base.MessageQueue.Get.{
  Scan, scan, gives_up, Wait, Reply, got, failed, waiting, Outcome, conclude, get_loop,
}

abbrev pub answer : Reply → Queue → Outcome
answer r q = record { reply = r; queue = q; timeouts = [] }

pub conclude_found :
    (s : Scan) (k : Scan → Outcome) {m : Message}
    → s.found ≡ some m
    → conclude s k ≡ answer (got m) s.queue
unfolding conclude
conclude_found s k e = rw (e, conclude)

pub conclude_quitting :
    (s : Scan) (k : Scan → Outcome)
    → s.found ≡ none
    → is_quitting s.queue ≡ true
    → conclude s k ≡ answer failed s.queue
unfolding conclude
conclude_quitting s k e h = ground arith

pub get_loop_found :
    (cms start now elapsed : ℤ) (q : Queue) (ws : List Wait) {m : Message}
    → (scan now q).found ≡ some m
    → get_loop cms start now elapsed q ws ≡ answer (got m) (scan now q).queue
unfolding get_loop
get_loop_found cms start now elapsed q [] e = conclude_found _ _ e
get_loop_found cms start now elapsed q (w ∷ ws) e = conclude_found _ _ e

pub get_loop_quitting :
    (cms start now elapsed : ℤ) (q : Queue) (ws : List Wait)
    → (scan now q).found ≡ none
    → is_quitting (scan now q).queue ≡ true
    → get_loop cms start now elapsed q ws ≡ answer failed (scan now q).queue
unfolding get_loop
get_loop_quitting cms start now elapsed q [] e h = conclude_quitting _ _ e h
get_loop_quitting cms start now elapsed q (w ∷ ws) e h = conclude_quitting _ _ e h

-- The three ways on from a run of the inner loop.
pub conclude_cases {ℓ} :
    (P : Outcome → Type ℓ) (s : Scan) (k : Scan → Outcome)
    → ((m : Message) → s.found ≡ some m → P (answer (got m) s.queue))
    → (s.found ≡ none → P (answer failed s.queue))
    → (s.found ≡ none → P (k s))
    → P (conclude s k)
unfolding conclude
conclude_cases P s k found quitting on = go s.found (is_quitting s.queue) found quitting on
  where
    go :
        (f : Option Message) (b : Bool)
        → ((m : Message) → f ≡ some m → P (answer (got m) s.queue))
        → (f ≡ none → P (answer failed s.queue))
        → (f ≡ none → P (k s))
        → P (elim f as (λ _. Outcome) [
          | some m ↦ answer (got m) s.queue
          | none ↦ (if b then answer failed s.queue else k s)
        ])
    go (some m) b f q o = f m refl
    go none true f q o = q refl
    go none false f q o = o refl

conclude_inv {ℓ} :
    (P : Queue → Type ℓ) (s : Scan) (k : Scan → Outcome)
    → P s.queue
    → P (k s).queue
    → P (conclude s k).queue
conclude_inv P s k h h' = conclude_cases (λ o. P o.queue) s k (λ _ _. h) (λ _. h) (λ _. h')

pub calls_inv {ℓ} :
    (P : Queue → Type ℓ)
    → ((c : Call) (q : Queue) → P q → P (call c q))
    → (cs : List Call) (q : Queue) → P q
    → P (calls cs q)
unfolding calls
calls_inv P keep [] q h = h
calls_inv P keep (c ∷ cs) q h = calls_inv P keep cs (call c q) (keep c q h)

-- What one run of the inner loop keeps, and each call of another thread, the whole loop keeps.
pub get_loop_inv {ℓ} :
    (P : Queue → Type ℓ)
    → ((now : ℤ) (q : Queue) → P q → P (scan now q).queue)
    → ((c : Call) (q : Queue) → P q → P (call c q))
    → (cms start now elapsed : ℤ) (q : Queue) (ws : List Wait) → P q
    → P (get_loop cms start now elapsed q ws).queue
unfolding get_loop
get_loop_inv P keep_scan keep_call cms start now elapsed q [] h =
    conclude_inv P (scan now q) _ (keep_scan now q h) (keep_scan now q h)
get_loop_inv P keep_scan keep_call cms start now elapsed q (w ∷ ws) h =
    conclude_inv P (scan now q) _ (keep_scan now q h) (elim (Bool-cases (gives_up cms start w)) [
      | inl over ↦ rw over later
      | inr on ↦
          rw on (get_loop_inv P keep_scan keep_call cms start w.now (w.now -ℤ start) _ ws later)
    ])
  where
    later : P (calls w.during (scan now q).queue)
    later = calls_inv P keep_call w.during _ (keep_scan now q h)

-- Other threads never set `fPeekKeep_`.
pub call-peek_keep : (c : Call) (q : Queue) → q.peek_keep ≡ false → (call c q).peek_keep ≡ false
unfolding call State.post State.do_delay_post State.post_delayed State.post_at State.quit
    State.restart clear_internal
call-peek_keep (Call.post from handler id pdata) q e = ground arith
call-peek_keep c q e = ground arith

pub scan-peek_keep :
    (now : ℤ) (q : Queue) → q.peek_keep ≡ false → (scan now q).queue.peek_keep ≡ false
unfolding scan
scan-peek_keep now q e = e

conclude_failed :
    (s : Scan) (k : Scan → Outcome)
    → ((k s).reply ≡ failed → is_quitting (k s).queue ≡ true)
    → (conclude s k).reply ≡ failed
    → is_quitting (conclude s k).queue ≡ true
unfolding conclude
conclude_failed s k later e = ground arith

pub get_loop_fails_only :
    (cms start now elapsed : ℤ) (q : Queue) (ws : List Wait)
    → All (λ w. gives_up cms start w ≡ false) ws
    → (get_loop cms start now elapsed q ws).reply ≡ failed
    → is_quitting (get_loop cms start now elapsed q ws).queue ≡ true
unfolding get_loop
get_loop_fails_only cms start now elapsed q [] on e = conclude_failed (scan now q) _ (λ f. cc) e
get_loop_fails_only cms start now elapsed q (w ∷ ws) on e =
    conclude_failed (scan now q) _
      (rw (on.0) (
        get_loop_fails_only cms start w.now (w.now -ℤ start) (calls w.during (scan now q).queue) ws
          on.1))
      e

conclude-ne-waiting :
    (s : Scan) (k : Scan → Outcome) → (k s).reply ≢ waiting → (conclude s k).reply ≢ waiting
unfolding conclude
conclude-ne-waiting s k later = ground arith

pub get_loop-gives_up :
    (cms start now elapsed : ℤ) (q : Queue) (ws : List Wait)
    → Any (λ w. gives_up cms start w ≡ true) ws
    → (get_loop cms start now elapsed q ws).reply ≢ waiting
unfolding get_loop
get_loop-gives_up cms start now elapsed q [] h = absurd h
get_loop-gives_up cms start now elapsed q (w ∷ ws) h =
    conclude-ne-waiting (scan now q) _ (elim (Bool-cases (gives_up cms start w)) [
      | inl over ↦ rw over (λ e. cc)
      | inr on ↦ rw on (
          get_loop-gives_up cms start w.now (w.now -ℤ start) (calls w.during (scan now q).queue) ws
            (later h on))
    ])
  where
    later :
        (gives_up cms start w ≡ true) ⊎ Any (λ v. gives_up cms start v ≡ true) ws
        → gives_up cms start w ≡ false
        → Any (λ v. gives_up cms start v ≡ true) ws
    later (inl over) on = absurd (false≢true (sym on ∙ over))
    later (inr h) on = h

conclude_cong : (s : Scan) (k k' : Scan → Outcome) → k s ≡ k' s → conclude s k ≡ conclude s k'
unfolding conclude
conclude_cong s k k' e =
    ap
      (λ (o : Outcome). elim (s.found) as (λ _. Outcome) [
        | some m ↦ answer (got m) s.queue
        | none ↦ (if is_quitting s.queue then answer failed s.queue else o)
      ])
      e

-- The waits after one with which `Get` gives up are not reached.
pub get_loop_stops :
    (cms start now elapsed : ℤ) (q : Queue) (before after : List Wait) (w : Wait)
    → gives_up cms start w ≡ true
    → get_loop cms start now elapsed q (before ++ w ∷ after)
      ≡ get_loop cms start now elapsed q (before ++ w ∷ [])
unfolding get_loop
get_loop_stops cms start now elapsed q [] after w over =
    conclude_cong (scan now q) _ _ (rw over refl)
get_loop_stops cms start now elapsed q (v ∷ before) after w over = conclude_cong (scan now q) _ _ (
    rw
      (get_loop_stops cms start v.now (v.now -ℤ start) (calls v.during (scan now q).queue) before
        after w over)
      refl)
