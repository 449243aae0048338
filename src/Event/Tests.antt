-- ===== src/Event/Tests.antt =====
-- Runs of an automatic event.
use rtc_base.Common.{◌≡◌, refl, true, false, List, [], ◌∷◌, arith}
use rtc_base.Common.Int.{pos}
use rtc_base.Event.{
  outside, first_wait, last_wait, returned, woken, timed_out, World, event, Act, sets_it, waits,
  wakes_up, acts, wake, k_forever,
}
use rtc_base.Event.Signals.{IsPaid, acts-IsPaid}

abbrev two_callers : World
two_callers = record {
  is_manual_reset = false;
  status = false;
  phases = outside ∷ outside ∷ [];
  wakes = 0;
  sets = 0;
}

-- Two threads wait, one of them with a warning; one signal lets one of them through.
abbrev two_wait : List Act
two_wait =
    waits k_forever (pos 3000) 0
    ∷ waits (pos 10) (pos 3000) 1
    ∷ sets_it
    ∷ wakes_up woken 1
    ∷ wakes_up woken 0
    ∷ wakes_up timed_out 0
    ∷ []

new_event : event false false (outside ∷ outside ∷ []) ≡ two_callers
unfolding event
new_event = refl

acts-IsPaid_example : IsPaid 0 (acts two_wait two_callers)
acts-IsPaid_example =
    acts-IsPaid 0 two_wait two_callers (record { automatic = refl; paid = omega arith })

two_wait_run : (acts two_wait two_callers).phases ≡ last_wait ∷ returned true ∷ []
unfolding acts rtc_base.Event.act rtc_base.Event.set_event rtc_base.Event.warns
two_wait_run = refl

abbrev two_waiting : World
two_waiting = record {
  is_manual_reset = false;
  status = true;
  phases = first_wait ∷ last_wait ∷ [];
  wakes = 0;
  sets = 1;
}
