-- ===== src/Thread/Tests.antt =====
-- Runs of a thread's life and of sends to it.
use rtc_base.Common.{◌≡◌, refl, true, false, [], ◌∷◌, inr, arith}
use rtc_base.Thread.Send.{
  Target, k_send, other, act, acts, runs_next, looks, clears_all, send_to, waits, may_return,
}
use rtc_base.Thread.Send.Reply.{send_to_cleared}
use rtc_base.Thread.Send.Served.{acts-may_return}

-- One message in front of the task of send 3.
abbrev busy : Target
busy = record {
  queue = other 8 ∷ k_send (record { send = 3; from_thread = true }) ∷ [];
  quitting = false;
  ready = λ _. false;
  asleep = λ _. false;
  handled = [];
}

acts-may_return_example : may_return 3 (acts (runs_next ∷ looks 3 ∷ runs_next ∷ []) busy) ≡ true
acts-may_return_example =
    acts-may_return 3 (runs_next ∷ looks 3 ∷ runs_next ∷ []) 1 busy (inr refl) (omega arith) tt
      (omega arith)

send_to_cleared_example :
    ((send_to false true 5 busy).1 ≡ waits)
    × (may_return 5 (acts (runs_next ∷ []) (act clears_all (send_to false true 5 busy).0)) ≡ false)
send_to_cleared_example = send_to_cleared 5 true busy (runs_next ∷ []) refl (tt, tt)
