-- ===== src/MessageQueue/Traffic.antt =====
-- The account of message data through `Clear` and `Get` (thread.cc).
use rtc_base.Common.{
  ℕ, ◌+◌, ◌≡◌, ◌∙◌, ap, Option, none, some, List, [], ◌∷◌, ◌++◌, arith, All, Bool-cases, inl, inr,
  count, length, take,
}
use rtc_base.Common.Int.{ℤ, pos, ltb_ℤ, ◌-ℤ◌}
use rtc_base.Message.{Message, free}
use rtc_base.MessageQueue.State
use rtc_base.MessageQueue.State.{Queue, is_quitting, post, do_delay_post, message}
use rtc_base.MessageQueue.Delayed.{DelayedMessage}
use rtc_base.MessageQueue.Clear.{clear_internal}
use rtc_base.MessageQueue.Removal.{matching, clear_reheaped}
use rtc_base.MessageQueue.Invariant.{IsValid, call-IsValid, scan-IsValid}
use rtc_base.MessageQueue.Calls.{Call, call, calls}
use rtc_base.MessageQueue.Get.{
  collect_due, pull, scan, Wait, gives_up, Reply, got, failed, waiting, Outcome, get_loop, get,
}
use rtc_base.MessageQueue.Loop.{conclude_cases, calls_inv}
use rtc_base.MessageQueue.Delivery.{get_peeked, get_unpeeked}
use rtc_base.MessageQueue.Ownership.{
  owns, own_all, own_delayed, ledger, own_all-append, own_all-matching, count-free, count-free_all,
  ledger-post, ledger-do_delay_post,
}

-- The messages of a list that a caller may have given.
abbrev pub taken : Option (List Message) → List Message
taken none = []
taken (some ms) = ms

clear_away_ledger :
    (p : ℕ) (handler : Option ℕ) (id : ℕ) (order : List ℕ) (q : Queue)
    → ledger p (clear_internal handler id none order q).0 ≡ ledger p q
clear_away_ledger p handler id order q = rw (clear_reheaped handler id none order q) (
    omega (
      arith,
      count-free_all p (matching handler id order q) q.deleted,
      own_all-matching p handler id order q,
    ))

-- `Clear` deletes the data of what it takes out, or hands it to the caller.
pub clear_ledger :
    (p : ℕ) (handler : Option ℕ) (id : ℕ) (removed : Option (List Message)) (order : List ℕ)
    (q : Queue)
    → let (q', removed') = clear_internal handler id removed order q in
      ledger p q' + own_all p (taken removed') ≡ ledger p q + own_all p (taken removed)
clear_ledger p handler id none order q =
    omega (arith, clear_away_ledger p handler id order q, none_taken)
  where
    none_taken : own_all p (taken (clear_internal handler id none order q).1) ≡ 0
    none_taken = rw (clear_reheaped handler id none order q) (omega arith)
clear_ledger p handler id (some ms) order q = rw (clear_reheaped handler id (some ms) order q) (
    omega (
      arith,
      own_all-append p ms (matching handler id order q),
      own_all-matching p handler id order q,
    ))

own_found : ℕ → Option Message → ℕ
own_found p none = 0
own_found p (some m) = owns p m

pull_ledger :
    (p : ℕ) (ms : List Message) (deleted : List ℕ)
    → let (found, rest, deleted') = pull ms deleted in
      own_found p found + own_all p rest + count p deleted' ≡ own_all p ms + count p deleted
unfolding pull own_found
pull_ledger p [] deleted = omega arith
pull_ledger p (m ∷ ms) deleted =
    ground (arith, pull_ledger p ms (free m.pdata deleted), count-free p m.pdata deleted)

collect_due_ledger :
    (p : ℕ) (now : ℤ) (ds : List DelayedMessage) (ms : List Message)
    → let (_, ms', ds') = collect_due now ds ms in
      own_all p ms' + own_delayed p ds' ≡ own_all p ms + own_delayed p ds
unfolding collect_due
collect_due_ledger p now [] ms = omega arith
collect_due_ledger p now (d ∷ ds) ms = elim (Bool-cases (ltb_ℤ now d.run_time_ms)) [
  | inl later ↦ rw later
  | inr due ↦ rw due (
      omega
        (arith, collect_due_ledger p now ds (ms ++ (d.msg ∷ [])), own_all-append p ms (d.msg ∷ [])))
]

ledger-scan :
    (p : ℕ) (now : ℤ) (q : Queue)
    → own_found p (scan now q).found + ledger p (scan now q).queue ≡ ledger p q
unfolding scan
ledger-scan p now q =
    let c = collect_due now q.delayed_messages q.messages in
    omega
      (arith, collect_due_ledger p now q.delayed_messages q.messages, pull_ledger p c.1 q.deleted)

-- A call that keeps no message for itself: a `Clear` with no list.
abbrev pub IsPlain : Call → Type 0
IsPlain (Call.clear handler id (some ms) order) = ⊥
IsPlain c = Unit

-- How often the calls bring the data `p` along.
abbrev pub brings : ℕ → Call → ℕ
brings p (Call.post from handler id pdata) = count p (free pdata [])
brings p (Call.post_delayed now from delay handler id pdata) = count p (free pdata [])
brings p (Call.post_at now from at handler id pdata) = count p (free pdata [])
brings p c = 0

abbrev pub brought : ℕ → List Call → ℕ
brought p [] = 0
brought p (c ∷ cs) = brings p c + brought p cs

abbrev pub brought_waits : ℕ → List Wait → ℕ
brought_waits p [] = 0
brought_waits p (w ∷ ws) = brought p w.during + brought_waits p ws

ledger-call :
    (p : ℕ) (c : Call) (q : Queue)
    → IsValid q
    → IsPlain c
    → ledger p (call c q) ≡ ledger p q + brings p c
unfolding call
ledger-call p (Call.post from handler id pdata) q v h = ledger-post p from handler id pdata q
ledger-call p (Call.post_delayed now from delay handler id pdata) q v h =
    unfold State.post_delayed in ledger-do_delay_post p from delay _ handler id pdata q
ledger-call p (Call.post_at now from at handler id pdata) q v h =
    unfold State.post_at in ledger-do_delay_post p from _ at handler id pdata q
ledger-call p (Call.clear handler id none order) q v h =
    clear_away_ledger p handler id order q ∙ omega arith
ledger-call p (Call.clear handler id (some ms) order) q v h = absurd h
ledger-call p Call.quit q v h = unfold State.quit in omega arith
ledger-call p Call.restart q v h = unfold State.restart in omega arith

ledger-calls :
    (p : ℕ) (cs : List Call) (q : Queue)
    → IsValid q
    → All IsPlain cs
    → ledger p (calls cs q) ≡ ledger p q + brought p cs
unfolding calls
ledger-calls p [] q v h = omega arith
ledger-calls p (c ∷ cs) q v h =
    omega (arith, ledger-call p c q v h.0, ledger-calls p cs (call c q) (call-IsValid c q v) h.1)

-- How often a reply hands the data `p` to the caller.
abbrev pub own_reply : ℕ → Reply → ℕ
own_reply p (got m) = owns p m
own_reply p failed = 0
own_reply p waiting = 0

-- The account at the end of a `Get` from `q`, whose calls of `ss_->Wait` were the first of `ws`.
abbrev pub Balanced : ℕ → Queue → List Wait → Outcome → Type 0
Balanced p q ws o =
    ledger p o.queue + own_reply p o.reply
    ≡ ledger p q + brought_waits p (take (length o.timeouts) ws)

get_loop_ledger :
    (p : ℕ) (cms start now elapsed : ℤ) (q : Queue) (ws : List Wait)
    → IsValid q
    → All (λ w. All IsPlain w.during) ws
    → Balanced p q ws (get_loop cms start now elapsed q ws)
unfolding get_loop own_found
get_loop_ledger p cms start now elapsed q [] v plain =
    conclude_cases (Balanced p q []) (scan now q) _
      (λ m e. omega (arith, ap (own_found p) e, ledger-scan p now q))
      (λ e. omega (arith, ap (own_found p) e, ledger-scan p now q))
      (λ e. omega (arith, ap (own_found p) e, ledger-scan p now q))
get_loop_ledger p cms start now elapsed q (w ∷ ws) v plain =
    conclude_cases (Balanced p q (w ∷ ws)) (scan now q) _
      (λ m e. omega (arith, ap (own_found p) e, ledger-scan p now q))
      (λ e. omega (arith, ap (own_found p) e, ledger-scan p now q))
      (λ e. elim (Bool-cases (gives_up cms start w)) [
        | inl over ↦ rw over (omega (arith, ap (own_found p) e, ledger-scan p now q, after))
        | inr on ↦ rw on (
            omega (
              arith,
              ap (own_found p) e,
              ledger-scan p now q,
              after,
              get_loop_ledger p cms start w.now (w.now -ℤ start) (calls w.during (scan now q).queue)
                  ws (calls_inv IsValid call-IsValid w.during (scan now q).queue scanned) plain.1,
            ))
      ])
  where
    scanned : IsValid (scan now q).queue
    scanned = scan-IsValid now q v

    after :
        ledger p (calls w.during (scan now q).queue)
        ≡ ledger p (scan now q).queue + brought p w.during
    after = ledger-calls p w.during (scan now q).queue scanned plain.0

-- Through a `Get`, with the calls of other threads during its waits, each message data is accounted
-- for: what the queue holds or has deleted, and what `Get` hands to the caller, is what the queue held
-- or had deleted before, and what the calls brought. So none is lost, deleted twice, or handed out and
-- deleted. The other threads keep nothing that `Clear` takes out.
pub get_ledger :
    (p : ℕ) (cms start : ℤ) (ws : List Wait) (q : Queue)
    → IsValid q
    → All (λ w. All IsPlain w.during) ws
    → Balanced p q ws (get cms start ws q)
get_ledger p cms start ws q v plain = elim (Bool-cases q.peek_keep) [
  | inl peeked ↦ rw (get_peeked cms start ws q peeked) (ground arith)
  | inr fresh ↦
      rw (get_unpeeked cms start ws q fresh)
        (get_loop_ledger p cms start start (pos 0) q ws v plain)
]
