-- ===== src/MessageQueue/Drained.antt =====
-- `ProcessMessages` (thread.cc) of a thread that is quitting.
use rtc_base.Common.{
  ℕ, zero, suc, ◌+◌, ◌<◌, ◌≡◌, refl, sym, ap, ap₂, ◌∙◌, true, false, not, some, List, [], ◌∷◌, ◌++◌,
  map, length, if◌then◌else◌, arith, All, select, select-append, Bool-cases, inl, inr, ◌⊎◌,
}
use mathlib.Core.List.{head?, tail}
use rtc_base.Common.Int.{ℤ, pos, ◌≤ℤ◌}
use rtc_base.Message.{Message}
use rtc_base.MessageQueue.Delayed.{DelayedMessage}
use rtc_base.MessageQueue.State.{Queue, is_quitting}
use rtc_base.MessageQueue.Calls.{calls}
use rtc_base.MessageQueue.Get.{forever, Wait, got, Outcome, get, scan}
use rtc_base.MessageQueue.Order.{IsOrdered, select-IsOrdered}
use rtc_base.MessageQueue.Due.{is_due, is_live, pending, scan-Scanned}
use rtc_base.MessageQueue.Loop.{get_loop_found, get_loop_quitting}
use rtc_base.MessageQueue.Delivery.{get_unpeeked, get_peeked}
use rtc_base.MessageQueue.Backlog.{live_of, not_yet, pending_later, total, total_parts}
use rtc_base.MessageQueue.Process.{
  Round, process_loop, process_messages, is_post, SameMessages, quitting_same, calls-SameMessages,
}

-- A quitting thread, in order, with nothing peeked.
record IsDraining (q : Queue) : Type 0 where
  ordered : IsOrdered q.delayed_messages
  fresh : q.peek_keep ≡ false
  quitting : is_quitting q ≡ true

IsDraining-same : (q r : Queue) → SameMessages r q → IsDraining q → IsDraining r
IsDraining-same q r s h = record {
  ordered = rw s.delayed h.ordered;
  fresh = s.peek_keep ∙ h.fresh;
  quitting = quitting_same r q s.stop h.quitting;
}

-- The queue behind a `Get` at `t` that returned the first of the messages `m ∷ l`.
record IsNext (t : ℤ) (l : List Message) (q r : Queue) : Type 0 where
  draining : IsDraining r
  posted : select is_live r.messages ≡ l
  delayed : r.delayed_messages ≡ not_yet t q.delayed_messages

IsNext-same :
    (t : ℤ) (l : List Message) (q r r' : Queue)
    → SameMessages r' r
    → IsNext t l q r
    → IsNext t l q r'
IsNext-same t l q r r' s n = record {
  draining = IsDraining-same r r' s n.draining;
  posted = rw s.messages n.posted;
  delayed = s.delayed ∙ n.delayed;
}

get-IsNext :
    (t : ℤ) (ws : List Wait) (q : Queue) (m : Message) (l : List Message)
    → IsDraining q
    → select is_live (pending t q) ≡ m ∷ l
    → let o = get forever t ws q in (o.reply ≡ got m) × IsNext t l q o.queue
get-IsNext t ws q m l h e =
    let s = scan-Scanned t q h.ordered in
    let found =
      get_unpeeked forever t ws q h.fresh
      ∙ get_loop_found forever t t (pos 0) q ws (s.found ∙ ap head? e) in
    rw found (
      refl,
      record {
        draining = record {
          ordered =
              rw s.delayed (select-IsOrdered (λ d. not (is_due t d)) q.delayed_messages h.ordered);
          fresh = s.peek_keep ∙ h.fresh;
          quitting = quitting_same (scan t q).queue q s.stop h.quitting;
        };
        posted = s.left ∙ ap tail e;
        delayed = s.delayed;
      },
    )

-- The handler, and whatever other threads do meanwhile, posts and does nothing else.
abbrev pub Posting : Round → Type 0
Posting r = All (λ c. is_post c ≡ true) r.handler

-- The queue after a round that handles a message.
after_get :
    (r : Round) (q : Queue) (m : Message) (l : List Message)
    → IsDraining q
    → Posting r
    → select is_live (pending r.start q) ≡ m ∷ l
    → IsNext r.start l q (calls r.handler (get forever r.start r.waits q).queue)
after_get r q m l h ps e =
    let next = (get-IsNext r.start r.waits q m l h e).1 in
    IsNext-same r.start l q _ _ (calls-SameMessages r.handler _ ps next.draining.quitting) next

next-pending :
    (t T : ℤ) (m : Message) (l : List Message) (q r : Queue)
    → t ≤ℤ T
    → IsOrdered q.delayed_messages
    → select is_live (pending t q) ≡ m ∷ l
    → IsNext t l q r
    → m ∷ select is_live (pending T r) ≡ select is_live (pending T q)
next-pending t T m l q r h o e n =
    ap (λ k. m ∷ k)
      (select-append is_live r.messages _
        ∙ ap₂ (λ a b. a ++ live_of (select (is_due T) b)) n.posted n.delayed)
    ∙ ap (λ k. k ++ live_of (select (is_due T) (not_yet t q.delayed_messages))) (sym e)
    ∙ sym (pending_later t T q h o)

next-total :
    (t : ℤ) (m : Message) (l : List Message) (q r : Queue)
    → select is_live (pending t q) ≡ m ∷ l
    → IsNext t l q r
    → suc (total r) ≡ total q
next-total t m l q r e n = omega (
  arith,
  total_parts t q,
  ap length e,
  ap length n.posted,
  ap (λ ds. length (live_of ds)) n.delayed,
)

-- When a round begins, by its number; `now` is the time before the first.
abbrev pub start_of : ℕ → ℤ → List Round → ℤ
start_of k now [] = now
start_of zero now (r ∷ rs) = r.start
start_of (suc k) now (r ∷ rs) = start_of k r.start rs

-- The clock never goes back.
abbrev pub Rising : ℤ → List Round → Type 0
Rising now [] = Unit {0}
Rising now (r ∷ rs) = (now ≤ℤ r.start) × Rising r.start rs

start_of-le : (k : ℕ) (now : ℤ) (rs : List Round) → Rising now rs → now ≤ℤ start_of k now rs
start_of-le k now [] h = omega arith
start_of-le zero now (r ∷ rs) h = h.0
start_of-le (suc k) now (r ∷ rs) h = omega (arith, h.0, start_of-le k r.start rs h.1)

abbrev Drained : ℤ → List Round → Queue → Type 0
Drained now rs q =
    let p = process_loop forever (pos 0) forever rs q in
    (p.answered ≡ some false)
    × (p.handled ≡ select is_live (pending (start_of (length p.handled) now rs) q))

loop_ends :
    (now : ℤ) (r : Round) (rs : List Round) (q : Queue)
    → IsDraining q
    → select is_live (pending r.start q) ≡ []
    → Drained now (r ∷ rs) q
unfolding process_loop
loop_ends now r rs q h e =
    let s = scan-Scanned r.start q h.ordered in
    let quitting = quitting_same (scan r.start q).queue q s.stop h.quitting in
    let ended =
      get_unpeeked forever r.start r.waits q h.fresh
      ∙ get_loop_quitting forever r.start r.start (pos 0) q r.waits (s.found ∙ ap head? e)
          quitting in
    rw (ended, process_loop)
      (ap (λ o. some (not (is_quitting o.queue))) ended ∙ ap (λ b. some (not b)) quitting, sym e)

loop_goes_on :
    (now : ℤ) (m : Message) (l : List Message) (r : Round) (rs : List Round) (q : Queue)
    → IsDraining q
    → Rising r.start rs
    → Posting r
    → select is_live (pending r.start q) ≡ m ∷ l
    → let q' = calls r.handler (get forever r.start r.waits q).queue in
      Drained r.start rs q' → Drained now (r ∷ rs) q
unfolding process_loop
loop_goes_on now m l r rs q h rising ps e (done, handled) =
    let answered = (get-IsNext r.start r.waits q m l h e).0 in
    let q' = calls r.handler (get forever r.start r.waits q).queue in
    let n = after_get r q m l h ps e in
    let last = start_of (length (process_loop forever (pos 0) forever rs q').handled) r.start rs in
    rw (answered, process_loop)
      (
        done,
        ap (λ k. m ∷ k) handled
            ∙ next-pending r.start last m l q q' (start_of-le _ r.start rs rising) h.ordered e n,
      )

list_cases : (l : List Message) → (l ≡ []) ⊎ (m : Message) × (k : List Message) × (l ≡ m ∷ k)
list_cases [] = inl refl
list_cases (m ∷ k) = inr (m, k, refl)

loop_drains :
    (now : ℤ) (rounds : List Round) (q : Queue)
    → IsDraining q
    → Rising now rounds
    → All Posting rounds
    → total q < length rounds
    → Drained now rounds q
loop_drains now [] q h rising posts long = absurd (omega (arith, long))
loop_drains now (r ∷ rs) q h rising posts long =
    elim (list_cases (select is_live (pending r.start q))) [
      | inl e ↦ loop_ends now r rs q h e
      | inr (m, l, e) ↦
          let n = after_get r q m l h posts.0 e in
          loop_goes_on now m l r rs q h rising.1 posts.0 e (
            loop_drains r.start rs _ n.draining rising.1 posts.1
              (omega (arith, next-total r.start m l q _ e n, long)))
    ]

abbrev pub peeked : Queue → List Message
peeked q = if q.peek_keep then q.msg_peek ∷ [] else []

peeked_none : (q : Queue) → q.peek_keep ≡ false → [] ≡ peeked q
peeked_none q e = ground arith

peeked_one : (q : Queue) → q.peek_keep ≡ true → q.msg_peek ∷ [] ≡ peeked q
peeked_one q e = ground arith

loop_peeked :
    (now : ℤ) (r : Round) (rs : List Round) (q : Queue)
    → IsOrdered q.delayed_messages
    → is_quitting q ≡ true
    → Rising r.start rs
    → All Posting (r ∷ rs)
    → total q < length rs
    → q.peek_keep ≡ true
    → let p = process_loop forever (pos 0) forever (r ∷ rs) q in
      (p.answered ≡ some false)
      × (p.handled
          ≡ q.msg_peek ∷ select is_live (pending (start_of (length p.handled) now (r ∷ rs)) q))
unfolding process_loop
loop_peeked now r rs q ordered quitting rising posts long kept =
    let found = get_peeked forever r.start r.waits q kept in
    let left = (get forever r.start r.waits q).queue in
    let eq : left ≡ record q { peek_keep = false } = ap (λ (o : Outcome). o.queue) found in
    let same =
      calls-SameMessages r.handler left posts.0
        (quitting_same left q (ap (λ (x : Queue). x.stop) eq) quitting) in
    let q' = calls r.handler left in
    let ms : q'.messages ≡ q.messages = same.messages ∙ ap (λ (x : Queue). x.messages) eq in
    let ds : q'.delayed_messages ≡ q.delayed_messages =
      same.delayed ∙ ap (λ (x : Queue). x.delayed_messages) eq in
    let draining : IsDraining q' = record {
      ordered = rw ds ordered;
      fresh = same.peek_keep ∙ ap (λ (x : Queue). x.peek_keep) eq;
      quitting = quitting_same q' q (same.stop ∙ ap (λ (x : Queue). x.stop) eq) quitting;
    } in
    let fewer : total q' ≡ total q =
      ap₂ (λ a b. length (select is_live a) + length (live_of b)) ms ds in
    let (done, handled) =
      loop_drains r.start rs q' draining rising posts.1 (omega (arith, fewer, long)) in
    let last = start_of (length (process_loop forever (pos 0) forever rs q').handled) r.start rs in
    let answered : (get forever r.start r.waits q).reply ≡ got q.msg_peek =
      ap (λ (o : Outcome). o.reply) found in
    rw (answered, process_loop)
      (
        done,
        ap (λ k. q.msg_peek ∷ k)
            (handled
              ∙ ap₂
                  (λ a b.
                    select is_live
                      (a ++ map (λ (d : DelayedMessage). d.msg) (select (is_due last) b)))
                  ms ds),
      )

-- `ProcessMessages(kForever)` of a thread that is quitting and whose delayed messages are in order, on a clock that does
-- not go back, whatever is posted by handlers or other threads, and nothing else done: it returns false, if there
-- are more rounds than messages in the queue, the peeked one included. It has then handled exactly the peeked
-- message, if there was one, and the messages that were posted before or had become due when its last call of `Get`
-- began, but for dispose messages, in their order.
pub process_messages_drains :
    (now : ℤ) (rounds : List Round) (q : Queue)
    → IsOrdered q.delayed_messages
    → is_quitting q ≡ true
    → Rising now rounds
    → All Posting rounds
    → length (peeked q) + total q < length rounds
    → let p = process_messages now forever rounds q in
      (p.answered ≡ some false)
      × (p.handled
          ≡ peeked q ++ select is_live (pending (start_of (length p.handled) now rounds) q))
unfolding process_messages
process_messages_drains now [] q ordered quitting rising posts long = absurd (omega (arith, long))
process_messages_drains now (r ∷ rs) q ordered quitting rising posts long =
    let last =
      start_of (length (process_loop forever (pos 0) forever (r ∷ rs) q).handled) now (r ∷ rs) in
    elim (Bool-cases q.peek_keep) [
      | inl kept ↦
          let (done, handled) =
            loop_peeked now r rs q ordered quitting rising.1 posts
              (omega (arith, long, ap length (peeked_one q kept))) kept in
          (done, handled ∙ ap (λ l. l ++ select is_live (pending last q)) (peeked_one q kept))
      | inr fresh ↦
          let (done, handled) =
            loop_drains now (r ∷ rs) q
              (record { ordered = ordered; fresh = fresh; quitting = quitting }) rising posts
              (omega (arith, long)) in
          (done, handled ∙ ap (λ l. l ++ select is_live (pending last q)) (peeked_none q fresh))
    ]
