-- ===== src/MessageQueue/Removal.antt =====
-- What `ClearInternal` (thread.cc) takes out of the queue, what it leaves, and where it goes.
use rtc_base.Common.{
  ℕ, true, false, All-map, All-select, select-All_none, ◌≡◌, refl, ◌∙◌, sym, ap, ap₂, Bool, not,
  ◌&&◌, Option, none, some, List, [], ◌∷◌, ◌++◌, map, arith, select, Bool-cases, inl, inr,
  if◌then◌else◌, append-nil, append_assoc,
}
use mathlib.Core.List.{map-id}
use rtc_base.Message.{Message, match, free}
use rtc_base.MessageQueue.Delayed.{DelayedMessage, reheap, arrange}
use rtc_base.MessageQueue.State.{Queue}
use rtc_base.MessageQueue.Clear.{Sink, discard, sweep, clear_peek, clear_internal}
use rtc_base.MessageQueue.Container.{IsStrict, arrange-All, reheap-select-arrange}

-- The data of these messages, freed one after the other.
abbrev pub free_all : List Message → List ℕ → List ℕ
free_all [] deleted = deleted
free_all (m ∷ ms) deleted = free_all ms (free m.pdata deleted)

-- Where the messages that are taken out go: behind the caller's list, or away.
abbrev pub collect : Option (List Message) → List Message → Option (List Message)
collect none ms = none
collect (some taken) ms = some (taken ++ ms)

abbrev pub reclaim : Option (List Message) → List Message → List ℕ → List ℕ
reclaim none ms deleted = free_all ms deleted
reclaim (some taken) ms deleted = deleted

discard_all : List Message → Sink → Sink
discard_all ms s = record {
  removed = collect s.removed ms;
  deleted = reclaim s.removed ms s.deleted;
}

discard_all_nil : (s : Sink) → discard_all [] s ≡ s
unfolding discard_all
discard_all_nil s = go s.removed s.deleted
  where
    go :
        (r : Option (List Message)) (d : List ℕ)
        → discard_all [] (record { removed = r; deleted = d }) ≡ record { removed = r; deleted = d }
    go none d = refl
    go (some taken) d = rw append-nil

discard_all_cons :
    (m : Message) (ms : List Message) (s : Sink)
    → discard_all ms (discard m s) ≡ discard_all (m ∷ ms) s
unfolding discard discard_all
discard_all_cons m ms s = go s.removed s.deleted
  where
    go :
        (r : Option (List Message)) (d : List ℕ)
        → discard_all ms (discard m (record { removed = r; deleted = d }))
          ≡ discard_all (m ∷ ms) (record { removed = r; deleted = d })
    go none d = refl
    go (some taken) d = rw append_assoc

discard_all-append :
    (ms ns : List Message) (s : Sink) → discard_all ns (discard_all ms s) ≡ discard_all (ms ++ ns) s
discard_all-append [] ns s = rw (discard_all_nil s)
discard_all-append (m ∷ ms) ns s =
    ap (discard_all ns) (sym (discard_all_cons m ms s))
    ∙ discard_all-append ms ns (discard m s)
    ∙ discard_all_cons m (ms ++ ns) s

module _ {A : Type 0} (msg_of : A → Message) (phandler : Option ℕ) (id : ℕ) where
  abbrev hit : A → Bool
  hit a = match phandler id (msg_of a)

  sweep_lem :
      (xs : List A) (s : Sink)
      → sweep msg_of phandler id xs s
        ≡ (select (λ a. not (hit a)) xs, discard_all (map msg_of (select hit xs)) s)
  unfolding sweep
  sweep_lem [] s = ap (λ t. ([], t)) (sym (discard_all_nil s))
  sweep_lem (x ∷ xs) s = elim (Bool-cases (hit x)) [
    | inl hits ↦ rw hits (
        ap₂ (λ a b. (a, b)) (ap (λ p. p.0) (sweep_lem xs (discard (msg_of x) s)))
          (ap (λ p. p.1) (sweep_lem xs (discard (msg_of x) s))
            ∙ discard_all_cons (msg_of x) (map msg_of (select hit xs)) s))
    | inr misses ↦ rw misses (rw (sweep_lem xs s))
  ]

-- The messages of the queue that match, in the order in which they are taken out.
abbrev pub matching : Option ℕ → ℕ → List ℕ → Queue → List Message
matching phandler id order q =
    (if q.peek_keep && match phandler id q.msg_peek then q.msg_peek ∷ [] else [])
    ++ select (match phandler id) q.messages
    ++ map (λ d. d.msg) (select (λ d. match phandler id d.msg) (arrange order q.delayed_messages))

-- The queue without them.
abbrev pub others : Option ℕ → ℕ → Queue → Queue
others phandler id q = record q {
  peek_keep = q.peek_keep && not (match phandler id q.msg_peek);
  messages = select (λ m. not (match phandler id m)) q.messages;
  delayed_messages = select (λ d. not (match phandler id d.msg)) q.delayed_messages;
}

-- The same, with the delayed messages as `reheap` leaves them.
abbrev pub reheaped : Option ℕ → ℕ → List ℕ → Queue → Queue
reheaped phandler id order q = record (others phandler id q) {
  delayed_messages =
      reheap (select (λ d. not (match phandler id d.msg)) (arrange order q.delayed_messages));
}

clear_peek_lem :
    (phandler : Option ℕ) (id : ℕ) (q : Queue) (s : Sink)
    → clear_peek phandler id q s ≡ (
      q.peek_keep && not (match phandler id q.msg_peek),
      discard_all (if q.peek_keep && match phandler id q.msg_peek then q.msg_peek ∷ [] else []) s,
    )
unfolding clear_peek
clear_peek_lem phandler id q s = ground (
  arith,
  discard_all_nil s,
  discard_all_nil (discard q.msg_peek s),
  discard_all_cons q.msg_peek [] s,
)

pub clear_reheaped :
    (phandler : Option ℕ) (id : ℕ) (removed : Option (List Message)) (order : List ℕ) (q : Queue)
    → clear_internal phandler id removed order q ≡ (
      record (reheaped phandler id order q) {
        deleted = reclaim removed (matching phandler id order q) q.deleted;
      },
      collect removed (matching phandler id order q),
    )
unfolding clear_internal
clear_reheaped phandler id removed order q =
    rw
      (
        clear_peek_lem phandler id q (record { removed = removed; deleted = q.deleted }),
        sweep_lem {A = Message} (λ m. m) phandler id,
        sweep_lem {A = DelayedMessage} (λ d. d.msg) phandler id,
        discard_all-append,
        discard_all-append,
        map-id,
        append_assoc,
      )
      (unfold discard_all in refl)

-- `ClearInternal` takes out exactly the messages that match (the peeked one, then the posted ones,
-- then the delayed ones, as they stand in the priority queue's vector, whose order may be any), leaves all others where
-- and in the order in which they were, and either appends what it took to the caller's list or deletes the data of each,
-- once. No two delayed messages have the same run time and number.
pub clear_lem :
    (phandler : Option ℕ) (id : ℕ) (removed : Option (List Message)) (order : List ℕ) (q : Queue)
    → IsStrict q.delayed_messages
    → clear_internal phandler id removed order q ≡ (
      record (others phandler id q) {
        deleted = reclaim removed (matching phandler id order q) q.deleted;
      },
      collect removed (matching phandler id order q),
    )
clear_lem phandler id removed order q h =
    clear_reheaped phandler id removed order q
    ∙ ap
        (λ ds. (
          record (others phandler id q) {
            delayed_messages = ds;
            deleted = reclaim removed (matching phandler id order q) q.deleted;
          },
          collect removed (matching phandler id order q),
        ))
        (reheap-select-arrange (λ d. not (match phandler id d.msg)) order q.delayed_messages h)

not_hit : (b : Bool) → not b ≡ true → b ≡ false
not_hit b h = ground arith

select_left_out :
    {A : Type 0} (p : A → Bool) (xs : List A) → select p (select (λ x. not (p x)) xs) ≡ []
select_left_out p xs =
    select-All_none p _ (All-map _ (λ x. not_hit (p x)) (All-select (λ x. not (p x)) xs))

-- After `ClearInternal` no message of the queue matches, wherever in the vector it may stand.
pub clear_leaves_none :
    (phandler : Option ℕ) (id : ℕ) (removed : Option (List Message)) (order after : List ℕ)
    (q : Queue)
    → IsStrict q.delayed_messages
    → matching phandler id after (clear_internal phandler id removed order q).0 ≡ []
clear_leaves_none phandler id removed order after q h =
    rw
      (
        clear_lem phandler id removed order q h,
        select_left_out (match phandler id) q.messages,
        select-All_none (λ (d : DelayedMessage). match phandler id d.msg) _
            (arrange-All (λ d. match phandler id d.msg ≡ false) after _
              (All-map _ (λ d. not_hit (match phandler id d.msg))
                (All-select (λ d. not (match phandler id d.msg)) q.delayed_messages))),
      )
      (ground arith)
