-- ===== src/MessageQueue/Ownership.antt =====
-- Who owns the message data (thread.cc): none is lost, and none is deleted twice.
use rtc_base.Common.{
  ℕ, zero, suc, ◌+◌, ◌≡◌, refl, Bool, not, Option, none, some, List, [], ◌∷◌, ◌++◌, map, arith,
  select, Bool-cases, inl, inr, if◌then◌else◌, ◌&&◌, count,
}
use rtc_base.Common.Int.{ℤ}
use rtc_base.Message.{Message, match, free}
use rtc_base.MessageQueue.State.{Queue, post, do_delay_post, message, delayed_message}
use rtc_base.MessageQueue.Delayed.{DelayedMessage, less, push, reheap, insert_at, arrange}
use rtc_base.MessageQueue.Removal.{free_all, matching, reheaped}

-- How often the data `p` stands in a message, in messages, in delayed messages.
abbrev pub owns : ℕ → Message → ℕ
owns p m = count p (free m.pdata [])

abbrev pub own_all : ℕ → List Message → ℕ
own_all p [] = 0
own_all p (m ∷ ms) = owns p m + own_all p ms

abbrev pub own_delayed : ℕ → List DelayedMessage → ℕ
own_delayed p [] = 0
own_delayed p (d ∷ ds) = owns p d.msg + own_delayed p ds

-- How often the queue holds the data `p`, the peeked message included, or has deleted it.
abbrev pub ledger : ℕ → Queue → ℕ
ledger p q =
    (if q.peek_keep then owns p q.msg_peek else 0)
    + own_all p q.messages
    + own_delayed p q.delayed_messages
    + count p q.deleted

pub own_all-append :
    (p : ℕ) (ms ns : List Message) → own_all p (ms ++ ns) ≡ own_all p ms + own_all p ns
own_all-append p [] ns = omega arith
own_all-append p (m ∷ ms) ns = omega (arith, own_all-append p ms ns)

own_delayed-push :
    (p : ℕ) (d : DelayedMessage) (ds : List DelayedMessage)
    → own_delayed p (push d ds) ≡ owns p d.msg + own_delayed p ds
unfolding push
own_delayed-push p d [] = omega arith
own_delayed-push p d (e ∷ es) = elim (Bool-cases (less d e)) [
  | inl later ↦ rw later (omega (arith, own_delayed-push p d es))
  | inr sooner ↦ rw sooner (omega arith)
]

pub count-free :
    (p : ℕ) (o : Option ℕ) (deleted : List ℕ)
    → count p (free o deleted) ≡ count p (free o []) + count p deleted
count-free p none deleted = omega arith
count-free p (some a) deleted = omega arith

-- `Post` puts the data into the queue, or deletes it while the thread is quitting.
pub ledger-post :
    (p : ℕ) (from : ℕ) (handler : Option ℕ) (id : ℕ) (pdata : Option ℕ) (q : Queue)
    → ledger p (post from handler id pdata q) ≡ ledger p q + count p (free pdata [])
unfolding post
ledger-post p from handler id pdata q = ground (
  arith,
  own_all-append p q.messages (message from handler id pdata ∷ []),
  count-free p pdata q.deleted,
)

pub ledger-do_delay_post :
    (p from : ℕ) (delay at : ℤ) (handler : Option ℕ) (id : ℕ) (pdata : Option ℕ) (q : Queue)
    → ledger p (do_delay_post from delay at handler id pdata q)
      ≡ ledger p q + count p (free pdata [])
unfolding do_delay_post
ledger-do_delay_post p from delay at handler id pdata q = ground (
  arith,
  own_delayed-push p (delayed_message delay at q.delayed_next_num (message from handler id pdata))
      q.delayed_messages,
  count-free p pdata q.deleted,
)

pub count-free_all :
    (p : ℕ) (ms : List Message) (deleted : List ℕ)
    → count p (free_all ms deleted) ≡ own_all p ms + count p deleted
count-free_all p [] deleted = omega arith
count-free_all p (m ∷ ms) deleted =
    omega (arith, count-free_all p ms (free m.pdata deleted), count-free p m.pdata deleted)

own_all-select :
    (p : ℕ) (f : Message → Bool) (ms : List Message)
    → own_all p (select f ms) + own_all p (select (λ m. not (f m)) ms) ≡ own_all p ms
own_all-select p f [] = omega arith
own_all-select p f (m ∷ ms) = ground (arith, own_all-select p f ms)

own_delayed-select :
    (p : ℕ) (f : DelayedMessage → Bool) (ds : List DelayedMessage)
    → own_all p (map (λ d. d.msg) (select f ds)) + own_delayed p (select (λ d. not (f d)) ds)
      ≡ own_delayed p ds
own_delayed-select p f [] = omega arith
own_delayed-select p f (d ∷ ds) = ground (arith, own_delayed-select p f ds)

own_delayed-reheap :
    (p : ℕ) (ds : List DelayedMessage) → own_delayed p (reheap ds) ≡ own_delayed p ds
unfolding reheap
own_delayed-reheap p [] = refl
own_delayed-reheap p (d ∷ ds) =
    omega (arith, own_delayed-push p d (reheap ds), own_delayed-reheap p ds)

own_delayed-insert_at :
    (p k : ℕ) (d : DelayedMessage) (xs : List DelayedMessage)
    → own_delayed p (insert_at k d xs) ≡ owns p d.msg + own_delayed p xs
unfolding insert_at
own_delayed-insert_at p zero d xs = refl
own_delayed-insert_at p (suc k) d [] = refl
own_delayed-insert_at p (suc k) d (x ∷ xs) = omega (arith, own_delayed-insert_at p k d xs)

own_delayed-arrange :
    (p : ℕ) (ks : List ℕ) (ds : List DelayedMessage)
    → own_delayed p (arrange ks ds) ≡ own_delayed p ds
unfolding arrange
own_delayed-arrange p [] ds = refl
own_delayed-arrange p (k ∷ ks) [] = refl
own_delayed-arrange p (k ∷ ks) (d ∷ ds) =
    omega (arith, own_delayed-insert_at p k d (arrange ks ds), own_delayed-arrange p ks ds)

pub own_all-matching :
    (p : ℕ) (handler : Option ℕ) (id : ℕ) (order : List ℕ) (q : Queue)
    → own_all p (matching handler id order q) + ledger p (reheaped handler id order q) ≡ ledger p q
own_all-matching p handler id order q = ground (
  arith,
  own_all-append p (if q.peek_keep && match handler id q.msg_peek then q.msg_peek ∷ [] else [])
      (select (match handler id) q.messages),
  own_all-append p
      ((if q.peek_keep && match handler id q.msg_peek then q.msg_peek ∷ [] else [])
        ++ select (match handler id) q.messages)
      (map (λ d. d.msg) (select (λ d. match handler id d.msg) (arrange order q.delayed_messages))),
  own_all-select p (match handler id) q.messages,
  own_delayed-select p (λ d. match handler id d.msg) (arrange order q.delayed_messages),
  own_delayed-arrange p order q.delayed_messages,
  own_delayed-reheap p
      (select (λ d. not (match handler id d.msg)) (arrange order q.delayed_messages)),
)
