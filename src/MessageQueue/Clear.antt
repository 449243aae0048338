-- ===== src/MessageQueue/Clear.antt =====
-- thread.cc: `Thread::ClearInternal`, which `Thread::Clear` calls under the lock.
use rtc_base.Common.{ℕ, Bool, false, ◌&&◌, Option, none, some, List, [], ◌∷◌, ◌++◌, if◌then◌else◌}
use rtc_base.Message.{Message, match, free}
use rtc_base.MessageQueue.Delayed.{reheap, arrange}
use rtc_base.MessageQueue.State.{Queue}

-- Where the removed messages go: to the caller's list `removed`, or their data is deleted.
pub record Sink : Type 0 where
  pub removed : Option (List Message)
  pub deleted : List ℕ

unfoldable pub discard : Message → Sink → Sink
discard m s = elim (s.removed) [
  | some taken ↦ record s { removed = some (taken ++ (m ∷ [])) }
  | none ↦ record s { deleted = free m.pdata s.deleted }
]

-- One loop of the source over `messages_`, and one over the container of `delayed_messages_`.
module _ {A : Type 0} (msg_of : A → Message) (phandler : Option ℕ) (id : ℕ) where
  unfoldable pub sweep : List A → Sink → List A × Sink
  sweep [] s = ([], s)
  sweep (a ∷ rest) s =
      let hit = match phandler id (msg_of a) in
      let (kept, s') = sweep rest (if hit then discard (msg_of a) s else s) in
      (if hit then kept else a ∷ kept, s')

-- the part about the peeked message
unfoldable pub clear_peek : Option ℕ → ℕ → Queue → Sink → Bool × Sink
clear_peek phandler id q s =
    if q.peek_keep && match phandler id q.msg_peek
    then (false, discard q.msg_peek s)
    else (q.peek_keep, s)

-- `order` is the order of the vector in which the delayed messages stand.
unfoldable pub clear_internal :
    Option ℕ → ℕ → Option (List Message) → List ℕ → Queue → Queue × Option (List Message)
unfolding clear_peek
clear_internal phandler id removed order q =
    let (keep, s1) = clear_peek phandler id q (record { removed = removed; deleted = q.deleted }) in
    let (messages, s2) = sweep (λ m. m) phandler id q.messages s1 in
    let (delayed, s3) = sweep (λ d. d.msg) phandler id (arrange order q.delayed_messages) s2 in
    (
      record q {
        peek_keep = keep;
        messages = messages;
        delayed_messages = reheap delayed;
        deleted = s3.deleted;
      },
      s3.removed,
    )
