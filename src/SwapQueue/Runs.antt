-- ===== src/SwapQueue/Runs.antt =====
-- swap_queue.h: what the two threads do in the long run, from a queue that the constructor has made.
use rtc_base.Common.{ℕ, ◌%◌, ◌<◌, ◌≡◌, refl, ◌∙◌, sym, ap, List, [], ◌∷◌, arith, length}
use rtc_base.SwapQueue.Steps.{
  Producer, idle, loaded, swapped, counted, Consumer, resting, found, taken, released, exchanged,
  Shared, Act, Step,
}
use rtc_base.Common.Ring.{apart}
use rtc_base.SwapQueue.Invariant.{IsValid, contents}
use rtc_base.SwapQueue.Refinement.{Does, Step-Does}
use rtc_base.Common.{replicate, length-replicate}

module _ {A : Type 0} (d : A) (size : ℕ) where
  -- What the threads did, the first act first.
  pub data Run
      : Shared A
        → Producer A
        → Consumer A
        → List (Act A)
        → Shared A
        → Producer A
        → Consumer A
        → Type 0 where
    stopped : (m : Shared A) (p : Producer A) (c : Consumer A) → Run m p c [] m p c
    stepped :
        {m n o : Shared A} {p q r : Producer A} {c b e : Consumer A} {a : Act A}
        {acts : List (Act A)}
        → Step d m p c a n q b
        → Run n q b acts o r e
        → Run m p c (a ∷ acts) o r e

  -- A bounded queue goes through the acts.
  pub data Served : List A → List (Act A) → List A → Type 0 where
    done : (q : List A) → Served q [] q
    served :
        {q : List A} (q' : List A) {q'' : List A} {a : Act A} {acts : List (Act A)}
        → Does size q a q'
        → Served q' acts q''
        → Served q (a ∷ acts) q''

  -- Whatever the interleaving of the two threads, what `Insert`, `Remove` and `Clear` do is what a
  -- bounded first-in-first-out queue does: from a queue that is well formed, a run of their steps is a
  -- run of that queue with the same acts, from the elements that the ring holds to those it holds
  -- afterwards, and the queue stays well formed.
  pub Run-Served :
      {m m' : Shared A} {p p' : Producer A} {c c' : Consumer A} {acts : List (Act A)}
      → IsValid d size m p c
      → Run m p c acts m' p' c'
      → IsValid d size m' p' c' × Served (contents d size m c) acts (contents d size m' c')
  Run-Served v (stopped m p c) = (v, done (contents d size m c))
  Run-Served v (stepped step more) =
      let now = Step-Does d size v step in
      let rest = Run-Served now.0 more in (rest.0, served _ now.1 rest.1)

  -- The slots at a thread's disposal: it has seen the count and has not changed it yet.
  abbrev pub ProducerSlot : Shared A → Producer A → ℕ → Type 0
  ProducerSlot m idle i = ⊥
  ProducerSlot m (loaded x) i = i ≡ m.write
  ProducerSlot m (swapped x y) i = i ≡ m.write
  ProducerSlot m (counted y) i = ⊥

  abbrev pub ConsumerSlot : Shared A → Consumer A → ℕ → Type 0
  ConsumerSlot m resting i = ⊥
  ConsumerSlot m (found x) i = i ≡ m.read
  ConsumerSlot m (taken y) i = i ≡ m.read
  ConsumerSlot m (released y) i = ⊥
  ConsumerSlot m (exchanged old) i = ⊥

  -- queue_(size, prototype)
  unfoldable pub swap_queue : Shared A
  swap_queue = record { slots = replicate size d; write = 0; read = 0; num = 0 }

  pub swap_queue-IsValid : 0 < size → IsValid d size swap_queue idle resting
  unfolding swap_queue
  swap_queue-IsValid some_room = record {
    sized = length-replicate size d;
    write_within = some_room;
    read_within = some_room;
    fits = omega arith;
    producer = tt;
    consumer = tt;
    ends = refl;
  }

  slots_apart :
      (m : Shared A) (p : Producer A) (c : Consumer A)
      → IsValid d size m p c
      → (i : ℕ) → ProducerSlot m p i
      → ConsumerSlot m c i
      → ⊥
  slots_apart m idle c v i g h = elim g [ ]
  slots_apart m (counted y) c v i g h = elim g [ ]
  slots_apart m (loaded x) resting v i g h = elim h [ ]
  slots_apart m (loaded x) (found y) v i g h =
      apart size m.read m.num v.consumer v.producer (v.ends ∙ ap (λ n. n % size) (sym g ∙ h))
  slots_apart m (loaded x) (taken y) v i g h =
      apart size m.read m.num v.consumer v.producer
        (ap (λ n. n % size) (omega (arith, v.consumer)) ∙ v.ends ∙ ap (λ n. n % size) (sym g ∙ h))
  slots_apart m (loaded x) (released y) v i g h = elim h [ ]
  slots_apart m (loaded x) (exchanged old) v i g h = elim h [ ]
  slots_apart m (swapped x z) resting v i g h = elim h [ ]
  slots_apart m (swapped x z) (found y) v i g h =
      apart size m.read m.num v.consumer v.producer.0 (v.ends ∙ ap (λ n. n % size) (sym g ∙ h))
  slots_apart m (swapped x z) (taken y) v i g h =
      apart size m.read m.num v.consumer v.producer.0
        (ap (λ n. n % size) (omega (arith, v.consumer)) ∙ v.ends ∙ ap (λ n. n % size) (sym g ∙ h))
  slots_apart m (swapped x z) (released y) v i g h = elim h [ ]
  slots_apart m (swapped x z) (exchanged old) v i g h = elim h [ ]

  -- No data race: in whatever order the two threads take their steps from a new queue with room for one
  -- element at least, no slot is at the disposal of both, and both indices stay within the ring.
  pub Run-race_free :
      {m : Shared A} {p : Producer A} {c : Consumer A} {acts : List (Act A)}
      → 0 < size
      → Run swap_queue idle resting acts m p c
      → (((i : ℕ) → ProducerSlot m p i → ConsumerSlot m c i → ⊥)
          × (m.write < length m.slots)
          × (m.read < length m.slots))
  Run-race_free {m} {p} {c} some_room run =
      let v = (Run-Served (swap_queue-IsValid some_room) run).0 in
      (slots_apart m p c v, rw v.sized v.write_within, rw v.sized v.read_within)
