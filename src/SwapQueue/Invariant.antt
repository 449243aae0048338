-- ===== src/SwapQueue/Invariant.antt =====
-- Where the elements of a `SwapQueue` (swap_queue.h) stand between the steps.
use native.Mathlib.Nat.{mod-eq_of_lt}
use rtc_base.Common.{
  ℕ, suc, ◌+◌, ◌-◌, ◌%◌, ◌≤◌, ◌<◌, ◌≡◌, ◌≢◌, ◌∙◌, sym, ap, List, arith, length, get_or,
}
use rtc_base.SwapQueue.Steps.{
  Producer, idle, loaded, swapped, counted, Consumer, resting, found, taken, released, exchanged,
  Shared,
}
use rtc_base.Common.Ring.{tabulate, apart}

module _ {A : Type 0} where
  -- The first place that the consumer has not taken.
  abbrev pub start : ℕ → Consumer A → ℕ
  start read resting = read
  start read (found x) = read
  start read (taken x) = read + 1
  start read (released x) = read + 1
  start read (exchanged old) = read + old

  -- The elements from there on that the producer has counted.
  abbrev pub held : ℕ → Consumer A → ℕ
  held num resting = num
  held num (found x) = num
  held num (taken x) = num - 1
  held num (released x) = num
  held num (exchanged old) = num

  -- The place behind them.
  abbrev pub end : ℕ → Producer A → ℕ
  end write idle = write
  end write (loaded x) = write
  end write (swapped x y) = write
  end write (counted y) = write + 1

  abbrev pub ConsumerValid : ℕ → ℕ → Consumer A → Type 0
  ConsumerValid size num resting = Unit
  ConsumerValid size num (found x) = 0 < num
  ConsumerValid size num (taken x) = 0 < num
  ConsumerValid size num (released x) = Unit
  ConsumerValid size num (exchanged old) = old ≤ size

  abbrev pub ProducerValid : A → ℕ → Shared A → Producer A → Type 0
  ProducerValid prototype size m idle = Unit
  ProducerValid prototype size m (loaded x) = m.num < size
  ProducerValid prototype size m (swapped x y) =
      (m.num < size) × (get_or m.slots m.write prototype ≡ x)
  ProducerValid prototype size m (counted y) = Unit

  pub record IsValid (prototype : A) (size : ℕ) (m : Shared A) (p : Producer A) (c : Consumer A)
      : Type 0 where
    pub sized : length m.slots ≡ size
    pub write_within : m.write < size
    pub read_within : m.read < size
    pub fits : m.num ≤ size
    pub producer : ProducerValid prototype size m p
    pub consumer : ConsumerValid size m.num c
    pub ends : (start m.read c + held m.num c) % size ≡ end m.write p % size

  -- The queue: the elements that were inserted and not yet taken, first in first.
  unfoldable pub contents : A → ℕ → Shared A → Consumer A → List A
  contents prototype size m c =
      tabulate (held m.num c) (λ i. get_or m.slots ((start m.read c + i) % size) prototype)

  pub held_bound : (num : ℕ) (c : Consumer A) → held num c ≤ num
  held_bound num resting = omega arith
  held_bound num (found x) = omega arith
  held_bound num (taken x) = omega arith
  held_bound num (released x) = omega arith
  held_bound num (exchanged old) = omega arith

  pub held_more :
      (size num : ℕ) (c : Consumer A)
      → ConsumerValid size num c
      → held (num + 1) c ≡ suc (held num c)
  held_more size num resting v = omega arith
  held_more size num (found x) v = omega arith
  held_more size num (taken x) v = omega arith
  held_more size num (released x) v = omega arith
  held_more size num (exchanged old) v = omega arith

  pub consumer_more :
      (size num : ℕ) (c : Consumer A) → ConsumerValid size num c → ConsumerValid size (num + 1) c
  consumer_more size num resting v = tt
  consumer_more size num (found x) v = omega arith
  consumer_more size num (taken x) v = omega arith
  consumer_more size num (released x) v = tt
  consumer_more size num (exchanged old) v = v

-- A place before the end is not the one at the end, unless the ring is full.
pub place_before_end :
    (size s h i e : ℕ)
    → h < size
    → i < h
    → (s + h) % size ≡ e % size
    → e < size
    → (s + i) % size ≢ e
place_before_end size s h i e room before ends within same =
    apart size (s + i) (h - i) (omega arith) (omega arith)
      (ap (λ n. n % size) (omega arith) ∙ ends ∙ mod-eq_of_lt within ∙ sym same)
