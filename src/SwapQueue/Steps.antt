-- ===== src/SwapQueue/Steps.antt =====
-- swap_queue.h: `Insert`, `Remove` and `Clear` in steps, as the two threads interleave. Each access to
-- `num_elements_` is atomic, and the memory orders make the accesses to a slot happen on their side of
-- it, so that a step is one access to `num_elements_` or to a slot, or what a thread does to its own
-- index.
use rtc_base.Common.{ℕ, ◌+◌, ◌-◌, ◌≡◌, ◌≢◌, List, length, get_or, set, ◌==◌, leb, if◌then◌else◌}

-- Where the producer is in `Insert`.
pub data Producer (A : Type 0) : Type 0 where
  idle : Producer A
  loaded : A → Producer A  -- the queue is not full; `*input`
  swapped : A → A → Producer A  -- what went in; `*input`, swapped
  counted : A → Producer A

-- Where the consumer is in `Remove` or `Clear`.
pub data Consumer (A : Type 0) : Type 0 where
  resting : Consumer A
  found : A → Consumer A  -- the queue is not empty; `*output`
  taken : A → Consumer A  -- `*output`, swapped
  released : A → Consumer A
  exchanged : ℕ → Consumer A  -- `Clear`, with the count before

pub record Shared (A : Type 0) : Type 0 where
  pub slots : List A  -- queue_
  pub write : ℕ  -- next_write_index_
  pub read : ℕ  -- next_read_index_
  pub num : ℕ  -- num_elements_

-- What a step means to the queue.
pub data Act (A : Type 0) : Type 0 where
  inside : Act A
  enqueue : A → Act A
  dequeue : A → Act A
  drop_all : Act A
  refuse_insert : Act A
  refuse_remove : Act A

-- `++index; if (index == queue_.size()) index = 0;`
unfoldable pub advance : ℕ → ℕ → ℕ
advance size index = if index + 1 == size then 0 else index + 1

-- `Clear`'s `next_read_index_`
unfoldable pub advance_by : ℕ → ℕ → ℕ → ℕ
advance_by size old index = if leb size (index + old) then index + old - size else index + old

module _ {A : Type 0} (prototype : A) where
  -- The prototype stands for a slot out of range.
  pub data Step
      : Shared A
        → Producer A
        → Consumer A
        → Act A
        → Shared A
        → Producer A
        → Consumer A
        → Type 0 where
    insert_full :
        (m : Shared A) (c : Consumer A)
        → m.num ≡ length m.slots
        → Step m idle c refuse_insert m idle c
    insert_load :
        (m : Shared A) (c : Consumer A) (x : A)
        → m.num ≢ length m.slots
        → Step m idle c inside m (loaded x) c
    insert_swap :
        (m : Shared A) (c : Consumer A) (x : A)
        → Step m
            (loaded x)
            c
            inside
            (record m { slots = set m.slots m.write x })
            (swapped x (get_or m.slots m.write prototype))
            c
    insert_count :
        (m : Shared A) (c : Consumer A) (x y : A)
        → Step m (swapped x y) c (enqueue x) (record m { num = m.num + 1 }) (counted y) c
    insert_advance :
        (m : Shared A) (c : Consumer A) (y : A)
        → Step m (counted y) c inside (record m { write = advance (length m.slots) m.write }) idle c
    remove_empty :
        (m : Shared A) (p : Producer A) → m.num ≡ 0 → Step m p resting refuse_remove m p resting
    remove_load :
        (m : Shared A) (p : Producer A) (x : A) → m.num ≢ 0 → Step m p resting inside m p (found x)
    remove_swap :
        (m : Shared A) (p : Producer A) (x : A)
        → Step m p
            (found x)
            (dequeue (get_or m.slots m.read prototype))
            (record m { slots = set m.slots m.read x })
            p
            (taken (get_or m.slots m.read prototype))
    remove_count :
        (m : Shared A) (p : Producer A) (y : A)
        → Step m p (taken y) inside (record m { num = m.num - 1 }) p (released y)
    remove_advance :
        (m : Shared A) (p : Producer A) (y : A)
        → Step m p
            (released y)
            inside
            (record m { read = advance (length m.slots) m.read })
            p
            resting
    clear_exchange :
        (m : Shared A) (p : Producer A)
        → Step m p resting drop_all (record m { num = 0 }) p (exchanged m.num)
    clear_advance :
        (m : Shared A) (p : Producer A) (old : ℕ)
        → Step m p
            (exchanged old)
            inside
            (record m { read = advance_by (length m.slots) old m.read })
            p
            resting
