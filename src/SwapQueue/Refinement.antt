-- ===== src/SwapQueue/Refinement.antt =====
-- swap_queue.h: each step of the two threads is a step of a bounded queue, or none.
use native.Mathlib.Nat.{mod-eq_of_lt, mod-mod}
use rtc_base.Common.{
  ℕ, suc, ◌+◌, ◌-◌, ◌%◌, ◌≤◌, ◌<◌, ◌≡◌, ◌≢◌, refl, ◌∙◌, sym, ap, ap₂, List, [], ◌∷◌, ◌++◌, arith,
  length, length-set, get_or, set,
}
use rtc_base.SwapQueue.Steps.{
  Producer, idle, loaded, swapped, counted, Consumer, resting, found, taken, released, exchanged,
  Shared, advance, advance_by, Act, inside, enqueue, dequeue, drop_all, refuse_insert,
  refuse_remove, Step, insert_full, insert_load, insert_swap, insert_count, insert_advance,
  remove_empty, remove_load, remove_swap, remove_count, remove_advance, clear_exchange,
  clear_advance,
}
use rtc_base.SwapQueue.Ring.{advance_lem, advance_by_lem}
use rtc_base.Common.Ring.{
  tabulate, tabulate_last, tabulate_same, length-tabulate, apart, shift_mod, from_mod,
  get_or-set_here, get_or-set_elsewhere,
}
use rtc_base.SwapQueue.Invariant.{
  start, held, end, ConsumerValid, ProducerValid, IsValid, contents, held_bound, held_more,
  consumer_more, place_before_end,
}

module _ {A : Type 0} where
  -- What a bounded queue does. An insertion is refused when the queue is full, or has room for one only,
  -- whose element the consumer is about to release.
  abbrev pub Does : ℕ → List A → Act A → List A → Type 0
  Does size q inside q' = q' ≡ q
  Does size q (enqueue x) q' = (length q < size) × (q' ≡ q ++ (x ∷ []))
  Does size q (dequeue x) q' = q ≡ x ∷ q'
  Does size q drop_all q' = q' ≡ []
  Does size q refuse_insert q' = (size ≤ suc (length q)) × (q' ≡ q)
  Does size q refuse_remove q' = (q ≡ []) × (q' ≡ q)

  abbrev pub Result : A → ℕ → List A → Act A → Shared A → Producer A → Consumer A → Type 0
  Result prototype size q a m p c =
      IsValid prototype size m p c × Does size q a (contents prototype size m c)

  length-contents :
      (d : A) (size : ℕ) (m : Shared A) (c : Consumer A)
      → length (contents d size m c) ≡ held m.num c
  unfolding contents
  length-contents d size m c =
      length-tabulate (held m.num c) (λ i. get_or m.slots ((start m.read c + i) % size) d)

  one_more : (size num : ℕ) (c : Consumer A) → num ≡ size → size ≤ suc (held num c)
  one_more size num resting e = omega arith
  one_more size num (found x) e = omega arith
  one_more size num (taken x) e = omega arith
  one_more size num (released x) e = omega arith
  one_more size num (exchanged old) e = omega arith

  insert_swap_refines :
      (d : A) (size : ℕ) (m : Shared A) (c : Consumer A) (x : A)
      → IsValid d size m (loaded x) c
      → Result d size
          (contents d size m c)
          inside
          (record m { slots = set m.slots m.write x })
          (swapped x (get_or m.slots m.write d))
          c
  unfolding contents
  insert_swap_refines d size m c x v = (
    record {
      sized = length-set m.slots m.write x ∙ v.sized;
      write_within = v.write_within;
      read_within = v.read_within;
      fits = v.fits;
      producer = (v.producer, get_or-set_here m.slots m.write x d (rw v.sized v.write_within));
      consumer = v.consumer;
      ends = v.ends;
    },
    tabulate_same (held m.num c) _ _ (λ i l.
        get_or-set_elsewhere m.slots m.write ((start m.read c + i) % size) x d (λ same.
          place_before_end size (start m.read c) (held m.num c) i m.write
            (omega (arith, held_bound m.num c, v.producer)) l v.ends v.write_within (sym same))),
  )

  insert_count_refines :
      (d : A) (size : ℕ) (m : Shared A) (c : Consumer A) (x y : A)
      → IsValid d size m (swapped x y) c
      → Result d size (contents d size m c) (enqueue x) (record m { num = m.num + 1 }) (counted y) c
  unfolding contents
  insert_count_refines d size m c x y v = (
    record {
      sized = v.sized;
      write_within = v.write_within;
      read_within = v.read_within;
      fits = omega (arith, v.producer.0);
      producer = tt;
      consumer = consumer_more size m.num c v.consumer;
      ends =
          ap (λ n. n % size) (omega (arith, more))
          ∙ shift_mod size 1 (start m.read c + held m.num c) m.write v.ends;
    },
    (
      rw (length-tabulate (held m.num c) f) (omega (arith, held_bound m.num c, v.producer.0)),
      ap (λ n. tabulate n f) more
          ∙ tabulate_last (held m.num c) f
          ∙ ap (λ z. tabulate (held m.num c) f ++ (z ∷ []))
              (ap (λ n. get_or m.slots n d) (v.ends ∙ mod-eq_of_lt v.write_within) ∙ v.producer.1),
    ),
  )
    where
      f : ℕ → A
      f i = get_or m.slots ((start m.read c + i) % size) d

      more : held (m.num + 1) c ≡ suc (held m.num c)
      more = held_more size m.num c v.consumer

  insert_advance_refines :
      (d : A) (size : ℕ) (m : Shared A) (c : Consumer A) (y : A)
      → IsValid d size m (counted y) c
      → Result d size
          (contents d size m c)
          inside
          (record m { write = advance (length m.slots) m.write })
          idle
          c
  unfolding contents
  insert_advance_refines d size m c y v = (
    record {
      sized = v.sized;
      write_within = rw v.sized (advance_lem size m.write v.write_within).1;
      read_within = v.read_within;
      fits = v.fits;
      producer = tt;
      consumer = v.consumer;
      ends =
          v.ends
          ∙ sym (mod-mod (m.write + 1) size)
          ∙ ap (λ n. n % size) (sym (rw v.sized (advance_lem size m.write v.write_within).0));
    },
    refl,
  )

  -- The consumer's index moves on by what it has left behind.
  remove_advance_refines :
      (d : A) (size read' old : ℕ) (m : Shared A) (p : Producer A) (c : Consumer A)
      → start m.read c ≡ m.read + old
      → held m.num c ≡ m.num
      → read' ≡ (m.read + old) % size
      → read' < size
      → IsValid d size m p c
      → Result d size (contents d size m c) inside (record m { read = read' }) p resting
  unfolding contents
  remove_advance_refines d size read' old m p c from all_held same within v = (
    record {
      sized = v.sized;
      write_within = v.write_within;
      read_within = within;
      fits = v.fits;
      producer = kept p v.producer;
      consumer = tt;
      ends = moved m.num ∙ ap₂ (λ s n. (s + n) % size) (sym from) (sym all_held) ∙ v.ends;
    },
    tabulate_same m.num _ _ (λ i l. ap (λ n. get_or m.slots n d) (moved i))
        ∙ ap₂ (λ s n. tabulate n (λ i. get_or m.slots ((s + i) % size) d)) (sym from)
            (sym all_held),
  )
    where
      moved : (i : ℕ) → (read' + i) % size ≡ (m.read + old + i) % size
      moved i = from_mod size (m.read + old) i same

      kept :
          (p : Producer A)
          → ProducerValid d size m p
          → ProducerValid d size (record m { read = read' }) p
      kept idle h = h
      kept (loaded x) h = h
      kept (swapped x y) h = h
      kept (counted y) h = h

  remove_swap_refines :
      (d : A) (size : ℕ) (m : Shared A) (p : Producer A) (x : A)
      → IsValid d size m p (found x)
      → Result d size
          (contents d size m (found x))
          (dequeue (get_or m.slots m.read d))
          (record m { slots = set m.slots m.read x })
          p
          (taken (get_or m.slots m.read d))
  unfolding contents
  remove_swap_refines d size m p x v = (
    record {
      sized = length-set m.slots m.read x ∙ v.sized;
      write_within = v.write_within;
      read_within = v.read_within;
      fits = v.fits;
      producer = kept p v.producer v.ends;
      consumer = v.consumer;
      ends = ap (λ n. n % size) (omega (arith, v.consumer)) ∙ v.ends;
    },
    ap (λ n. tabulate n f) one_held
        ∙ ap₂ ◌∷◌
            (ap (λ n. get_or m.slots n d) (ap (λ n. n % size) here ∙ mod-eq_of_lt v.read_within))
            (tabulate_same (m.num - 1) _ _ (λ i l.
              ap (λ n. get_or m.slots (n % size) d) (next i)
              ∙ sym (
                  get_or-set_elsewhere m.slots m.read ((m.read + 1 + i) % size) x d (λ same.
                    apart size m.read (suc i) (omega arith) (omega (arith, v.fits)) (
                      ap (λ n. n % size) (next i)
                      ∙ sym same
                      ∙ sym (mod-eq_of_lt v.read_within)))))),
  )
    where
      f : ℕ → A
      f i = get_or m.slots ((m.read + i) % size) d

      one_held : m.num ≡ suc (m.num - 1)
      one_held = omega (arith, v.consumer)

      here : m.read + 0 ≡ m.read
      here = omega arith

      next : (i : ℕ) → m.read + suc i ≡ m.read + 1 + i
      next i = omega arith

      kept :
          (p : Producer A)
          → ProducerValid d size m p
          → (m.read + m.num) % size ≡ end m.write p % size
          → ProducerValid d size (record m { slots = set m.slots m.read x }) p
      kept idle h e = h
      kept (loaded x) h e = h
      kept (swapped x' y) h e = (
        h.0,
        get_or-set_elsewhere m.slots m.read m.write x d
              (λ same. apart size m.read m.num v.consumer h.0 (e ∙ ap (λ n. n % size) (sym same)))
            ∙ h.1,
      )
      kept (counted y) h e = h

  -- The count goes down, which makes room for the producer.
  consumer_counts_refines :
      (d : A) (size num' : ℕ) (m : Shared A) (p : Producer A) (c c' : Consumer A)
      → num' ≤ m.num
      → ConsumerValid size num' c'
      → start m.read c' + held num' c' ≡ start m.read c + held m.num c
      → IsValid d size m p c
      → IsValid d size (record m { num = num' }) p c'
  consumer_counts_refines d size num' m p c c' less valid same v = record {
    sized = v.sized;
    write_within = v.write_within;
    read_within = v.read_within;
    fits = omega (arith, v.fits);
    producer = kept p v.producer;
    consumer = valid;
    ends = ap (λ n. n % size) same ∙ v.ends;
  }
    where
      kept :
          (p : Producer A)
          → ProducerValid d size m p
          → ProducerValid d size (record m { num = num' }) p
      kept idle h = h
      kept (loaded x) h = omega arith
      kept (swapped x y) h = (omega (arith, h.0), h.1)
      kept (counted y) h = h

  pub Step-Does :
      (d : A) (size : ℕ) {m m' : Shared A} {p p' : Producer A} {c c' : Consumer A} {a : Act A}
      → IsValid d size m p c
      → Step d m p c a m' p' c'
      → Result d size (contents d size m c) a m' p' c'
  unfolding contents
  Step-Does d size v (insert_full m c full) = (
    v,
    (
      rw (length-tabulate (held m.num c) (λ i. get_or m.slots ((start m.read c + i) % size) d))
          (one_more size m.num c (full ∙ v.sized)),
      refl,
    ),
  )
  Step-Does d size v (insert_load m c x room) = (
    record {
      sized = v.sized;
      write_within = v.write_within;
      read_within = v.read_within;
      fits = v.fits;
      producer = not_full room v.fits v.sized;
      consumer = v.consumer;
      ends = v.ends;
    },
    refl,
  )
    where
      not_full : {n l s : ℕ} → n ≢ l → n ≤ s → l ≡ s → n < s
      not_full room fits same = omega (arith, room)
  Step-Does d size v (insert_swap m c x) = insert_swap_refines d size m c x v
  Step-Does d size v (insert_count m c x y) = insert_count_refines d size m c x y v
  Step-Does d size v (insert_advance m c y) = insert_advance_refines d size m c y v
  Step-Does d size v (remove_empty m p none_left) =
      (v, (ap (λ n. tabulate n (λ i. get_or m.slots ((m.read + i) % size) d)) none_left, refl))
  Step-Does d size v (remove_load m p x some_left) = (
    record {
      sized = v.sized;
      write_within = v.write_within;
      read_within = v.read_within;
      fits = v.fits;
      producer = v.producer;
      consumer = nonzero some_left;
      ends = v.ends;
    },
    refl,
  )
    where
      nonzero : {n : ℕ} → n ≢ 0 → 0 < n
      nonzero some_left = omega (arith, some_left)
  Step-Does d size v (remove_swap m p x) = remove_swap_refines d size m p x v
  Step-Does d size v (remove_count m p y) = (
    consumer_counts_refines d size (m.num - 1) m p (taken y) (released y) (omega arith) tt refl v,
    refl,
  )
  Step-Does d size v (remove_advance m p y) =
      remove_advance_refines d size (advance (length m.slots) m.read) 1 m p (released y) refl refl
        (rw v.sized (advance_lem size m.read v.read_within).0)
        (rw v.sized (advance_lem size m.read v.read_within).1) v
  Step-Does d size v (clear_exchange m p) = (
    consumer_counts_refines d size 0 m p resting (exchanged m.num) (omega arith) v.fits
        (omega arith) v,
    refl,
  )
  Step-Does d size v (clear_advance m p old) =
      remove_advance_refines d size (advance_by (length m.slots) old m.read) old m p (exchanged old)
        refl refl (rw v.sized (advance_by_lem size old m.read v.read_within v.consumer).0)
        (rw v.sized (advance_by_lem size old m.read v.read_within v.consumer).1) v
