-- ===== src/MessageQueue/Order.antt =====
-- The delayed messages stand in the order in which they run.
use rtc_base.Common.{
  ◌≡◌, refl, Bool, true, false, List, [], ◌∷◌, arith, All, All-map, select, All-select_of,
  Bool-cases, inl, inr,
}
use rtc_base.MessageQueue.Delayed.{DelayedMessage, less, push, reheap}

abbrev pub RunsBefore : DelayedMessage → List DelayedMessage → Type 0
RunsBefore d = All (λ e. less d e ≡ false)

-- No message is less than (is to run after) one that stands behind it.
abbrev pub IsOrdered : List DelayedMessage → Type 0
IsOrdered [] = Unit
IsOrdered (d ∷ ds) = RunsBefore d ds × IsOrdered ds

pub less-asymm : (a b : DelayedMessage) → less a b ≡ true → less b a ≡ false
unfolding less
less-asymm a b h = ground arith

pub not_less_trans :
    (a b c : DelayedMessage) → less a b ≡ false → less b c ≡ false → less a c ≡ false
unfolding less
not_less_trans a b c h k = ground arith

RunsBefore-push :
    (d e : DelayedMessage) (es : List DelayedMessage)
    → less e d ≡ false
    → RunsBefore e es
    → RunsBefore e (push d es)
unfolding push
RunsBefore-push d e [] h k = (h, tt)
RunsBefore-push d e (f ∷ fs) h k = ground (arith, RunsBefore-push d e fs h k.1)

pub push-IsOrdered :
    (d : DelayedMessage) (es : List DelayedMessage) → IsOrdered es → IsOrdered (push d es)
unfolding push
push-IsOrdered d [] h = (tt, tt)
push-IsOrdered d (e ∷ es) h = elim (Bool-cases (less d e)) [
  | inl later ↦
      rw later (RunsBefore-push d e es (less-asymm d e later) h.0, push-IsOrdered d es h.1)
  | inr sooner ↦ rw sooner ((sooner, All-map es (λ x. not_less_trans d e x sooner) h.0), h)
]

pub reheap-IsOrdered : (ds : List DelayedMessage) → IsOrdered (reheap ds)
unfolding reheap
reheap-IsOrdered [] = tt
reheap-IsOrdered (d ∷ ds) = push-IsOrdered d (reheap ds) (reheap-IsOrdered ds)

pub push_first :
    (d : DelayedMessage) (es : List DelayedMessage) → RunsBefore d es → push d es ≡ d ∷ es
unfolding push
push_first d [] h = refl
push_first d (e ∷ es) h = rw (h.0)

-- On an ordered container, such as a part of an ordered one, `reheap` changes nothing.
pub reheap_ordered : (ds : List DelayedMessage) → IsOrdered ds → reheap ds ≡ ds
unfolding reheap
reheap_ordered [] h = refl
reheap_ordered (d ∷ ds) h = rw (reheap_ordered ds h.1) (push_first d ds h.0)

pub select-IsOrdered :
    (p : DelayedMessage → Bool) (ds : List DelayedMessage) → IsOrdered ds → IsOrdered (select p ds)
select-IsOrdered p [] h = tt
select-IsOrdered p (d ∷ ds) h =
    ground (arith, select-IsOrdered p ds h.1, All-select_of (λ e. less d e ≡ false) p ds h.0)
