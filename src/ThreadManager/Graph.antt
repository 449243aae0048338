-- ===== src/ThreadManager/Graph.antt =====
-- thread.cc: `ThreadManager::RegisterSendAndCheckForCycles` and `RemoveFromSendGraph`.
use rtc_base.Common.{
  ℕ, zero, suc, Bool, true, false, not, List, [], ◌∷◌, ◌++◌, Option, none, some, ◌==◌,
  if◌then◌else◌, select,
}

pub record Entry : Type 0 where
  pub source : ℕ
  pub targets : List ℕ

-- `send_graph_[thread]`, read
unfoldable pub targets_of : List Entry → ℕ → List ℕ
targets_of [] thread = []
targets_of (e ∷ g) thread = if e.source == thread then e.targets else targets_of g thread

-- `send_graph_[thread]` puts an empty entry in if there is none.
unfoldable pub touch : ℕ → List Entry → List Entry
touch thread [] = record { source = thread; targets = [] } ∷ []
touch thread (e ∷ g) = if e.source == thread then e ∷ g else e ∷ touch thread g

unfoldable pub contains : ℕ → List ℕ → Bool
contains thread [] = false
contains thread (t ∷ ts) = if t == thread then true else contains thread ts

-- `std::set::insert`
unfoldable pub insert_target : ℕ → List ℕ → List ℕ
insert_target thread ts = if contains thread ts then ts else thread ∷ ts

-- `send_graph_[source].insert(target)`
unfoldable pub insert_edge : ℕ → ℕ → List Entry → List Entry
insert_edge source target [] = record { source = source; targets = target ∷ [] } ∷ []
insert_edge source target (e ∷ g) =
    if e.source == source
    then record e { targets = insert_target target e.targets } ∷ g
    else e ∷ insert_edge source target g

-- The loop over `all_targets`, of which the first elements are done and the others pending.
unfoldable pub collect : ℕ → List Entry → List ℕ → List ℕ → Option (List ℕ × List Entry)
collect fuel g done [] = some (done, g)
collect zero g done (t ∷ pending) = none
collect (suc fuel) g done (t ∷ pending) =
    collect fuel (touch t g) (done ++ (t ∷ [])) (pending ++ targets_of g t)

-- `RTC_CHECK` aborts the program; a loop that is out of fuel still runs.
pub data Outcome : Type 0 where
  aborted : Outcome
  registered : List Entry → Outcome
  running : Outcome

unfoldable pub check_and_insert : ℕ → ℕ → Option (List ℕ × List Entry) → Outcome
check_and_insert source target none = running
check_and_insert source target (some (all_targets, g)) =
    if contains source all_targets then aborted else registered (insert_edge source target g)

unfoldable pub register_send_and_check_for_cycles : ℕ → ℕ → ℕ → List Entry → Outcome
register_send_and_check_for_cycles fuel source target g =
    check_and_insert source target (collect fuel g [] (target ∷ []))

unfoldable pub erase_target : ℕ → List ℕ → List ℕ
erase_target thread = select (λ t. not (t == thread))

unfoldable pub remove_from_send_graph : ℕ → List Entry → List Entry
remove_from_send_graph thread [] = []
remove_from_send_graph thread (e ∷ g) =
    if e.source == thread
    then remove_from_send_graph thread g
    else record e { targets = erase_target thread e.targets } ∷ remove_from_send_graph thread g
