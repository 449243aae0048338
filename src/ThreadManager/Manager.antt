-- ===== src/ThreadManager/Manager.antt =====
-- thread.cc: the list of message queues of `ThreadManager`. A queue is its `Thread`'s message queue.
use rtc_base.Common.{ℕ, Option, none, List, [], ◌∷◌, ◌++◌, map, ◌==◌, if◌then◌else◌}
use rtc_base.Message.{mqid_any}
use rtc_base.MessageQueue.State.{Queue}
use rtc_base.MessageQueue.Clear.{clear_internal}
use rtc_base.ThreadManager.Graph.{Entry, remove_from_send_graph}

pub record Member : Type 0 where
  pub thread : ℕ
  pub queue : Queue

pub record Manager : Type 0 where
  pub message_queues : List Member
  pub send_graph : List Entry

unfoldable pub add_internal : Member → Manager → Manager
add_internal m s = record s { message_queues = s.message_queues ++ (m ∷ []) }

-- `std::find` and `erase`
unfoldable pub erase_first : ℕ → List Member → List Member
erase_first thread [] = []
erase_first thread (m ∷ ms) = if m.thread == thread then ms else m ∷ erase_first thread ms

unfoldable pub remove_internal : ℕ → Manager → Manager
remove_internal thread s = record s {
  message_queues = erase_first thread s.message_queues;
  send_graph = remove_from_send_graph thread s.send_graph;
}

-- `queue->Clear(handler)`, with the order of the vector of the queue's delayed messages
unfoldable pub clear_member : Option ℕ → List ℕ → Member → Member
clear_member handler order m = record m {
  queue = (clear_internal handler mqid_any none order m.queue).0;
}

-- The orders are those of the threads' queues.
unfoldable pub clear_all : Option ℕ → (ℕ → List ℕ) → Manager → Manager
clear_all handler orders s = record s {
  message_queues = map (λ m. clear_member handler (orders m.thread) m) s.message_queues;
}
