-- ===== src/ThreadManager.antt =====
-- thread.cc, thread.h: `ThreadManager`. A `Thread*` is a number.
-- `send_graph_` is a `std::map<Thread*, std::set<Thread*>>`: a list of entries, each with the list of
-- its targets.
pub mod Graph
pub mod Manager
pub mod Walk
pub mod Send
pub mod Remove
mod Tests
