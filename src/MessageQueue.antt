-- ===== src/MessageQueue.antt =====
-- thread.cc, thread.h: the message queue of `rtc::Thread`, one child for each group of functions,
-- and the theorems about them in the children below.
pub mod Delayed
pub mod State
pub mod Clear
pub mod Calls
pub mod Get
pub mod Order
pub mod Container
pub mod Removal
pub mod Due
pub mod Loop
pub mod Delivery
pub mod Invariant
pub mod Ownership
pub mod Traffic
pub mod Timeouts
pub mod Process
pub mod Backlog
pub mod Drained
mod Tests
