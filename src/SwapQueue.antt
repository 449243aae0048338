-- ===== src/SwapQueue.antt =====
-- swap_queue.h: `SwapQueue`, for one producer and one consumer that run at the same time.
pub mod Steps
pub mod Ring
pub mod Invariant
pub mod Refinement
pub mod Runs
mod Tests
