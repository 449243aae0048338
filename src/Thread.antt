-- ===== src/Thread.antt =====
-- thread.cc: the life of an `rtc::Thread`, and `Send` between two of them.
pub mod Life
pub mod Send
mod Tests
