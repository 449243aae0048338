-- ===== src/RateStatistics.antt =====
-- rate_statistics.cc and rate_statistics.h: `RateStatistics`, the rate of counts in a moving window.
pub mod State
pub mod Log
pub mod Core
pub mod Erase
pub mod Add
pub mod Samples
pub mod Resize
pub mod Answer
mod Tests
