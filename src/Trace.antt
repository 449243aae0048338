-- ===== src/Trace.antt =====
-- trace_impl_c.c: the streams that trace messages go to.
pub mod Streams
pub mod Settled
pub mod Wrap
pub mod Message
pub mod Valid
pub mod Filters
pub mod Head
pub mod Parts
pub mod Lines
pub mod Dates
mod Tests
mod LineTests
