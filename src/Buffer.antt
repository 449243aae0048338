-- ===== src/Buffer.antt =====
-- buffer.h: `BufferT`, a block of elements with a size and a capacity.
pub mod State
pub mod Block
pub mod Growth
pub mod Contents
pub mod Wipe
pub mod Release
pub mod Moves
mod Tests
