-- ===== src/BitBuffer.antt =====
-- bit_buffer.cc, bit_buffer.h: `BitBuffer` and `BitBufferWriter`.
pub mod Byte
pub mod Stream
pub mod Reader
pub mod Peek
pub mod Read
pub mod Writer
pub mod Field
pub mod Write
pub mod Overwrite
pub mod RoundTrip
pub mod Golomb
pub mod Width
pub mod Decode
pub mod GolombRoundTrip
pub mod SignedGolomb
pub mod GolombErrors
pub mod NonSymmetric
pub mod NonSymmetricRead
pub mod NonSymmetricTrip
mod Tests
