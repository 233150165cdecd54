-- ===== src/ByteArray.antt =====
-- src/base/bytearray.h and src/base/endian.h: the chained byte buffer and its codecs.
pub mod Chain
pub mod Store
pub mod Sequence
pub mod Fixed
pub mod Varint
pub mod Text
pub mod Buffers
mod Examples
