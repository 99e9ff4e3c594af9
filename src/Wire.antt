-- ===== src/Wire.antt =====
-- What the crates `byteorder`, `bytes` and `memchr` do for the protocol code, and the shared
-- readers and writers on top of them: `write_nullable` and `FromUsize` of postgres-protocol/src/lib.rs.
-- A `&[u8]`, `Bytes` or `BytesMut` is the list of its bytes. A reader takes what is left of its slice
-- and returns its value with what is left then; a writer takes the buffer and returns the buffer.
-- What an `Err` leaves in a buffer is not modelled.
pub mod Crates
pub mod Read
pub mod Write
pub mod Standard
pub mod Utf8
pub mod Text
pub mod Iterate
