-- ===== src/Types.antt =====
-- postgres-protocol/src/types/mod.rs: the binary format of SQL values.
pub mod Scalar
pub mod Array
pub mod Geometry
pub mod Inet
pub mod Bits
pub mod Hstore
pub mod Range
