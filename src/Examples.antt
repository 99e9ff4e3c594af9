-- ===== src/Examples.antt =====
-- The theorems applied to concrete inputs, with `Wire.Standard.standard` for the crates.
pub mod Stream
pub mod Columns
pub mod Requests
pub mod Values
pub mod Quoting
pub mod Shapes
pub mod Spans
pub mod Session
pub mod Setup
pub mod Password
pub mod Login
pub mod Options
pub mod Mysql
pub mod Binds
