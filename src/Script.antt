-- ===== src/Script.antt =====
-- script.c: the glue between the load generator and its Lua script.
pub mod Fields
pub mod Create
pub mod Headers
pub mod Calls
pub mod Balance
pub mod Life
pub mod Verify
pub mod Copy
pub mod Tables
pub mod Stores
pub mod Objects
pub mod Addresses
pub mod Known
pub mod Owners
pub mod Samples
pub mod Tests
