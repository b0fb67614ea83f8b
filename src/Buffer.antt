-- ===== src/Buffer.antt =====
-- The growable byte buffer of script.c (`buffer_append`, `buffer_reset`, `buffer_pushlstring`) and
-- wrk.h (`buffer`). A byte is a number; a pointer into the buffer is its offset from the start.
-- A write or a read outside the allocated block is a fault, `none`.
pub mod Defs
pub mod Room
pub mod Strings
pub mod Samples
