-- ===== src/Message.antt =====
-- aprintf.c: a formatted text at the end of a string that grows.
pub mod Defs
pub mod Printed
mod Tests
