-- ===== src/Units.antt =====
-- units.c: numbers with units, read and written.
pub mod Defs
pub mod Scan
pub mod Format
mod Tests
