-- ===== src/Args.antt =====
-- The command line: wrk.c `longopts`, `parse_args`; units.c `scan_affinity`; script.c
-- `script_parse_url`.
pub mod Affinity
pub mod Defs
pub mod Usable
pub mod Options
mod Tests
