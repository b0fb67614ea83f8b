-- ===== src/Start.antt =====
-- wrk.c `main` and `thread_main`: how the threads and their connections start, and how their
-- counts are added up.
pub mod Defs
pub mod Connects
pub mod Totals
pub mod Setup
pub mod Balanced
pub mod Affinity
pub mod Signals
pub mod Clock
mod SetupTests
mod Tests
