-- ===== src/Report.antt =====
-- wrk.c: the report that `main` prints at the end.
pub mod Defs
pub mod Columns
pub mod End
pub mod Printed
pub mod Lines
pub mod Sums
mod Tests
mod EndTests
