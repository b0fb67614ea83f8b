-- ===== src/Stats.antt =====
-- stats.c: the sample store of the request rate, a ring of the latest values, and random sampling.
pub mod Defs
pub mod Window
pub mod Mean
pub mod Compare
pub mod Random
pub mod Summary
pub mod Sorted
pub mod Spread
pub mod Percentile
pub mod Sampling
mod Tests
