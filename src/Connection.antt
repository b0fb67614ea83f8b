-- ===== src/Connection.antt =====
-- The connection of wrk.h and its handlers in wrk.c.
pub mod State
pub mod Pacing
pub mod Schedule
