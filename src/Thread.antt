-- ===== src/Thread.antt =====
-- The thread of wrk.h and the handlers of wrk.c that its event loop calls for a connection.
pub mod State
pub mod Socket
pub mod Completion
pub mod Kept
pub mod OnTime
pub mod Latency
pub mod Run
pub mod Batch
pub mod Arming
pub mod Live
pub mod LiveWrites
pub mod Induction
pub mod Responses
pub mod Answers
pub mod Turns
pub mod Refused
pub mod Stale
pub mod World
pub mod Idle
pub mod Early
pub mod Away
pub mod AwayReads
pub mod Timers
pub mod Late
pub mod Windows
pub mod Samples
mod Tests
mod TimerTests
mod TurnTests
