-- ===== src/Connection/State.antt =====
-- wrk.h: `connection`; stats.h: `errors`; net.h: `status`.
use wrkx.Prelude.{ℕ, Bool}
use wrkx.Response.Defs.{Response}

-- `connection`, over the type of its double members. Left out are the pointers to the thread, to
-- the TLS session and to the request's bytes, the parser, and the bytes last read.
pub record Connection (F : Type 0) : Type 0 where
  pub fd : ℕ
  pub throughput : F
  pub catch_up_throughput : F
  pub complete : ℕ
  pub complete_at_last_batch_start : ℕ
  pub catch_up_start_time : ℕ
  pub complete_at_catch_up_start : ℕ
  pub thread_start : ℕ
  pub start : ℕ
  pub length : ℕ
  pub written : ℕ
  pub pending : ℕ
  -- the members `state`, `headers` and `body`
  pub response : Response
  pub actual_latency_start : ℕ
  pub has_pending : Bool
  pub caught_up : Bool
  pub latest_should_send_time : ℕ
  pub latest_expected_start : ℕ
  pub latest_connect : ℕ
  pub latest_write : ℕ

-- `errors`, each a uint32_t
pub record Errors : Type 0 where
  pub connect : ℕ
  pub read : ℕ
  pub write : ℕ
  pub status : ℕ
  pub timeout : ℕ

-- `status`
pub data Status : Type 0 where
  ok error retry read_eof : Status
