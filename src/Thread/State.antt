-- ===== src/Thread/State.antt =====
-- wrk.h: `thread`; wrk.c: `config`, as far as the handlers read it. A handler's state is the
-- thread and the connection that it is called for.
use wrkx.Prelude.{ℕ, Bool, add32, if◌then◌else◌}
use wrkx.Float.{Float}
use wrkx.Histogram.{Histogram}
use wrkx.EventLoop.{EventLoop}
use wrkx.Connection.State.{Connection, Errors}

-- the libraries below the handlers
pub record Platform : Type 1 where
  pub float : Float
  pub ae : EventLoop
  pub hdr : Histogram float

-- the members of `config` that the handlers read
pub record Config : Type 0 where
  pub timeout : ℕ
  pub pipeline : ℕ
  pub dynamic : Bool
  pub record_all_responses : Bool

-- `thread`, without the members that only its start needs
pub record Thread (p : Platform) : Type 0 where
  pub loop : p.ae.L
  pub connections : ℕ
  pub interval : ℕ
  pub stop_at : ℕ
  pub complete : ℕ
  pub requests : ℕ
  pub bytes : ℕ
  pub start : ℕ
  pub mean : ℕ
  pub latency_histogram : p.hdr.H
  pub u_latency_histogram : p.hdr.H
  pub errors : Errors

pub record State (p : Platform) : Type 0 where
  pub thread : Thread p
  pub conn : Connection p.float.F

-- `thread->errors.connect++`, and so on
abbrev pub count_connect : Errors → Errors
count_connect e = record e { connect = add32 e.connect 1 }

abbrev pub count_read : Errors → Errors
count_read e = record e { read = add32 e.read 1 }

abbrev pub count_write : Errors → Errors
count_write e = record e { write = add32 e.write 1 }

abbrev pub count_timeout : Errors → Errors
count_timeout e = record e { timeout = add32 e.timeout 1 }

-- `if (status > 399) thread->errors.status++`
abbrev pub count_status : Bool → Errors → Errors
count_status failed e = if failed then record e { status = add32 e.status 1 } else e

module _ {p : Platform} where
  -- a change of the loop, of the errors, and of the connection
  abbrev pub with_loop : State p → p.ae.L → State p
  with_loop s l = record s { thread = record s.thread { loop = l } }

  abbrev pub with_errors : State p → Errors → State p
  with_errors s e = record s { thread = record s.thread { errors = e } }

  abbrev pub with_conn : State p → Connection p.float.F → State p
  with_conn s c = record s { conn = c }
