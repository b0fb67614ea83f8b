-- ===== src/Thread/Samples.antt =====
-- A platform made of lists and whole numbers, and a thread and a connection on it, for the tests.
use wrkx.Prelude.{
  pos, length, ◌++◌, ℕ, ◌+◌, ◌-◌, ◌*◌, ◌/◌, ◌%◌, ◌^◌, ◌≤◌, ◌<◌, ◌≡◌, ◌≢◌, refl, Bool, true, false,
  Option, none, List, [], ◌∷◌, ◌==◌, ltb, ltb→lt, ==_refl, if◌then◌else◌, arith,
}
use wrkx.Buffer.Samples.{no_buffer}
use wrkx.Response.Defs.{field}
use wrkx.Float.{Float, Laws}
use wrkx.EventLoop.{EventLoop, LoopLaws, FileProc, TimeProc, reads, writes, set_proc, unset_proc}
use wrkx.Connection.State.{Connection, Errors, ok}
use wrkx.Histogram.{Histogram}
use wrkx.Thread.State.{Platform, Config, Thread, State}
use wrkx.Thread.Socket.{Connecting, Writing}
use wrkx.Thread.Completion.{Completing, on_message_complete, Reading}

-- whole numbers for floats: a quotient is rounded down, a literal up
abbrev pub whole : Float
whole = record {
  F = ℕ;
  of_u64 = λ n. n;
  to_u64 = λ n. n;
  add = λ a b. a + b;
  mul = λ a b. a * b;
  div = λ a b. a / b;
  sub = λ a b. a - b;
  square = λ a. a * a;
  sqrt = λ a. a;
  of_i64 = λ n. n;
  to_i64 = λ n. pos n;
  round = λ n. n;
  round_to_int = λ n. n % 2 ^ 32;
  gt = λ a b. ltb b a;
  is_zero = λ a. a == 0;
  lit = λ n d. (n + d - 1) / d;
}

pub div_zero_lem : (y : ℕ) → 0 < y → 0 / y ≡ 0
div_zero_lem y h = omega arith

pub div_mono_lem : (x y z : ℕ) → 0 < z → x ≤ y → x / z ≤ y / z
div_mono_lem x y z h k = grind arith

pub round_up_lem :
    (usec : ℕ) → usec / 1000 + 1 < 2 ^ 31 → (usec / 1000 + 1) % 2 ^ 32 ≡ usec / 1000 + 1
round_up_lem usec h = omega arith

pub gt_false_lem : (x y : ℕ) → ltb y x ≡ false → x ≤ y
gt_false_lem x y h = ground arith

pub gt_le_lem : (x y : ℕ) → ltb y x ≡ true → y ≤ x
gt_le_lem x y h = omega (arith, ltb→lt y x h)

abbrev pub whole_laws : Laws whole
whole_laws = record {
  Le = λ a b. a ≤ b;
  Positive = λ y. 0 < y;
  exact = λ n h. refl;
  div_zero = div_zero_lem;
  add_zero = λ n. omega arith;
  of_mono = λ m n h. h;
  to_mono = λ x y h. h;
  add_mono = λ a x y h. omega arith;
  div_mono = div_mono_lem;
  gt_le = gt_le_lem;
  gt_false = gt_false_lem;
  lit_exact = λ n h. omega arith;
  round_up = round_up_lem;
}

-- an event loop as two functions and a list
pub record Handlers : Type 0 where
  pub on_read : ℕ → Option FileProc
  pub on_write : ℕ → Option FileProc
  pub timers : List (ℕ × TimeProc)
  pub stopped : Bool

abbrev pub at_fd :
    ℕ → (Option FileProc → Option FileProc) → (ℕ → Option FileProc) → ℕ → Option FileProc
at_fd fd change old k = if fd == k then change (old k) else old k

abbrev pub listing : EventLoop
listing = record {
  L = Handlers;
  create_file_event = λ l fd m q. (
    true,
    record l {
      on_read = at_fd fd (set_proc (reads m) q) l.on_read;
      on_write = at_fd fd (set_proc (writes m) q) l.on_write;
    },
  );
  delete_file_event = λ l fd m. record l {
    on_read = at_fd fd (unset_proc (reads m)) l.on_read;
    on_write = at_fd fd (unset_proc (writes m)) l.on_write;
  };
  create_time_event = λ l ms q. record l { timers = (ms, q) ∷ l.timers };
  stop = λ l. record l { stopped = true };
  on_readable = λ l fd. l.on_read fd;
  on_writable = λ l fd. l.on_write fd;
  timers = λ l. l.timers;
  stopped = λ l. l.stopped;
}

pub at_fd_self :
    (fd : ℕ) (change : Option FileProc → Option FileProc) (old : ℕ → Option FileProc)
    → at_fd fd change old fd ≡ change (old fd)
at_fd_self fd change old = rw (==_refl fd)

pub at_fd_other :
    (fd : ℕ) (change : Option FileProc → Option FileProc) (old : ℕ → Option FileProc) (other : ℕ)
    → fd ≢ other
    → at_fd fd change old other ≡ old other
at_fd_other fd change old other ne = let e : (fd == other) ≡ false = ground arith in rw e

abbrev pub listing_laws : LoopLaws listing
listing_laws = record {
  fits = λ fd. true;
  create_ok = λ l fd m q h. refl;
  create_readable = λ l fd m q h. at_fd_self fd (set_proc (reads m) q) l.on_read;
  create_writable = λ l fd m q h. at_fd_self fd (set_proc (writes m) q) l.on_write;
  delete_readable = λ l fd m. at_fd_self fd (unset_proc (reads m)) l.on_read;
  delete_writable = λ l fd m. at_fd_self fd (unset_proc (writes m)) l.on_write;
  create_readable_other = λ l fd m q k ne. at_fd_other fd (set_proc (reads m) q) l.on_read k ne;
  create_writable_other = λ l fd m q k ne. at_fd_other fd (set_proc (writes m) q) l.on_write k ne;
  delete_readable_other = λ l fd m k ne. at_fd_other fd (unset_proc (reads m)) l.on_read k ne;
  delete_writable_other = λ l fd m k ne. at_fd_other fd (unset_proc (writes m)) l.on_write k ne;
  time_readable = λ l ms q fd. refl;
  time_timers = λ l ms q. refl;
  time_writable = λ l ms q fd. refl;
  create_timers = λ l fd m q. refl;
  delete_timers = λ l fd m. refl;
  stop_readable = λ l fd. refl;
  stop_writable = λ l fd. refl;
  stop_stopped = λ l. refl;
}

-- a histogram that lists what it is given, and knows the latest value
abbrev pub latest : List ℕ → ℕ
latest [] = 0
latest (v ∷ vs) = v

abbrev pub listed : Histogram whole
listed = record {
  H = List ℕ;
  record_value = λ h v. v ∷ h;
  reset = λ h. [];
  mean = latest;
  stddev = λ h. 0;
  total_count = length;
  iterate = λ h. [];
  add = λ h k. k ++ h;
  min = latest;
  max = latest;
  value_at_percentile = λ h q. latest h;
}

abbrev pub platform : Platform
platform = record { float = whole; ae = listing; hdr = listed }

abbrev pub settings : Config
settings = record { timeout = 2000; pipeline = 1; dynamic = false; record_all_responses = true }

abbrev pub no_events : Handlers
no_events = record { on_read = λ fd. none; on_write = λ fd. none; timers = []; stopped = false }

abbrev pub no_errors : Errors
no_errors = record { connect = 0; read = 0; write = 0; status = 0; timeout = 0 }

abbrev pub new_thread : Thread platform
new_thread = record {
  loop = no_events;
  connections = 1;
  interval = 0;
  stop_at = 1_000_000;
  complete = 0;
  requests = 0;
  bytes = 0;
  start = 0;
  mean = 0;
  latency_histogram = [];
  u_latency_histogram = [];
  errors = no_errors;
}

-- a connection that sends requests of 40 bytes, one for each microsecond by the plan
abbrev pub new_connection : Connection ℕ
new_connection = record {
  fd = 0;
  throughput = 1;
  catch_up_throughput = 2;
  complete = 0;
  complete_at_last_batch_start = 0;
  catch_up_start_time = 0;
  complete_at_catch_up_start = 0;
  thread_start = 0;
  start = 0;
  length = 40;
  written = 0;
  pending = 0;
  response = record { state = field; headers = no_buffer; body = no_buffer };
  actual_latency_start = 0;
  has_pending = false;
  caught_up = true;
  latest_should_send_time = 0;
  latest_expected_start = 0;
  latest_connect = 0;
  latest_write = 0;
}

abbrev pub new_state : State platform
new_state = record { thread = new_thread; conn = new_connection }

-- the system gives descriptor 7
abbrev pub connecting : Connecting
connecting = record { fd = 7; refused = false; now = 1000 }

abbrev pub writing : Writing
writing = record {
  now = 1500;
  write_time = 1501;
  start_time = 1502;
  request_length = 0;
  status = ok;
  count = 40;
}

abbrev pub completing : Completing
completing = record { now = 2000; status_code = 200; keep_alive = true; connecting = connecting }

abbrev pub reading : Reading
reading = record {
  status = ok;
  count = 20;
  calls = on_message_complete completing ∷ [];
  parsed = 20;
  more = false;
}
