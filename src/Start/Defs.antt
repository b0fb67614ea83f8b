-- ===== src/Start/Defs.antt =====
-- wrk.c: the loops of `main` over the threads, before and after the run, and `thread_main` up to
-- `aeMain`. What the system and the script answer (the clock, the request's length) is an argument.
use wrkx.Prelude.{ℕ, zero, suc, ◌/◌, true, false, none, List, [], ◌∷◌, add32, add64, mul64}
use wrkx.EventLoop.{delayed_initial_connect, calibrate, check_timeouts}
use wrkx.Response.Defs.{field}
use wrkx.Connection.State.{Connection, Errors}
use wrkx.Thread.State.{Platform, Thread}
use wrkx.Thread.Timers.{calibrate_delay_ms, timeout_interval_ms}

-- the members of `config` that say how much to do
pub record Load : Type 0 where
  pub threads : ℕ
  pub connections : ℕ
  pub duration : ℕ
  pub rate : ℕ

module _ (p : Platform) where
  open p use {float, ae, hdr}

  -- `(double)cfg.rate / cfg.threads`
  unfoldable pub thread_throughput : Load → float.F
  thread_throughput cfg = float.div (float.of_u64 cfg.rate) (float.of_u64 cfg.threads)

  -- a thread as `main` sets it up, with a new loop and, as `thread_main` does it, new histograms
  unfoldable pub create_thread : Load → ℕ → ae.L → hdr.H → Thread p
  create_thread cfg now loop empty = record {
    loop = loop;
    connections = cfg.connections / cfg.threads;
    interval = 0;
    stop_at = add64 now (mul64 cfg.duration 1_000_000);
    complete = 0;
    requests = 0;
    bytes = 0;
    start = 0;
    mean = 0;
    latency_histogram = empty;
    u_latency_histogram = empty;
    errors = record { connect = 0; read = 0; write = 0; status = 0; timeout = 0 };
  }

  -- a connection of a cleared block, as the loop of `thread_main` fills it in
  unfoldable pub create_connection : float.F → ℕ → Connection float.F
  create_connection throughput length = record {
    fd = 0;
    throughput = throughput;
    catch_up_throughput = float.mul throughput (float.lit 2 1);
    complete = 0;
    complete_at_last_batch_start = 0;
    catch_up_start_time = 0;
    complete_at_catch_up_start = 0;
    thread_start = 0;
    start = 0;
    length = length;
    written = 0;
    pending = 0;
    response = record {
      state = field;
      headers = record { block = none; length = 0; cursor = 0 };
      body = record { block = none; length = 0; cursor = 0 };
    };
    actual_latency_start = 0;
    has_pending = false;
    caught_up = true;
    latest_should_send_time = 0;
    latest_expected_start = 0;
    latest_connect = 0;
    latest_write = 0;
  }

  -- the loop of `thread_main`: `n` connections from the one of index `i` on
  unfoldable pub create_connections : float.F → ℕ → ℕ → ℕ → ae.L → List (Connection float.F) × ae.L
  unfolding create_connection
  create_connections throughput length i zero loop = ([], loop)
  create_connections throughput length i (suc n) loop =
      let (cs, loop') =
        create_connections throughput length (suc i) n
          (ae.create_time_event loop (mul64 i 5) delayed_initial_connect) in
      (create_connection throughput length ∷ cs, loop')

  -- `thread_main` up to `aeMain`: the connections, and the thread. The clock is read at the end.
  unfoldable pub thread_main : float.F → ℕ → ℕ → Thread p → List (Connection float.F) × Thread p
  unfolding create_connections
  thread_main throughput length now t =
      let each =
        float.div (float.div throughput (float.lit 1_000_000 1)) (float.of_u64 t.connections) in
      let (cs, l) = create_connections each length 0 t.connections t.loop in
      let l' =
        ae.create_time_event l (add64 calibrate_delay_ms (mul64 t.connections 5)) calibrate in
      let l'' =
        ae.create_time_event l' (add64 timeout_interval_ms (mul64 t.connections 5))
          check_timeouts in
      (cs, record t { loop = l''; start = now })

  -- what `main` adds up
  pub record Totals : Type 0 where
    pub complete : ℕ
    pub bytes : ℕ
    pub errors : Errors

  unfoldable pub add_thread : Thread p → Totals → Totals
  add_thread t s = record {
    complete = add64 s.complete t.complete;
    bytes = add64 s.bytes t.bytes;
    errors = record {
      connect = add32 s.errors.connect t.errors.connect;
      read = add32 s.errors.read t.errors.read;
      write = add32 s.errors.write t.errors.write;
      status = add32 s.errors.status t.errors.status;
      timeout = add32 s.errors.timeout t.errors.timeout;
    };
  }

  unfoldable pub add_threads : List (Thread p) → Totals → Totals
  unfolding add_thread
  add_threads [] s = s
  add_threads (t ∷ ts) s = add_threads ts (add_thread t s)
