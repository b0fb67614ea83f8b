-- ===== src/Thread/Timers.antt =====
-- wrk.c: `calibrate`, `check_timeouts` and `sample_rate`, the timers of a thread. `statistics` is
-- the store that the threads share; `check_timeouts` sees all connections of the thread.
use wrkx.Prelude.{
  ℕ, ◌/◌, Bool, Option, none, some, List, [], ◌∷◌, ltb, leb, if◌then◌else◌, sub64, mul64, ◌||◌,
  ◌>>=◌,
}
use wrkx.EventLoop.{sample_rate}
use wrkx.Connection.State.{Connection, Errors}
use wrkx.Stats.Defs.{Stats, stats_record}
use wrkx.Thread.State.{Platform, Config, Thread, count_timeout}

-- CALIBRATE_DELAY_MS and TIMEOUT_INTERVAL_MS
abbrev pub calibrate_delay_ms : ℕ
calibrate_delay_ms = 10_000

abbrev pub timeout_interval_ms : ℕ
timeout_interval_ms = 2_000

module _ (p : Platform) where
  open p use {float, ae, hdr}

  -- `MAX(latency * 2, 10)`, with the latency in milliseconds
  unfoldable pub sampling_interval : ℕ → float.F
  sampling_interval value =
      let twice = float.mul (float.div (float.of_u64 value) (float.lit 1000 1)) (float.lit 2 1) in
      if float.gt twice (float.lit 10 1) then twice else float.lit 10 1

  -- the milliseconds after which to be called again, or `none` for AE_NOMORE
  unfoldable pub calibrate_at : ℕ → Thread p → Option ℕ × Thread p
  unfolding sampling_interval
  calibrate_at now t =
      let mean = hdr.mean t.latency_histogram in
      let interval =
        float.to_u64
          (sampling_interval (hdr.value_at_percentile t.latency_histogram (float.lit 90 1))) in
      if float.is_zero mean then (some calibrate_delay_ms, t) else (
        none,
        record t {
          mean = float.to_u64 mean;
          latency_histogram = hdr.reset t.latency_histogram;
          u_latency_histogram = hdr.reset t.u_latency_histogram;
          start = now;
          interval = interval;
          requests = 0;
          loop = ae.create_time_event t.loop interval sample_rate;
        },
      )

  -- the loop of `check_timeouts`
  unfoldable pub count_late : ℕ → List (Connection float.F) → Errors → Errors
  count_late max_age [] e = e
  count_late max_age (c ∷ cs) e =
      count_late max_age cs (if ltb c.start max_age then count_timeout e else e)

  -- `stop` is the flag that the signal handler sets
  unfoldable pub check_timeouts_at :
      Config → Bool → ℕ → List (Connection float.F) → Thread p → ℕ × Thread p
  unfolding count_late
  check_timeouts_at cfg stop now cs t =
      let t' = record t { errors = count_late (sub64 now (mul64 cfg.timeout 1000)) cs t.errors } in
      (
        timeout_interval_ms,
        (if stop || leb t.stop_at now then record t' { loop = ae.stop t'.loop } else t'),
      )

  -- the rate of a window: its requests and its length in milliseconds, times 1000
  unfoldable pub rate : ℕ → ℕ → ℕ
  rate requests elapsed_ms =
      float.to_u64
        (float.mul (float.div (float.of_u64 requests) (float.of_u64 elapsed_ms)) (float.lit 1000 1))

  -- the clock is read at the start and at the end
  unfoldable pub sample_rate_at :
      {H : Type 0} → (H → ℕ → H) → ℕ → ℕ → Stats H × Thread p → Option (ℕ × Stats H × Thread p)
  unfolding rate stats_record
  sample_rate_at hdr_record_value now later (requests, t) =
      stats_record hdr_record_value requests (rate t.requests (sub64 now t.start / 1000))
      >>= λ requests'. some (t.interval, requests', record t { requests = 0; start = later })
