-- ===== src/Thread/Windows.antt =====
-- The sampling windows of a thread (wrk.c): what `calibrate` sets up, and what the calls of
-- `sample_rate` record between the responses that `response_complete` counts.
use wrkx.Prelude.{ℕ, ◌/◌, ◌<◌, Option, some, List, [], ◌∷◌, length, sub64, u64_mod, ◌>>=◌}
use wrkx.Stats.Defs.{Stats}
use wrkx.Stats.Window.{Window}
use wrkx.Thread.State.{Platform, Thread}
use wrkx.Thread.Completion.{count_response}
use wrkx.Thread.Timers.{rate, sample_rate_at}

-- one sampling window: the status codes of its responses, and the clock at the start and at the
-- end of the call of `sample_rate` that closes it
pub record Sampling : Type 0 where
  pub responses : List ℕ
  pub closed : ℕ
  pub reopened : ℕ

module _ (p : Platform) where
  open p use {float, ae, hdr}

  -- the responses of a window, the last one first
  unfoldable pub count_responses : List ℕ → Thread p → Thread p
  unfolding count_response
  count_responses [] t = t
  count_responses (status ∷ ss) t = count_response p status (count_responses ss t)

  -- the windows of a thread, the last one first
  unfoldable pub run_windows :
      {H : Type 0} → (H → ℕ → H) → List Sampling → Stats H × Thread p → Option (Stats H × Thread p)
  unfolding count_responses sample_rate_at
  run_windows hdr_record_value [] st = some st
  run_windows hdr_record_value (w ∷ ws) st = run_windows hdr_record_value ws st >>= λ (q, t).
      sample_rate_at p hdr_record_value w.closed w.reopened (q, count_responses w.responses t)
      >>= λ (_, q', t'). some (q', t')

  -- when the next window begins
  abbrev pub opened : ℕ → List Sampling → ℕ
  opened start [] = start
  opened start (w ∷ ws) = w.reopened

  -- the rates of the windows, by their responses and their lengths
  abbrev pub rates : ℕ → List Sampling → List ℕ
  rates start [] = []
  rates start (w ∷ ws) =
      rate p (length w.responses) (sub64 w.closed (opened start ws) / 1000) ∷ rates start ws

  abbrev pub Short : List Sampling → Type 0
  Short [] = Unit {0}
  Short (w ∷ ws) = (length w.responses < u64_mod) × Short ws

  -- twice the 90th percentile of the latencies, in milliseconds
  abbrev pub twice_p90 : Thread p → float.F
  twice_p90 t =
      float.mul
        (float.div (float.of_u64 (hdr.value_at_percentile t.latency_histogram (float.lit 90 1)))
          (float.lit 1000 1))
        (float.lit 2 1)
