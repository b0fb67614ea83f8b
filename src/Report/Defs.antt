-- ===== src/Report/Defs.antt =====
-- wrk.c: `print_units`, `print_stats_header`, `print_stats`, `print_hdr_latency`, and `main` from the
-- merged histograms to the last line of the summary. What is printed is the list of its bytes. The
-- formats of the C library are parameters.
use wrkx.Prelude.{
  ℕ, ◌-◌, Bool, ◌&&◌, ◌||◌, not, Option, none, some, List, [], ◌∷◌, ◌++◌, length, take, replicate,
  get_elem?, leb, ◌==◌, if◌then◌else◌, ◌>>=◌, codes,
}
use wrkx.Float.{Float}
use wrkx.Connection.State.{Errors}
use wrkx.Stats.Defs.{Stats, stats_alloc}
use wrkx.Stats.Summary.{stats_summarize, stats_stdev, stats_within_stdev}
use wrkx.Thread.State.{Platform, Thread}
use wrkx.Units.Defs.{format_time_us, format_binary}
use wrkx.Start.Defs.{Totals}

-- `isalpha`
abbrev pub is_alpha : ℕ → Bool
is_alpha b = (leb 65 b && leb b 90) || (leb 97 b && leb b 122)

-- `%10s` and `%-10s`
abbrev pub pad_left : ℕ → List ℕ → List ℕ
pad_left n s = replicate (n - length s) b' ' ++ s

abbrev pub pad_right : ℕ → List ℕ → List ℕ
pad_right n s = s ++ replicate (n - length s) b' '

-- `pad` of `print_units`, by the last two characters
unfoldable pub padding : ℕ → ℕ → ℕ
padding last before = 2 - (if is_alpha last then 1 else 0) - (if is_alpha before then 1 else 0)

-- `print_units` of a message; one of less than two characters is read outside. The width is at least
-- 2 in every call.
unfoldable pub print_message : List ℕ → ℕ → Option (List ℕ)
unfolding padding
print_message msg width =
    if leb (length msg) 1
    then none
    else (get_elem? msg (length msg - 1) >>= λ last. get_elem? msg (length msg - 2) >>= λ before.
        let pad = padding last before in
        some (pad_left (width - pad) (take (width - pad) msg) ++ take pad (codes "  ")))

-- `%w.pLf`, `%PRIu64` and `%d`
pub record Printf (f : Float) : Type 0 where
  pub print_float : (width places : ℕ) → f.F → List ℕ
  pub print_u64 : ℕ → List ℕ
  pub print_int : ℕ → List ℕ

abbrev pub print_stats_header : List ℕ
print_stats_header =
    codes "  Thread Stats"
    ++ pad_left 6 (codes "Avg")
    ++ pad_left 11 (codes "Stdev")
    ++ pad_left 8 (codes "Max")
    ++ pad_left 12 (codes "+/- Stdev")
    ++ (10 ∷ [])

module _ (p : Platform) (printf : Printf p.float) where
  open p use {float, hdr}

  -- `aprintf(&msg, "%.*Lf%s", p, amt, unit)` of `format_units`
  unfoldable pub message_of : float.F × ℕ × List ℕ → List ℕ
  message_of (amt, places, unit) = printf.print_float 0 places amt ++ unit

  unfoldable pub print_units : float.F → (float.F → float.F × ℕ × List ℕ) → ℕ → Option (List ℕ)
  unfolding print_message message_of
  print_units n fmt width = print_message (message_of (fmt n)) width

  -- the text, and the store, which is sorted
  unfoldable pub print_stats :
      ((ℕ → ℕ → ℕ) → List ℕ → List ℕ)
      → List ℕ
      → Stats hdr.H
      → (float.F → float.F × ℕ × List ℕ)
      → Option (List ℕ × Stats hdr.H)
  unfolding print_units stats_summarize stats_stdev stats_within_stdev
  print_stats qsort name stats fmt =
      let max = stats.max in
      let (mean, sorted) = stats_summarize hdr qsort stats in
      let stdev = stats_stdev hdr sorted mean in
      print_units mean fmt 8 >>= λ a. print_units stdev fmt 10 >>= λ b.
      print_units (float.of_u64 max) fmt 9 >>= λ c. some (
        codes "    "
            ++ pad_right 10 name
            ++ a
            ++ b
            ++ c
            ++ printf.print_float 8 2 (stats_within_stdev hdr sorted mean stdev 1)
            ++ codes "%\n",
        sorted,
      )

  -- 50, 75, 90, 99, 99.9, 99.99, 99.999, 100
  abbrev pub percentiles : List float.F
  percentiles =
      float.lit 50 1
      ∷ float.lit 75 1
      ∷ float.lit 90 1
      ∷ float.lit 99 1
      ∷ float.lit 999 10
      ∷ float.lit 9999 100
      ∷ float.lit 99999 1000
      ∷ float.lit 100 1
      ∷ []

  -- the loop over the percentiles
  unfoldable pub print_percentiles : hdr.H → List float.F → Option (List ℕ)
  unfolding print_units format_time_us
  print_percentiles h [] = some []
  print_percentiles h (q ∷ qs) =
      print_units (float.of_i64 (hdr.value_at_percentile h q)) (format_time_us float) 10 >>= λ n.
      print_percentiles h qs >>= λ rest.
      some (printf.print_float 7 3 q ++ codes "%" ++ n ++ (10 ∷ rest))

  -- `hdr_percentiles_print` prints the spectrum.
  unfoldable pub print_hdr_latency : (hdr.H → List ℕ) → hdr.H → List ℕ → Option (List ℕ)
  unfolding print_percentiles
  print_hdr_latency spectrum h description = print_percentiles h percentiles >>= λ lines. some (
      codes "  Latency Distribution (HdrHistogram - "
      ++ description
      ++ codes ")\n"
      ++ lines
      ++ codes "\n  Detailed Percentile spectrum:\n"
      ++ spectrum h)

  -- the two `hdr_add` of the loop over the threads
  unfoldable pub merge : List (Thread p) → hdr.H × hdr.H → hdr.H × hdr.H
  merge [] (latency, u_latency) = (latency, u_latency)
  merge (t ∷ ts) (latency, u_latency) =
      merge ts (hdr.add latency t.latency_histogram, hdr.add u_latency t.u_latency_histogram)

  unfoldable pub latency_stats : hdr.H → Stats hdr.H
  unfolding stats_alloc
  latency_stats latency = record (stats_alloc 10) {
    min = hdr.min latency;
    max = hdr.max latency;
    histogram = some latency;
  }

  unfoldable pub print_errors : Errors → List ℕ
  print_errors e =
      if not (e.connect == 0) || not (e.read == 0) || not (e.write == 0) || not (e.timeout == 0)
      then codes "  Socket errors: connect "
        ++ printf.print_int e.connect
        ++ codes ", read "
        ++ printf.print_int e.read
        ++ codes ", write "
        ++ printf.print_int e.write
        ++ codes ", timeout "
        ++ printf.print_int e.timeout
        ++ (10 ∷ [])
      else []

  unfoldable pub print_status : Errors → List ℕ
  print_status e =
      if e.status == 0
      then []
      else codes "  Non-2xx or 3xx responses: " ++ printf.print_int e.status ++ (10 ∷ [])

  -- from "requests in" to "Transfer/sec", for a run of `runtime_us` microseconds
  unfoldable pub print_totals : ℕ → Totals p → List ℕ
  unfolding print_errors print_status message_of
  print_totals runtime_us totals =
      let runtime_s = float.div (float.of_u64 runtime_us) (float.lit 1_000_000 1) in
      let req_per_s = float.div (float.of_u64 totals.complete) runtime_s in
      let bytes_per_s = float.div (float.of_u64 totals.bytes) runtime_s in
      codes "  "
      ++ printf.print_u64 totals.complete
      ++ codes " requests in "
      ++ message_of (format_time_us float (float.of_u64 runtime_us))
      ++ codes ", "
      ++ message_of (format_binary float (float.of_u64 totals.bytes))
      ++ codes "B read\n"
      ++ print_errors totals.errors
      ++ print_status totals.errors
      ++ codes "Requests/sec: "
      ++ printf.print_float 9 2 req_per_s
      ++ codes "\nTransfer/sec: "
      ++ pad_left 10 (message_of (format_binary float bytes_per_s))
      ++ codes "B\n"
