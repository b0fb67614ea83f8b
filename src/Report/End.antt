-- ===== src/Report/End.antt =====
-- wrk.c: the announcement of `main`, and its end from the first join to the last line printed;
-- `print_stats_latency`, which nothing calls.
use wrkx.Prelude.{
  ℕ, Bool, true, false, Option, some, List, [], ◌∷◌, ◌++◌, replicate, sub64, ◌>>=◌, codes,
}
use wrkx.Connection.State.{Errors}
use wrkx.Stats.Defs.{Stats}
use wrkx.Stats.Summary.{stats_percentile}
use wrkx.Thread.State.{Platform, Thread}
use wrkx.Units.Defs.{format_time_us, format_time_s, format_metric}
use wrkx.Start.Defs.{Load, Totals, add_threads}
use wrkx.Report.Defs.{
  Printf, print_stats_header, message_of, print_units, print_stats, print_hdr_latency, percentiles,
  merge, latency_stats, print_totals,
}

-- what the end of `main` reads of `config`
pub record Wanted : Type 0 where
  pub latency : Bool
  pub u_latency : Bool

-- the line of dashes
abbrev pub rule : List ℕ
rule = replicate 58 b'-' ++ 10 ∷ []

abbrev no_errors : Errors
no_errors = record { connect = 0; read = 0; write = 0; status = 0; timeout = 0 }

module _ (p : Platform) (printf : Printf p.float) where
  open p use {float, hdr}

  -- "Running ... test @ ..." and the line behind it
  unfoldable pub announce : Load → List ℕ → List ℕ
  unfolding message_of format_time_s
  announce cfg url =
      codes "Running "
      ++ message_of p printf (format_time_s float (float.of_u64 cfg.duration))
      ++ codes " test @ "
      ++ url
      ++ codes "\n  "
      ++ printf.print_u64 cfg.threads
      ++ codes " threads and "
      ++ printf.print_u64 cfg.connections
      ++ codes " connections\n"

  abbrev pub new_totals : Totals p
  new_totals = record { complete = 0; bytes = 0; errors = no_errors }

  -- `if (cfg.latency) { ... }`
  unfoldable pub latency_part : (hdr.H → List ℕ) → Bool → hdr.H → Option (List ℕ)
  unfolding print_hdr_latency
  latency_part spectrum false h = some []
  latency_part spectrum true h =
      print_hdr_latency p printf spectrum h (codes "Recorded Latency") >>= λ text.
      some (text ++ rule)

  -- `if (cfg.u_latency) { ... }`
  unfoldable pub u_latency_part : (hdr.H → List ℕ) → Bool → hdr.H → Option (List ℕ)
  unfolding print_hdr_latency
  u_latency_part spectrum false h = some []
  u_latency_part spectrum true h =
      print_hdr_latency p printf spectrum h
        (codes "Uncorrected Latency (measured without taking delayed starts into account)")
      >>= λ text. some (10 ∷ (text ++ rule))

  -- What the end of `main` leaves for the script: its totals and the two stores.
  pub record Ended : Type 0 where
    pub text : List ℕ
    pub runtime_us : ℕ
    pub totals : Totals p
    pub latency : Stats hdr.H
    pub requests : Stats hdr.H

  -- from the totals on; the clock is read before and after the threads run, and `empty` is a new
  -- histogram
  unfoldable pub end_of_main :
      ((ℕ → ℕ → ℕ) → List ℕ → List ℕ)
      → (hdr.H → List ℕ)
      → Wanted
      → hdr.H
      → (start now : ℕ) → List (Thread p)
      → Stats hdr.H
      → Option Ended
  unfolding add_threads merge latency_stats print_stats latency_part u_latency_part print_totals
      format_time_us format_metric
  end_of_main qsort spectrum cfg empty start now threads requests =
      let runtime_us = sub64 now start in
      let totals = add_threads p threads new_totals in
      let (latency, u_latency) = merge p printf threads (empty, empty) in
      print_stats p printf qsort (codes "Latency") (latency_stats p printf latency)
        (format_time_us float)
      >>= λ (a, stats).
          print_stats p printf qsort (codes "Req/Sec") requests (format_metric float)
          >>= λ (b, sorted). latency_part spectrum cfg.latency latency >>= λ c.
              u_latency_part spectrum cfg.u_latency u_latency >>= λ d. some (record {
                text =
                    print_stats_header
                    ++ a
                    ++ b
                    ++ c
                    ++ d
                    ++ print_totals p printf runtime_us totals;
                runtime_us = runtime_us;
                totals = totals;
                latency = stats;
                requests = sorted;
              })

  -- the loop of `print_stats_latency`
  unfoldable pub latency_lines : Stats hdr.H → List float.F → Option (List ℕ)
  unfolding print_units stats_percentile format_time_us
  latency_lines s [] = some []
  latency_lines s (q ∷ qs) = stats_percentile hdr s q >>= λ n.
      print_units p printf (float.of_u64 n) (format_time_us float) 10 >>= λ text.
      latency_lines s qs >>= λ rest.
      some (printf.print_float 7 3 q ++ codes "%" ++ text ++ (10 ∷ rest))

  unfoldable pub print_stats_latency : Stats hdr.H → Option (List ℕ)
  unfolding latency_lines
  print_stats_latency s = latency_lines s (percentiles p printf) >>= λ lines.
      some (codes "  Latency Distribution\n" ++ lines)
