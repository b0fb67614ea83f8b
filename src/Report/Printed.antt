-- ===== src/Report/Printed.antt =====
-- The report is printed: no message is read outside (wrk.c).
use wrkx.Prelude.{
  ℕ, ◌-◌, ◌≤◌, ◌≡◌, refl, Bool, true, false, Option, some, List, [], ◌∷◌, ◌++◌, length, get_elem?,
  get_elem?_in_range, ◌>>=◌, leb-false, length-append, arith, codes,
}
use wrkx.Float.{Float}
use wrkx.Stats.Defs.{Stats}
use wrkx.Stats.Summary.{stats_summarize, stats_stdev}
use wrkx.Thread.State.{Platform, Thread}
use wrkx.Units.Defs.{format_units, format_time_us, format_metric}
use wrkx.Report.Defs.{
  Printf, print_message, message_of, print_units, print_stats, print_percentiles, print_hdr_latency,
  percentiles, merge, latency_stats,
}
use wrkx.Report.End.{Wanted, latency_part, u_latency_part, end_of_main}

-- a step that has a result
abbrev pub Succeeds {ℓ} : {A : Type ℓ} → Option A → Type ℓ
Succeeds {A = A} m = (a : A) × (m ≡ some a)

Succeeds-then {ℓ κ} :
    {A : Type ℓ} {B : Type κ} (m : Option A) (f : A → Option B)
    → Succeeds m
    → ((a : A) → Succeeds (f a))
    → Succeeds (m >>= f)
Succeeds-then m f (a, e) k = rw e (k a)

print_message-Succeeds :
    (msg : List ℕ) (width : ℕ) → 2 ≤ length msg → Succeeds (print_message msg width)
unfolding print_message
print_message-Succeeds msg width h = rw (leb-false (length msg) 1 h) (
    Succeeds-then (get_elem? msg (length msg - 1)) _
      (get_elem?_in_range msg (length msg - 1) (omega arith))
      (λ last.
        Succeeds-then (get_elem? msg (length msg - 2)) _
          (get_elem?_in_range msg (length msg - 2) (omega arith)) (λ before. (_, refl))))

-- A number with a place behind the point has at least two characters.
abbrev pub Wide : (f : Float) → Printf f → Type 0
Wide f printf = (places : ℕ) (x : f.F) → 1 ≤ places → 2 ≤ length (printf.print_float 0 places x)

module _ (p : Platform) (printf : Printf p.float) (wide : Wide p.float printf) where
  open p use {float, hdr}

  places_time_us : (x : float.F) → (format_time_us float x).1 ≡ 2
  unfolding format_time_us format_units
  places_time_us x = ground arith

  places_metric : (x : float.F) → (format_metric float x).1 ≡ 2
  unfolding format_metric format_units
  places_metric x = refl

  print_units-Succeeds :
      (x : float.F) (fmt : float.F → float.F × ℕ × List ℕ) (width : ℕ)
      → ((y : float.F) → (fmt y).1 ≡ 2)
      → Succeeds (print_units p printf x fmt width)
  unfolding print_units message_of
  print_units-Succeeds x fmt width h =
      let (amt, places, unit) = fmt x in
      print_message-Succeeds (printf.print_float 0 places amt ++ unit) width (
        omega (
          arith,
          length-append (printf.print_float 0 places amt) unit,
          wide places amt (omega (arith, h x)),
        ))

  print_stats-Succeeds :
      (qsort : (ℕ → ℕ → ℕ) → List ℕ → List ℕ) (name : List ℕ) (stats : Stats hdr.H)
      (fmt : float.F → float.F × ℕ × List ℕ)
      → ((y : float.F) → (fmt y).1 ≡ 2)
      → Succeeds (print_stats p printf qsort name stats fmt)
  unfolding print_stats
  print_stats-Succeeds qsort name stats fmt h =
      let (mean, sorted) = stats_summarize hdr qsort stats in
      Succeeds-then _ _ (print_units-Succeeds mean fmt 8 h) (λ a.
        Succeeds-then _ _ (print_units-Succeeds (stats_stdev hdr sorted mean) fmt 10 h) (λ b.
          Succeeds-then _ _ (print_units-Succeeds (float.of_u64 stats.max) fmt 9 h)
            (λ c. (_, refl))))

  print_percentiles-Succeeds :
      (h : hdr.H) (qs : List float.F) → Succeeds (print_percentiles p printf h qs)
  unfolding print_percentiles
  print_percentiles-Succeeds h [] = (_, refl)
  print_percentiles-Succeeds h (q ∷ qs) =
      Succeeds-then _ _
        (print_units-Succeeds (float.of_i64 (hdr.value_at_percentile h q)) (format_time_us float) 10
          places_time_us)
        (λ n. Succeeds-then _ _ (print_percentiles-Succeeds h qs) (λ rest. (_, refl)))

  print_hdr_latency-Succeeds :
      (spectrum : hdr.H → List ℕ) (h : hdr.H) (description : List ℕ)
      → Succeeds (print_hdr_latency p printf spectrum h description)
  unfolding print_hdr_latency
  print_hdr_latency-Succeeds spectrum h description =
      Succeeds-then _ _ (print_percentiles-Succeeds h (percentiles p printf)) (λ lines. (_, refl))

  latency_part-Succeeds :
      (spectrum : hdr.H → List ℕ) (wanted : Bool) (h : hdr.H)
      → Succeeds (latency_part p printf spectrum wanted h)
  unfolding latency_part
  latency_part-Succeeds spectrum false h = (_, refl)
  latency_part-Succeeds spectrum true h =
      Succeeds-then _ _ (print_hdr_latency-Succeeds spectrum h (codes "Recorded Latency"))
        (λ text. (_, refl))

  u_latency_part-Succeeds :
      (spectrum : hdr.H → List ℕ) (wanted : Bool) (h : hdr.H)
      → Succeeds (u_latency_part p printf spectrum wanted h)
  unfolding u_latency_part
  u_latency_part-Succeeds spectrum false h = (_, refl)
  u_latency_part-Succeeds spectrum true h =
      Succeeds-then _ _
        (print_hdr_latency-Succeeds spectrum h
          (codes "Uncorrected Latency (measured without taking delayed starts into account)"))
        (λ text. (_, refl))

  pub end_of_main-Succeeds :
      (qsort : (ℕ → ℕ → ℕ) → List ℕ → List ℕ) (spectrum : hdr.H → List ℕ) (cfg : Wanted)
      (empty : hdr.H) (start now : ℕ) (threads : List (Thread p)) (requests : Stats hdr.H)
      → Succeeds (end_of_main p printf qsort spectrum cfg empty start now threads requests)
  unfolding end_of_main
  end_of_main-Succeeds qsort spectrum cfg empty start now threads requests =
      let (latency, u_latency) = merge p printf threads (empty, empty) in
      Succeeds-then _ _
        (print_stats-Succeeds qsort (codes "Latency") (latency_stats p printf latency)
          (format_time_us float) places_time_us)
        (λ a.
          Succeeds-then _ _
            (print_stats-Succeeds qsort (codes "Req/Sec") requests (format_metric float)
              places_metric)
            (λ b. Succeeds-then _ _ (latency_part-Succeeds spectrum cfg.latency latency) (λ c.
              Succeeds-then _ _ (u_latency_part-Succeeds spectrum cfg.u_latency u_latency)
                (λ d. (_, refl)))))
