-- ===== src/Stats/Summary.antt =====
-- stats.c: `stats_mean`, `stats_stdev`, `stats_within_stdev`, `stats_percentile`, `stats_summarize`.
-- `qsort` of libc is a parameter, as the histogram is.
use wrkx.Prelude.{
  ℕ, ◌^◌, not, ◌&&◌, Option, none, some, List, [], ◌∷◌, ◌++◌, take, drop, get_elem?, ltb, leb, ◌==◌,
  if◌then◌else◌, add64, sub64, ℤ, int_gt, int_lt,
}
use wrkx.Float.{Float}
use wrkx.Histogram.{Histogram, Entry}
use wrkx.Stats.Defs.{Stats, stats_sum}
use wrkx.Stats.Compare.{stats_compare}

module _ {f : Float} (hdr : Histogram f) where
  open f use {F}
  open hdr use {H}

  unfoldable pub mean_of : Option H → Stats H → F
  mean_of (some h) s = hdr.mean h
  mean_of none s =
      if s.limit == 0 then f.lit 0 1 else f.div (f.of_u64 (stats_sum s)) (f.of_u64 s.limit)

  unfoldable pub stats_mean : Stats H → F
  unfolding mean_of
  stats_mean s = mean_of s.histogram s

  -- `qsort(stats->data, stats->limit, ...)`, and the mean
  unfoldable pub stats_summarize : ((ℕ → ℕ → ℕ) → List ℕ → List ℕ) → Stats H → F × Stats H
  unfolding stats_mean
  stats_summarize qsort s =
      let sorted = record s {
        values = qsort stats_compare (take s.limit s.values) ++ drop s.limit s.values;
      } in
      (stats_mean sorted, sorted)

  -- `sum += powl(stats->data[i] - mean, 2)` for the values
  unfoldable pub square_loop : F → List ℕ → F → F
  square_loop mean [] sum = sum
  square_loop mean (x ∷ values) sum =
      square_loop mean values (f.add sum (f.square (f.sub (f.of_u64 x) mean)))

  unfoldable pub stdev_of : Option H → Stats H → F → F
  unfolding square_loop
  stdev_of (some h) s mean = hdr.stddev h
  stdev_of none s mean =
      if ltb s.limit 2
      then f.lit 0 1
      else f.sqrt (
          f.div (square_loop mean (take s.limit s.values) (f.lit 0 1)) (f.of_u64 (sub64 s.limit 1)))

  unfoldable pub stats_stdev : Stats H → F → F
  unfolding stdev_of
  stats_stdev s mean = stdev_of s.histogram s mean

  -- the loop over the histogram: the count below, and the count up to the upper value if it is found
  unfoldable pub within_loop : ℤ → ℤ → List Entry → ℕ → ℕ × Option ℕ
  within_loop lower upper [] lower_count = (lower_count, none)
  within_loop lower upper (e ∷ es) lower_count =
      let lower_count' =
        if int_gt lower e.value_from_index then e.count_to_index else lower_count in
      let rest = within_loop lower upper es lower_count' in
      if int_lt upper e.highest_equivalent_value
      then (lower_count', some e.count_to_index)
      else rest

  abbrev pub or_else : Option ℕ → ℕ → ℕ
  or_else none n = n
  or_else (some m) n = m

  -- `lower_count` and `upper_count` at the end
  unfoldable pub counts_within : ℤ → ℤ → H → ℕ × ℕ
  unfolding within_loop
  counts_within lower upper h =
      let (lower_count, found) = within_loop lower upper (hdr.iterate h) 0 in
      (lower_count, or_else found (hdr.total_count h))

  -- `if (x >= lower && x <= upper) sum++` for the values
  unfoldable pub inside_loop : F → F → List ℕ → ℕ → ℕ
  inside_loop lower upper [] sum = sum
  inside_loop lower upper (x ∷ values) sum =
      let y = f.of_u64 x in
      inside_loop lower upper values
        (if not (f.gt lower y) && not (f.gt y upper) then add64 sum 1 else sum)

  unfoldable pub within_of : Option H → Stats H → F → F → F
  unfolding counts_within inside_loop
  within_of (some h) s lower upper =
      if hdr.total_count h == 0
      then f.lit 0 1
      else (let (lower_count, upper_count) = counts_within (f.to_i64 lower) (f.to_i64 upper) h in
          f.div (f.mul (f.lit 100 1) (f.of_i64 (sub64 upper_count lower_count)))
            (f.of_i64 (hdr.total_count h)))
  within_of none s lower upper =
      f.mul
        (f.div (f.of_u64 (inside_loop lower upper (take s.limit s.values) 0)) (f.of_u64 s.limit))
        (f.lit 100 1)

  unfoldable pub stats_within_stdev : Stats H → F → F → ℕ → F
  unfolding within_of
  stats_within_stdev s mean stdev n =
      within_of s.histogram s (f.sub mean (f.mul stdev (f.of_u64 n)))
        (f.add mean (f.mul stdev (f.of_u64 n)))

  -- the rank of `stats_percentile`
  abbrev pub rank : F → ℕ → ℕ
  rank p limit = f.round (f.add (f.mul (f.div p (f.lit 100 1)) (f.of_u64 limit)) (f.lit 1 2))

  -- `none` is a read outside `data`
  unfoldable pub percentile_of : Option H → Stats H → F → Option ℕ
  percentile_of (some h) s p =
      let value = hdr.value_at_percentile h p in some (if leb (2 ^ 63) value then 0 else value)
  percentile_of none s p = get_elem? s.values (sub64 (rank p s.limit) 1)

  unfoldable pub stats_percentile : Stats H → F → Option ℕ
  unfolding percentile_of
  stats_percentile s p = percentile_of s.histogram s p
