-- ===== src/Stats/Spread.antt =====
-- The counts of `stats_within_stdev` over a histogram (stats.c).
use wrkx.Prelude.{
  ℕ, ◌+◌, ◌^◌, ◌≤◌, ◌<◌, ◌≡◌, ◌≢◌, some, ◌==◌, sub64, refl, ◌∙◌, true, false, List, [], ◌∷◌, ◌++◌,
  arith, ℤ, int_gt, int_lt,
}
use wrkx.Float.{Float}
use wrkx.Histogram.{Histogram, Entry}
use wrkx.Stats.Defs.{Stats}
use wrkx.Stats.Summary.{within_loop, or_else, counts_within, within_of, stats_within_stdev}

-- a bucket of a histogram: its first and its last value, and how many values it holds
pub record Bucket : Type 0 where
  pub from : ℕ
  pub to : ℕ
  pub count : ℕ

-- how many values the buckets hold
abbrev pub held : List Bucket → ℕ
held [] = 0
held (b ∷ bs) = b.count + held bs

-- the iteration over the buckets, after `seen` values
abbrev pub entries : ℕ → List Bucket → List Entry
entries seen [] = []
entries seen (b ∷ bs) =
    record {
      value_from_index = b.from;
      highest_equivalent_value = b.to;
      count_to_index = seen + b.count;
    }
    ∷ entries (seen + b.count) bs

-- the buckets that begin below the lower bound, and end at or below the upper one
abbrev pub AllBelow : ℤ → ℤ → List Bucket → Type 0
AllBelow lower upper [] = Unit {0}
AllBelow lower upper (b ∷ bs) =
    ((int_gt lower b.from ≡ true) × (int_lt upper b.to ≡ false)) × AllBelow lower upper bs

-- those that begin at the lower bound or above, and end at or below the upper one
abbrev pub AllInside : ℤ → ℤ → List Bucket → Type 0
AllInside lower upper [] = Unit {0}
AllInside lower upper (b ∷ bs) =
    ((int_gt lower b.from ≡ false) × (int_lt upper b.to ≡ false)) × AllInside lower upper bs

-- the others: the first of them begins at the lower bound or above, and ends above the upper one
abbrev pub Beyond : ℤ → ℤ → List Bucket → Type 0
Beyond lower upper [] = Unit {0}
Beyond lower upper (b ∷ bs) = (int_gt lower b.from ≡ false) × (int_lt upper b.to ≡ true)

abbrev pub first : List Bucket → List Bucket
first [] = []
first (b ∷ bs) = b ∷ []

module _ {f : Float} (hdr : Histogram f) where
  -- what a round of the loop comes to
  Comes : ℤ → ℤ → List Entry → (lower_count total below up_to : ℕ) → Type 0
  Comes lower upper es lower_count total below up_to =
      ((within_loop hdr lower upper es lower_count).0 ≡ below)
      × (or_else hdr (within_loop hdr lower upper es lower_count).1 total ≡ up_to)

  inside_lem :
      (lower upper : ℤ) (inside rest : List Bucket) (seen low total : ℕ)
      → total ≡ seen + held (inside ++ rest)
      → AllInside lower upper inside
      → Beyond lower upper rest
      → Comes lower upper
          (entries seen (inside ++ rest))
          low
          total
          low
          (seen + held (inside ++ first rest))
  unfolding within_loop Comes
  inside_lem lower upper [] [] seen low total t h k = (refl, t)
  inside_lem lower upper [] (b ∷ rest) seen low total t h (k, up) = rw (k, up) (refl, omega arith)
  inside_lem lower upper (b ∷ inside) rest seen low total t ((k, up), h) g =
      let (x, y) =
        inside_lem lower upper inside rest (seen + b.count) low total (omega arith) h g in
      rw (k, up) (x, y ∙ omega arith)

  below_lem :
      (lower upper : ℤ) (below inside rest : List Bucket) (seen total : ℕ)
      → total ≡ seen + held (below ++ (inside ++ rest))
      → AllBelow lower upper below
      → AllInside lower upper inside
      → Beyond lower upper rest
      → Comes lower upper
          (entries seen (below ++ (inside ++ rest)))
          seen
          total
          (seen + held below)
          (seen + held (below ++ (inside ++ first rest)))
  unfolding within_loop Comes
  below_lem lower upper [] inside rest seen total t d h g =
      let (x, y) = inside_lem lower upper inside rest seen seen total t h g in (x ∙ omega arith, y)
  below_lem lower upper (b ∷ below) inside rest seen total t ((k, up), d) h g =
      let (x, y) =
        below_lem lower upper below inside rest (seen + b.count) total (omega arith) d h g in
      rw (k, up) (x ∙ omega arith, y ∙ omega arith)

  -- The values below are those of the buckets below; the values up to the upper bound are those of
  -- the buckets up to it and of the first one that ends above it.
  counts_within-held :
      (lower upper : ℤ) (h : hdr.H) (below inside rest : List Bucket)
      → hdr.iterate h ≡ entries 0 (below ++ (inside ++ rest))
      → hdr.total_count h ≡ held (below ++ (inside ++ rest))
      → AllBelow lower upper below
      → AllInside lower upper inside
      → Beyond lower upper rest
      → let (low, up_to) = counts_within hdr lower upper h in
        (low ≡ held below) × (up_to ≡ held (below ++ (inside ++ first rest)))
  unfolding counts_within Comes
  counts_within-held lower upper h below inside rest e t d i g =
      let (x, y) =
        below_lem lower upper below inside rest 0 (hdr.total_count h) (omega arith) d i g in
      rw (e, counts_within) (x ∙ omega arith, y ∙ omega arith)

  held-append : (xs ys : List Bucket) → held (xs ++ ys) ≡ held xs + held ys
  held-append [] ys = omega arith
  held-append (x ∷ xs) ys = omega (arith, held-append xs ys)

  held-first : (xs : List Bucket) → held (first xs) ≤ held xs
  held-first [] = omega arith
  held-first (x ∷ xs) = omega arith

  -- `stats_within_stdev` over a histogram whose iteration lists buckets, and the values seen so far:
  -- it is 100 times the number of values in the buckets between the bounds, and in the first bucket
  -- that ends above the upper one if there is one, over the number of all values. The bounds are the
  -- mean less and plus `n` deviations, as an int64_t each; the first bucket that ends above the upper
  -- bound begins at the lower bound or above; and there are values, fewer than 2 ^ 63.
  pub stats_within_stdev-held :
      (s : Stats hdr.H) (mean stdev : f.F) (n : ℕ) (h : hdr.H) (below inside rest : List Bucket)
      → s.histogram ≡ some h
      → hdr.iterate h ≡ entries 0 (below ++ (inside ++ rest))
      → hdr.total_count h ≡ held (below ++ (inside ++ rest))
      → hdr.total_count h ≢ 0
      → hdr.total_count h < 2 ^ 63
      → let lower = f.to_i64 (f.sub mean (f.mul stdev (f.of_u64 n))) in
        let upper = f.to_i64 (f.add mean (f.mul stdev (f.of_u64 n))) in
        AllBelow lower upper below
        → AllInside lower upper inside
        → Beyond lower upper rest
        → stats_within_stdev hdr s mean stdev n
          ≡ f.div
              (f.mul (f.lit 100 1) (f.of_i64 (held (inside ++ first rest))))
              (f.of_i64 (hdr.total_count h))
  unfolding stats_within_stdev within_of
  stats_within_stdev-held s mean stdev n h below inside rest e i t ne small d a g =
      let lower = f.to_i64 (f.sub mean (f.mul stdev (f.of_u64 n))) in
      let upper = f.to_i64 (f.add mean (f.mul stdev (f.of_u64 n))) in
      let (x, y) = counts_within-held lower upper h below inside rest i t d a g in
      let z : (hdr.total_count h == 0) ≡ false = ground arith in
      let count : sub64 (held (below ++ (inside ++ first rest))) (held below)
          ≡ held (inside ++ first rest) =
        ground (
          arith,
          held-append below (inside ++ first rest),
          held-append inside (first rest),
          held-append below (inside ++ rest),
          held-append inside rest,
          held-first rest,
        ) in
      rw (e, stats_within_stdev, z, x, y, count) refl
