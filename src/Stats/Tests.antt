-- ===== src/Stats/Tests.antt =====
-- Runs of the sample store, and its theorems at concrete values.
use wrkx.Prelude.{
  drop, ◌++◌, ◌≤◌, leb, leb→le, le→leb, Bool-cases, inl, inr, ℕ, ◌+◌, ◌/◌, ◌%◌, ◌<◌, ◌≡◌, refl,
  some, none, true, List, [], ◌∷◌, take, ◌==◌, if◌then◌else◌, u64_mod, arith,
}
use wrkx.Stats.Defs.{Stats, u64_max, stats_alloc, record_all, stats_sum}
use wrkx.Stats.Window.{Window, record_all-Window}
use wrkx.Stats.Mean.{sum, stats_sum-latest}
use mathlib.Core.List.{Perm}
use mathlib.Core.List.Perm
use wrkx.Histogram.{Histogram}
use wrkx.Thread.Samples.{whole, listed}
use wrkx.Stats.Summary.{stats_within_stdev, stats_summarize, stats_mean}
use wrkx.Stats.Spread.{Bucket, entries, stats_within_stdev-held}
use wrkx.Stats.Percentile.{HundredPercent}
use wrkx.Stats.Sorted.{All, IsSorted, Qsort, stats_summarize-IsSorted}
use wrkx.Stats.Compare.{stats_compare, is_negative, stats_compare_far}
use wrkx.Stats.Random.{accept_limit, rand64, rand64_lem, draws, draws_uniform}

-- a histogram that counts the values
abbrev count_value : ℕ → ℕ → ℕ
count_value h x = h + 1

-- 5, 9, 2, 7 recorded in this order
abbrev rates : List ℕ
rates = 7 ∷ 2 ∷ 9 ∷ 5 ∷ []

-- In a ring of three the 5 is gone.
ring_of_three :
    record_all count_value (stats_alloc 3) rates
    ≡ some (record {
      samples = 3;
      index = 1;
      limit = 3;
      min = 2;
      max = 9;
      histogram = none;
      values = 7 ∷ 9 ∷ 2 ∷ [];
    })
unfolding record_all stats_alloc
ring_of_three = refl

record_all-Window_example :
    (s : Stats ℕ) × (record_all count_value (stats_alloc 3) rates ≡ some s)
    × Window s rates
    × (s.samples ≡ 3)
record_all-Window_example = record_all-Window count_value 3 rates (omega arith) (omega arith)

stats_sum-latest_example :
    (s : Stats ℕ) × (record_all count_value (stats_alloc 3) rates ≡ some s)
    × (stats_sum s ≡ sum (take 3 rates) % u64_mod)
stats_sum-latest_example = stats_sum-latest count_value 3 rates (omega arith) (omega arith)

stats_compare_far_example : is_negative (stats_compare 3_000_000_000 7) ≡ true
stats_compare_far_example =
    stats_compare_far 3_000_000_000 7 (omega arith) (omega arith) (omega arith)

-- a generator whose first number is the largest of all
abbrev generate : ℕ → ℕ × ℕ
generate g = (if g == 0 then u64_max else 42, g + 1)

limit_of_ten : accept_limit 10 ≡ 18446744073709551610
unfolding accept_limit
limit_of_ten = refl

rand64_lem_example : (rand64 generate 2 0 10 ≡ some (2, 2)) × (2 < 10)
unfolding accept_limit
rand64_lem_example =
    rand64_lem generate 1 2 0 10 42 (omega arith) (omega arith, (refl, omega arith)) (omega arith)

draws_uniform_example : draws 10 3 u64_mod ≡ u64_max / 10
draws_uniform_example = draws_uniform 10 3 (omega arith)

abbrev ring : Stats (List ℕ)
ring = record {
  samples = 3;
  index = 1;
  limit = 3;
  min = 2;
  max = 9;
  histogram = none;
  values = 7 ∷ 9 ∷ 2 ∷ [];
}

rank_of : HundredPercent listed
rank_of = λ n h. omega arith

ring_is : record_all (λ (h : List ℕ) (x : ℕ). h) (stats_alloc 3) rates ≡ some ring
unfolding record_all stats_alloc
ring_is = refl

-- the buckets 10 to 11, 13 to 14 and 17 to 19, and the bounds 12 and 18
abbrev low_bucket : Bucket
low_bucket = record { from = 10; to = 11; count = 4 }

abbrev inside_bucket : Bucket
inside_bucket = record { from = 13; to = 14; count = 5 }

abbrev last_bucket : Bucket
last_bucket = record { from = 17; to = 19; count = 1 }

abbrev counted : Histogram whole
counted = record listed {
  total_count = λ h. 10;
  iterate = λ h. entries 0 (low_bucket ∷ inside_bucket ∷ last_bucket ∷ []);
}

abbrev with_histogram : Stats (List ℕ)
with_histogram = record (stats_alloc 4) { histogram = some [] }

stats_within_stdev-held_example : stats_within_stdev counted with_histogram 15 3 1 ≡ 60
unfolding stats_alloc
stats_within_stdev-held_example =
    stats_within_stdev-held counted with_histogram 15 3 1 [] (low_bucket ∷ []) (inside_bucket ∷ [])
      (last_bucket ∷ []) refl refl refl (omega arith) (omega arith) ((refl, refl), tt)
      ((refl, refl), tt) (refl, refl)

-- a `qsort` that knows the order already
abbrev place : ℕ → List ℕ → List ℕ
place x [] = x ∷ []
place x (y ∷ ys) = let rest = place x ys in if leb x y then x ∷ y ∷ ys else y ∷ rest

abbrev sort : List ℕ → List ℕ
sort [] = []
sort (x ∷ xs) = place x (sort xs)

All-place : (P : ℕ → Type 0) (x : ℕ) (ys : List ℕ) → P x → All P ys → All P (place x ys)
All-place P x [] h k = (h, tt)
All-place P x (y ∷ ys) h (k, ks) = elim (Bool-cases (leb x y)) [
  | inl e ↦ rw e (h, (k, ks))
  | inr e ↦ rw e (k, All-place P x ys h ks)
]

All-le : (x y : ℕ) (ys : List ℕ) → x ≤ y → All (λ z. y ≤ z) ys → All (λ z. x ≤ z) ys
All-le x y [] h k = tt
All-le x y (z ∷ ys) h (k, ks) = (omega arith, All-le x y ys h ks)

place-IsSorted : (x : ℕ) (ys : List ℕ) → IsSorted ys → IsSorted (place x ys)
place-IsSorted x [] h = (tt, tt)
place-IsSorted x (y ∷ ys) (h, hs) = elim (Bool-cases (leb x y)) [
  | inl e ↦ let le = leb→le x y e in rw e ((le, All-le x y ys le h), (h, hs))
  | inr e ↦
      let ge : y ≤ x = ground (arith, le→leb x y) in
      rw e (All-place (λ z. y ≤ z) x ys ge h, place-IsSorted x ys hs)
]

sort-IsSorted : (xs : List ℕ) → IsSorted (sort xs)
sort-IsSorted [] = tt
sort-IsSorted (x ∷ xs) = place-IsSorted x (sort xs) (sort-IsSorted xs)

place-Perm : (x : ℕ) (ys : List ℕ) → Perm (place x ys) (x ∷ ys)
place-Perm x [] = Perm.rfl
place-Perm x (y ∷ ys) = elim (Bool-cases (leb x y)) [
  | inl e ↦ rw e Perm.rfl
  | inr e ↦ rw e (Perm.trans (Perm.cons y (place-Perm x ys)) (Perm.swap x y ys))
]

sort-Perm : (xs : List ℕ) → Perm (sort xs) xs
sort-Perm [] = Perm.nil
sort-Perm (x ∷ xs) = Perm.trans (place-Perm x (sort xs)) (Perm.cons x (sort-Perm xs))

sorting : Qsort (λ cmp xs. sort xs)
sorting = record { sorts = λ cmp xs h. sort-IsSorted xs; permutes = λ cmp xs. sort-Perm xs }

stats_summarize-IsSorted_example :
    let (mean, s') = stats_summarize listed (λ cmp xs. sort xs) ring in
    (sorted : List ℕ) × (s' ≡ record ring { values = sorted ++ drop 3 ring.values })
    × IsSorted sorted
    × Perm sorted (take 3 ring.values)
    × (mean ≡ stats_mean listed s')
stats_summarize-IsSorted_example =
    stats_summarize-IsSorted listed (λ cmp xs. sort xs) 0 ring sorting (omega arith)
