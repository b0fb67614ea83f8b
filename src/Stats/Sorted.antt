-- ===== src/Stats/Sorted.antt =====
-- `stats_summarize` sorts the samples where `stats_compare` orders them (stats.c).
use wrkx.Prelude.{
  ℕ, ◌+◌, ◌≤◌, ◌<◌, ◌≡◌, ◌↔◌, ◌^◌, refl, true, List, [], ◌∷◌, ◌++◌, take, drop, u64_mod, arith,
}
use mathlib.Core.List.{Perm}
use wrkx.Float.{Float}
use wrkx.Histogram.{Histogram}
use wrkx.Stats.Defs.{Stats}
use wrkx.Stats.Compare.{stats_compare, is_negative, stats_compare_near}
use wrkx.Stats.Summary.{stats_summarize, stats_mean}

abbrev pub All : (ℕ → Type 0) → List ℕ → Type 0
All P [] = Unit {0}
All P (x ∷ xs) = P x × All P xs

abbrev pub IsSorted : List ℕ → Type 0
IsSorted [] = Unit {0}
IsSorted (x ∷ xs) = All (λ y. x ≤ y) xs × IsSorted xs

-- the comparison orders two values as numbers
abbrev pub Orders : (ℕ → ℕ → ℕ) → ℕ → ℕ → Type 0
Orders cmp x y = ((is_negative (cmp x y) ≡ true) ↔ (x < y)) × ((cmp x y ≡ 0) ↔ (x ≡ y))

-- What `qsort` promises: given a comparison that orders the values among each other, it returns them
-- sorted, and none lost.
pub record Qsort (qsort : (ℕ → ℕ → ℕ) → List ℕ → List ℕ) : Type 0 where
  pub sorts :
      (cmp : ℕ → ℕ → ℕ) (xs : List ℕ)
      → All (λ x. All (λ y. Orders cmp x y) xs) xs
      → IsSorted (qsort cmp xs)
  pub permutes : (cmp : ℕ → ℕ → ℕ) (xs : List ℕ) → Perm (qsort cmp xs) xs

All-map : (P Q : ℕ → Type 0) (xs : List ℕ) → ((x : ℕ) → P x → Q x) → All P xs → All Q xs
All-map P Q [] f h = tt
All-map P Q (x ∷ xs) f (h, hs) = (f x h, All-map P Q xs f hs)

-- values in a range of 2 ^ 31 are ordered
near :
    (low x y : ℕ)
    → (low ≤ x) × (x < low + 2 ^ 31) × (x < u64_mod)
    → (low ≤ y) × (y < low + 2 ^ 31) × (y < u64_mod)
    → Orders stats_compare x y
near low x y (a, b, c) (d, e, g) = stats_compare_near x y c g (omega arith) (omega arith)

abbrev pub InRange : ℕ → ℕ → Type 0
InRange low x = (low ≤ x) × (x < low + 2 ^ 31) × (x < u64_mod)

module _ {f : Float} (hdr : Histogram f) where
  -- Where all samples lie in a range of 2 ^ 31, `stats_summarize` leaves them sorted, none lost or
  -- changed, and the rest of the store as it was; it returns the mean of the sorted store.
  pub stats_summarize-IsSorted :
      (qsort : (ℕ → ℕ → ℕ) → List ℕ → List ℕ) (low : ℕ) (s : Stats hdr.H)
      → Qsort qsort
      → All (InRange low) (take s.limit s.values)
      → let (mean, s') = stats_summarize hdr qsort s in
        (sorted : List ℕ) × (s' ≡ record s { values = sorted ++ drop s.limit s.values })
        × IsSorted sorted
        × Perm sorted (take s.limit s.values)
        × (mean ≡ stats_mean hdr s')
  unfolding stats_summarize
  stats_summarize-IsSorted qsort low s q h =
      let xs = take s.limit s.values in
      (
        qsort stats_compare xs,
        refl,
        q.sorts stats_compare xs (
            All-map (InRange low) (λ x. All (λ y. Orders stats_compare x y) xs) xs
              (λ x a.
                All-map (InRange low) (λ y. Orders stats_compare x y) xs (λ y b. near low x y a b)
                  h)
              h),
        q.permutes stats_compare xs,
        refl,
      )
