-- ===== src/Stats/Percentile.antt =====
-- `stats_percentile` at 100 percent (stats.c).
use wrkx.Prelude.{
  ℕ, zero, suc, ◌+◌, ◌≤◌, ◌<◌, ◌≡◌, ◌^◌, refl, ap, ◌∙◌, none, some, List, [], ◌∷◌, length,
  get_elem?, sub64, arith, some_value, sym, subst,
}
use wrkx.Float.{Float}
use wrkx.Histogram.{Histogram}
use wrkx.Stats.Defs.{Stats, stats_alloc, record_all}
use wrkx.Stats.Window.{record_all-Window}
use wrkx.Stats.Summary.{rank, stats_percentile, percentile_of}

pub get_elem?_past {ℓ} : {A : Type ℓ} (xs : List A) (i : ℕ) → length xs ≤ i → get_elem? xs i ≡ none
get_elem?_past [] i h = refl
get_elem?_past (x ∷ xs) zero h = absurd (omega arith)
get_elem?_past (x ∷ xs) (suc i) h = get_elem?_past xs i (omega arith)

module _ {f : Float} (hdr : Histogram f) where
  -- what 100 percent of a count is, and half a unit more, in floating point
  abbrev pub HundredPercent : Type 0
  HundredPercent = (n : ℕ) → n ≤ 2 ^ 53 → rank hdr (f.lit 100 1) n ≡ n + 1

  hundred_past :
      (s : Stats hdr.H) (n : ℕ)
      → s.histogram ≡ none
      → HundredPercent
      → s.limit ≤ 2 ^ 53
      → n ≤ s.limit
      → length s.values ≡ n
      → stats_percentile hdr s (f.lit 100 1) ≡ none
  unfolding stats_percentile percentile_of
  hundred_past s n p hundred b h e =
      let r : sub64 (rank hdr (f.lit 100 1) s.limit) 1 ≡ s.limit =
        omega (arith, hundred s.limit b) in
      rw p (ap (get_elem? s.values) r ∙ get_elem?_past s.values s.limit (omega arith))

  -- `stats_percentile` of 100 reads the place behind the last sample: in a store of `n` places that
  -- took `n` values or more it reads outside `data`. Half a unit above a whole number is rounded up,
  -- and the store has at most 2 ^ 53 places.
  pub stats_percentile-past :
      (hdr_record_value : hdr.H → ℕ → hdr.H) (n : ℕ) (xs : List ℕ) (s : Stats hdr.H)
      → HundredPercent
      → 0 < n
      → n ≤ 2 ^ 53
      → n ≤ length xs
      → record_all hdr_record_value (stats_alloc n) xs ≡ some s
      → stats_percentile hdr s (f.lit 100 1) ≡ none
  unfolding stats_percentile
  stats_percentile-past hdr_record_value n xs s hundred a b c e =
      let (r, g, w, z) = record_all-Window hdr_record_value n xs a (omega arith) in
      let same : r ≡ s = some_value (sym g ∙ e) in
      subst (λ (x : Stats hdr.H). stats_percentile hdr x (f.lit 100 1) ≡ none) same
        (hundred_past r (length r.values) w.plain hundred (omega (arith, w.sized, w.limit_is))
          (omega (arith, w.sized, w.limit_is)) refl)
