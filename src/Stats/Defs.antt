-- ===== src/Stats/Defs.antt =====
-- stats.c: `stats_alloc`, `stats_reset`, `stats_rewind`, `stats_record`, the sum of `stats_mean`;
-- stats.h: `stats`. The histogram is of another library: its type and `hdr_record_value` are
-- parameters.
use wrkx.Prelude.{
  ℕ, zero, suc, ◌-◌, Option, none, some, List, [], ◌∷◌, length, set, replicate, ltb, ◌==◌,
  if◌then◌else◌, add64, u64_mod, ◌>>=◌,
}

-- `stats`; `values` is the member `data`.
pub record Stats (H : Type 0) : Type 0 where
  pub samples : ℕ
  pub index : ℕ
  pub limit : ℕ
  pub min : ℕ
  pub max : ℕ
  pub histogram : Option H
  pub values : List ℕ

-- UINT64_MAX
abbrev pub u64_max : ℕ
u64_max = u64_mod - 1

-- the ring part of `stats_record`; a write outside `data` is a fault
unfoldable pub store : {H : Type 0} → Stats H → ℕ → Option (Stats H)
store s x =
    if ltb s.index (length s.values)
    then some (
        let index = add64 s.index 1 in
        record s {
          values = set s.values s.index x;
          limit = if ltb s.limit s.samples then add64 s.limit 1 else s.limit;
          index = if index == s.samples then 0 else index;
        })
    else none

-- the two comparisons at the start of `stats_record`
unfoldable pub bound : {H : Type 0} → Stats H → ℕ → Stats H
bound s x = record s {
  min = if ltb x s.min then x else s.min;
  max = if ltb s.max x then x else s.max;
}

-- `if (stats->histogram != NULL) { ...; return; }`, and the ring
unfoldable pub record_to : {H : Type 0} → (H → ℕ → H) → Option H → Stats H → ℕ → Option (Stats H)
unfolding store
record_to hdr_record_value (some h) s x =
    some (record s { histogram = some (hdr_record_value h x) })
record_to hdr_record_value none s x = store s x

unfoldable pub stats_alloc : {H : Type 0} → ℕ → Stats H
stats_alloc samples = record {
  samples = samples;
  index = 0;
  limit = 0;
  min = u64_max;
  max = 0;
  histogram = none;
  values = replicate samples 0;
}

unfoldable pub stats_reset : {H : Type 0} → Stats H → Stats H
stats_reset s = record s { limit = 0; index = 0; min = u64_max; max = 0 }

unfoldable pub stats_rewind : {H : Type 0} → Stats H → Stats H
stats_rewind s = record s { limit = 0; index = 0 }

unfoldable pub stats_record : {H : Type 0} → (H → ℕ → H) → Stats H → ℕ → Option (Stats H)
unfolding bound record_to
stats_record hdr_record_value s x = record_to hdr_record_value s.histogram (bound s x) x

-- several calls of `stats_record`, the last value first
unfoldable pub record_all : {H : Type 0} → (H → ℕ → H) → Stats H → List ℕ → Option (Stats H)
unfolding stats_record
record_all hdr_record_value s [] = some s
record_all hdr_record_value s (x ∷ xs) =
    record_all hdr_record_value s xs >>= λ s'. stats_record hdr_record_value s' x

-- `sum += stats->data[i]` of `stats_mean`, for `i` below `n`
unfoldable pub sum_loop : ℕ → List ℕ → ℕ → ℕ
sum_loop zero values sum = sum
sum_loop (suc n) [] sum = sum
sum_loop (suc n) (x ∷ values) sum = sum_loop n values (add64 sum x)

unfoldable pub stats_sum : {H : Type 0} → Stats H → ℕ
unfolding sum_loop
stats_sum s = sum_loop s.limit s.values 0
