-- ===== src/Histogram.antt =====
-- The histogram of another library, as wrk.c and stats.c use it: a parameter. Values are the bits of
-- an int64_t.
use wrkx.Prelude.{ℕ, List}
use wrkx.Float.{Float}

-- a step of `hdr_iter_next`: the members of the iterator that stats.c reads
pub record Entry : Type 0 where
  pub value_from_index : ℕ
  pub highest_equivalent_value : ℕ
  pub count_to_index : ℕ

pub record Histogram (f : Float) : Type 1 where
  pub H : Type 0
  pub record_value : H → ℕ → H
  pub reset : H → H
  pub mean : H → f.F
  pub stddev : H → f.F
  -- `hdr_value_at_percentile`
  pub value_at_percentile : H → f.F → ℕ
  pub total_count : H → ℕ
  -- `hdr_iter_init` and the steps that follow
  pub iterate : H → List Entry
  -- `hdr_add`, `hdr_min`, `hdr_max`
  pub add : H → H → H
  pub min : H → ℕ
  pub max : H → ℕ
