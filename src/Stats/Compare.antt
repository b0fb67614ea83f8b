-- ===== src/Stats/Compare.antt =====
-- stats.c: `stats_compare`, by which `stats_summarize` sorts. It returns the 64-bit difference
-- as an `int`: the low 32 bits, read as a signed number.
use wrkx.Prelude.{
  ℕ, ◌+◌, ◌%◌, ◌^◌, ◌≤◌, ◌<◌, ◌≡◌, ◌↔◌, Bool, true, leb, sub64, u64_mod, u32_mod, arith,
}

-- the bits of the result
unfoldable pub stats_compare : ℕ → ℕ → ℕ
stats_compare x y = sub64 x y % u32_mod

-- an `int` with these bits is below 0
abbrev pub is_negative : ℕ → Bool
is_negative w = leb (2 ^ 31) w

-- Two samples less than 2 ^ 31 apart are ordered rightly: the result is negative exactly if the
-- first is smaller, and 0 exactly if they are equal.
pub stats_compare_near :
    (x y : ℕ)
    → x < u64_mod
    → y < u64_mod
    → x < y + 2 ^ 31
    → y < x + 2 ^ 31
    → ((is_negative (stats_compare x y) ≡ true) ↔ (x < y)) × ((stats_compare x y ≡ 0) ↔ (x ≡ y))
unfolding stats_compare
stats_compare_near x y hx hy h k = ground arith

-- A sample that is larger by 2 ^ 31 or more, but by less than 2 ^ 32, is taken to be the smaller.
pub stats_compare_far :
    (x y : ℕ)
    → x < u64_mod
    → y + 2 ^ 31 ≤ x
    → x < y + 2 ^ 32
    → is_negative (stats_compare x y) ≡ true
unfolding stats_compare
stats_compare_far x y hx h k = ground arith
