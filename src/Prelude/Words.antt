-- ===== src/Prelude/Words.antt =====
-- Unsigned machine words as native numbers, with their wrap-around written out.
use Prim.Native.Nat.{ℕ, ◌+◌, ◌-◌, ◌*◌, ◌%◌, ◌^◌}
use mathlib.Core.Bool.{Bool, true, false}
use wrkx.Prelude.Tests.{ltb}

abbrev pub u64_mod : ℕ
u64_mod = 2 ^ 64

abbrev pub u32_mod : ℕ
u32_mod = 2 ^ 32

-- `a + b` of uint64_t, also of size_t
abbrev pub add64 : ℕ → ℕ → ℕ
add64 a b = (a + b) % u64_mod

-- `a - b` of uint64_t
abbrev pub sub64 : ℕ → ℕ → ℕ
sub64 a b = (a + u64_mod - b) % u64_mod

-- `a * b` of uint64_t
abbrev pub mul64 : ℕ → ℕ → ℕ
mul64 a b = a * b % u64_mod

-- `a + b` of uint32_t
abbrev pub add32 : ℕ → ℕ → ℕ
add32 a b = (a + b) % u32_mod

-- an int64_t as a number; `negsuc n` is -(n + 1)
pub data ℤ : Type 0 where
  pos negsuc : ℕ → ℤ

-- `i > n` and `i < n`, with an int64_t `n` that is not negative
abbrev pub int_gt : ℤ → ℕ → Bool
int_gt (pos i) n = ltb n i
int_gt (negsuc i) n = false

abbrev pub int_lt : ℤ → ℕ → Bool
int_lt (pos i) n = ltb i n
int_lt (negsuc i) n = true
