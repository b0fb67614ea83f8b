-- ===== src/Float.antt =====
-- The floating-point arithmetic of the platform (C's double and long double), which the models of
-- the pacing and of the timers take as a parameter, and what they rely on.
use wrkx.Prelude.{ℕ, ◌+◌, ◌/◌, ◌^◌, ◌≤◌, ◌<◌, ◌≡◌, ◌-◌, Bool, true, false, ℤ, ltb, if◌then◌else◌}

pub record Float : Type 1 where
  pub F : Type 0
  -- conversions from and to uint64_t; `to_u64` drops the fraction
  pub of_u64 : ℕ → F
  pub to_u64 : F → ℕ
  pub add : F → F → F
  pub sub : F → F → F
  pub mul : F → F → F
  pub div : F → F → F
  -- `powl(x, 2)` and `sqrtl`
  pub square : F → F
  pub sqrt : F → F
  -- conversions from the bits of an int64_t and to an int64_t, which drops the fraction
  pub of_i64 : ℕ → F
  pub to_i64 : F → ℤ
  -- `round`, to the nearest integer, halves away from zero
  pub round : F → ℕ
  -- `(int) round(x)`, by its 32 bits; the language leaves open what it is outside an int's range
  pub round_to_int : F → ℕ
  -- `x > y` and `x == 0`
  pub gt : F → F → Bool
  pub is_zero : F → Bool
  -- the literal n / d
  pub lit : ℕ → ℕ → F

-- `round((usec / 1000.0L) + 0.5)` as an int, by which wrk.c turns a wait into milliseconds
abbrev pub round_to_ms : (f : Float) → ℕ → ℕ
round_to_ms f usec = f.round_to_int (f.add (f.div (f.of_u64 usec) (f.lit 1000 1)) (f.lit 1 2))

-- an int, by its 32 bits, as the long long that `aeCreateTimeEvent` takes, by its 64 bits
abbrev pub to_long_long : ℕ → ℕ
to_long_long n = if ltb n (2 ^ 31) then n else n + (2 ^ 64 - 2 ^ 32)

-- What the pacing and the timers rely on, for the rates that are positive numbers; none is a NaN.
pub record Laws (f : Float) : Type 1 where
  pub Le : f.F → f.F → Type 0
  pub Positive : f.F → Type 0
  -- integers of up to 53 bits are represented exactly
  pub exact : (n : ℕ) → n ≤ 2 ^ 53 → f.to_u64 (f.of_u64 n) ≡ n
  -- 0 / y is 0, and n + 0 is n
  pub div_zero : (y : f.F) → Positive y → f.div (f.of_u64 0) y ≡ f.of_u64 0
  pub add_zero : (n : ℕ) → f.add (f.of_u64 n) (f.of_u64 0) ≡ f.of_u64 n
  -- rounding keeps the order
  pub of_mono : (m n : ℕ) → m ≤ n → Le (f.of_u64 m) (f.of_u64 n)
  pub to_mono : (x y : f.F) → Le x y → f.to_u64 x ≤ f.to_u64 y
  pub add_mono : (a x y : f.F) → Le x y → Le (f.add a x) (f.add a y)
  pub div_mono : (x y z : f.F) → Positive z → Le x y → Le (f.div x z) (f.div y z)
  pub gt_le : (x y : f.F) → f.gt x y ≡ true → Le y x
  pub lit_exact : (n : ℕ) → n ≤ 2 ^ 53 → f.to_u64 (f.lit n 1) ≡ n
  pub gt_false : (x y : f.F) → f.gt x y ≡ false → Le x y
  -- a wait becomes the next full millisecond, if an int holds that
  pub round_up : (usec : ℕ) → usec / 1000 + 1 < 2 ^ 31 → round_to_ms f usec ≡ usec / 1000 + 1
