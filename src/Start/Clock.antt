-- ===== src/Start/Clock.antt =====
-- wrk.c: `time_us`, over the two members that `gettimeofday` sets.
use wrkx.Prelude.{ℕ, ◌+◌, ◌*◌, ◌≤◌, ◌<◌, ◌≡◌, ◌⊎◌, inl, inr, add64, mul64, u64_mod, arith}

unfoldable pub time_us : ℕ → ℕ → ℕ
time_us tv_sec tv_usec = add64 (mul64 tv_sec 1_000_000) tv_usec

-- A later second, or the same one and no less microseconds of it, gives no less: with a system clock
-- that does not go back, `time_us` does not, as long as it fits.
pub time_us-le :
    (sec usec sec' usec' : ℕ)
    → usec < 1_000_000
    → usec' < 1_000_000
    → sec' * 1_000_000 + usec' < u64_mod
    → (sec < sec') ⊎ ((sec ≡ sec') × (usec ≤ usec'))
    → time_us sec usec ≤ time_us sec' usec'
unfolding time_us
time_us-le sec usec sec' usec' h k l (inl lt) = omega arith
time_us-le sec usec sec' usec' h k l (inr (e, le)) = omega arith
