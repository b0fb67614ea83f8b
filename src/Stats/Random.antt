-- ===== src/Stats/Random.antt =====
-- stats.c: `rand64`. The generator is of another library: its state and
-- `tinymt64_generate_uint64` are parameters.
use wrkx.Prelude.{
  ℕ, zero, suc, ◌+◌, ◌-◌, ◌*◌, ◌/◌, ◌%◌, ◌≤◌, ◌<◌, ◌≡◌, ◌≢◌, ◌∙◌, ap, Option, none, some, false,
  ltb, ltb-false, lt→ltb, ◌==◌, if◌then◌else◌, u64_mod, arith,
}
use wrkx.Stats.Defs.{u64_max}

-- `max -= max % n`
unfoldable pub accept_limit : ℕ → ℕ
accept_limit n = u64_max - u64_max % n

-- One round of the loop: `none` if the number is drawn again.
unfoldable pub accept : ℕ → ℕ → Option ℕ
unfolding accept_limit
accept n x = if ltb x (accept_limit n) then some (x % n) else none

nonzero : (n : ℕ) → n ≢ 0 → (n == 0) ≡ false
nonzero n h = ground arith

accept-yes : (n x : ℕ) → x < accept_limit n → accept n x ≡ some (x % n)
unfolding accept
accept-yes n x h = rw (lt→ltb x (accept_limit n) h)

accept-no : (n x : ℕ) → accept_limit n ≤ x → accept n x ≡ none
unfolding accept
accept-no n x h = rw (ltb-false x (accept_limit n) h)

module _ {G : Type 0} (generate : G → ℕ × G) where
  unfoldable pub rand64_from : ℕ → Option ℕ → G → ℕ → Option (ℕ × G)
  rand64_from fuel (some r) g n = some (r, g)
  rand64_from zero none g n = none
  rand64_from (suc fuel) none g n =
      let drawn = generate g in rand64_from fuel (accept n drawn.0) drawn.1 n

  -- At `n` = 0 the remainder is not defined: a fault. `none` also if the fuel runs out.
  unfoldable pub rand64 : ℕ → G → ℕ → Option (ℕ × G)
  unfolding rand64_from
  rand64 fuel g n = if n == 0 then none else rand64_from fuel none g n

  -- the state after `k` draws
  abbrev pub after : ℕ → G → G
  after zero g = g
  after (suc k) g = after k (generate g).1

  -- The first `k` draws are refused, and the next one is `x`, which is accepted.
  abbrev pub FirstAccepted : ℕ → G → ℕ → ℕ → Type 0
  FirstAccepted zero g n x = ((generate g).0 ≡ x) × (x < accept_limit n)
  FirstAccepted (suc k) g n x =
      (accept_limit n ≤ (generate g).0) × FirstAccepted k (generate g).1 n x

  rand64_from_lem :
      (k fuel : ℕ) (g : G) (n x : ℕ)
      → FirstAccepted k g n x
      → k < fuel
      → rand64_from fuel none g n ≡ some (x % n, after (suc k) g)
  unfolding rand64_from
  rand64_from_lem k zero g n x a h = absurd (omega arith)
  rand64_from_lem zero (suc fuel) g n x (e, l) h = rw (rand64_from, e, accept-yes n x l)
  rand64_from_lem (suc k) (suc fuel) g n x (l, a) h =
      rw (rand64_from, accept-no n (generate g).0 l)
        (rand64_from_lem k fuel (generate g).1 n x a (omega arith))

  -- `rand64` draws until a number is accepted and returns its remainder, which is below `n`, with
  -- the generator just behind that draw; it has fuel for one round more than the refused draws.
  pub rand64_lem :
      (k fuel : ℕ) (g : G) (n x : ℕ)
      → n ≢ 0
      → FirstAccepted k g n x
      → k < fuel
      → (rand64 fuel g n ≡ some (x % n, after (suc k) g)) × (x % n < n)
  unfolding rand64
  rand64_lem k fuel g n x p a h =
      (rw (rand64, nonzero n p) (rand64_from_lem k fuel g n x a h), omega arith)

accept_limit_lem : (n : ℕ) → n ≢ 0 → accept_limit n ≡ u64_max / n * n
unfolding accept_limit
accept_limit_lem n h = grind arith

accept-lt : (n x r : ℕ) → n ≢ 0 → accept n x ≡ some r → r < n
unfolding accept
accept-lt n x r h e = grind arith

-- how many of the numbers below `m` one round of the loop turns into `r`
unfoldable pub draws : ℕ → ℕ → ℕ → ℕ
draws n r zero = 0
draws n r (suc m) = elim (accept n m) [
  | none ↦ draws n r m
  | some s ↦ (if s == r then 1 else 0) + draws n r m
]

mod_block : (n b j : ℕ) → j < n → (b * n + j) % n ≡ j
mod_block n b j h = grind arith

draws_step :
    (n r m : ℕ)
    → m < accept_limit n
    → draws n r (suc m) ≡ (if m % n == r then 1 else 0) + draws n r m
unfolding draws
draws_step n r m h = rw (draws, accept-yes n m h)

draws_over : (n r m : ℕ) → accept_limit n ≤ m → draws n r (suc m) ≡ draws n r m
unfolding draws
draws_over n r m h = rw (draws, accept-no n m h)

draws_block :
    (n r m b j : ℕ)
    → r < n
    → j < n
    → m ≡ b * n + j
    → m ≤ accept_limit n
    → draws n r m ≡ b + (if ltb r j then 1 else 0)
unfolding draws
draws_block n r zero b j hr hj e l = grind arith
draws_block n r (suc m) zero zero hr hj e l = absurd (omega arith)
draws_block n r (suc m) (suc b) zero hr hj e l =
    let e' : m ≡ b * n + (n - 1) = grind arith in
    let q : m % n ≡ n - 1 = rw e' (mod_block n b (n - 1) (omega arith)) in
    ground
      (arith, draws_step n r m, q, draws_block n r m b (n - 1) hr (omega arith) e' (omega arith))
draws_block n r (suc m) b (suc j) hr hj e l =
    let e' : m ≡ b * n + j = omega arith in
    let q : m % n ≡ j = rw e' (mod_block n b j (omega arith)) in
    ground (arith, draws_step n r m, q, draws_block n r m b j hr (omega arith) e' (omega arith))

draws_beyond : (n r k m : ℕ) → m ≡ accept_limit n + k → draws n r m ≡ draws n r (accept_limit n)
draws_beyond n r zero m e = ap (draws n r) (omega arith)
draws_beyond n r (suc k) zero e = absurd (omega arith)
draws_beyond n r (suc k) (suc m) e =
    draws_over n r m (omega arith) ∙ draws_beyond n r k m (omega arith)

-- No result is likelier than another: of the 2 ^ 64 numbers that the generator can return, each
-- `r` below `n` comes from the same number, the quotient of 2 ^ 64 - 1 by `n`.
pub draws_uniform : (n r : ℕ) → r < n → draws n r u64_mod ≡ u64_max / n
draws_uniform n r h =
    let e : accept_limit n ≡ u64_max / n * n = accept_limit_lem n (omega arith) in
    let l : accept_limit n ≤ u64_mod = grind arith in
    let k : draws n r (accept_limit n) ≡ u64_max / n + (if ltb r 0 then 1 else 0) =
      draws_block n r (accept_limit n) (u64_max / n) 0 h (omega arith) (omega arith)
        (omega arith) in
    draws_beyond n r (u64_mod - accept_limit n) u64_mod (omega arith) ∙ k ∙ ground arith
