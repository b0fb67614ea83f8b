-- ===== src/Stats/Mean.antt =====
-- The sum that `stats_mean` divides (stats.c).
use wrkx.Prelude.{
  ℕ, zero, suc, ◌+◌, ◌-◌, ◌%◌, ◌<◌, ◌≡◌, refl, ap, sym, ◌∙◌, some, List, [], ◌∷◌, length, get_elem?,
  get_elem?_in_range, set, take, take-all, lt→ltb, ltb-false, add64, u64_mod, arith, dec_lt,
}
use wrkx.Stats.Defs.{Stats, stats_alloc, record_all, sum_loop, stats_sum}
use wrkx.Stats.Window.{Window, slot, stored, stats_record-stored, stats_alloc-Window, stored-Window}

abbrev pub sum : List ℕ → ℕ
sum [] = 0
sum (x ∷ xs) = x + sum xs

sum_loop_lem :
    (n : ℕ) (vs : List ℕ) (acc : ℕ)
    → acc < u64_mod
    → sum_loop n vs acc ≡ (acc + sum (take n vs)) % u64_mod
unfolding sum_loop
sum_loop_lem zero vs acc h = omega arith
sum_loop_lem (suc n) [] acc h = omega arith
sum_loop_lem (suc n) (x ∷ vs) acc h = omega (arith, sum_loop_lem n vs (add64 acc x) (omega arith))

-- a write inside the first `n` places
sum-set :
    (vs : List ℕ) (n i x old : ℕ)
    → i < n
    → get_elem? vs i ≡ some old
    → sum (take n (set vs i x)) + old ≡ sum (take n vs) + x
sum-set [] n i x old h e = absurd (ground arith)
sum-set (v ∷ vs) (suc n) zero x old h e = ground arith
sum-set (v ∷ vs) zero i x old h e = elim h [ ]
sum-set (v ∷ vs) (suc n) (suc i) x old h e = omega (arith, sum-set vs n i x old (omega arith) e)

-- a write just behind them
sum-set_end :
    (vs : List ℕ) (n x : ℕ) → n < length vs → sum (take (suc n) (set vs n x)) ≡ sum (take n vs) + x
sum-set_end [] n x h = elim h [ ]
sum-set_end (v ∷ vs) zero x h = omega arith
sum-set_end (v ∷ vs) (suc n) x h = omega (arith, sum-set_end vs n x (omega arith))

-- dropping the oldest of `n` values
sum-take_next :
    (xs : List ℕ) (n old : ℕ)
    → get_elem? xs n ≡ some old
    → sum (take (suc n) xs) ≡ sum (take n xs) + old
sum-take_next [] n old e = absurd (ground arith)
sum-take_next (x ∷ xs) zero old e = ground arith
sum-take_next (x ∷ xs) (suc n) old e = omega (arith, sum-take_next xs n old e)

slot_last : (n i : ℕ) → i < n → slot n i (n - 1) ≡ i
slot_last n i h = ground arith

module _ {H : Type 0} where
  -- while the ring is not full
  stored-sum_filling :
      (s : Stats H) (x : ℕ) (xs : List ℕ)
      → Window s xs
      → s.limit < s.samples
      → sum (take s.limit s.values) ≡ sum (take s.samples xs)
      → sum (take (stored s x).limit (stored s x).values) ≡ sum (take s.samples (x ∷ xs))
  unfolding stored
  stored-sum_filling s x xs w l ih =
      let len : length xs ≡ s.limit = omega (arith, w.limit_is) in
      let next : add64 s.limit 1 ≡ suc s.limit = omega (arith, w.small) in
      rw (lt→ltb s.limit s.samples l, next, w.filling l, take-all s.samples (x ∷ xs) (omega arith))
        (omega (
          arith,
          sum-set_end s.values s.limit x (omega (arith, w.sized)),
          ih,
          ap sum (take-all s.samples xs (omega arith)),
        ))

  -- once it is full, the value that goes is the oldest
  stored-sum_full :
      (s : Stats H) (x : ℕ) (xs : List ℕ) (n : ℕ)
      → Window s xs
      → s.samples ≡ suc n
      → s.limit ≡ s.samples
      → sum (take s.limit s.values) ≡ sum (take s.samples xs)
      → sum (take (stored s x).limit (stored s x).values) ≡ sum (take s.samples (x ∷ xs))
  unfolding stored
  stored-sum_full s x xs n w e l ih =
      let (old, p) = get_elem?_in_range s.values s.index (omega (arith, w.sized, w.index_in)) in
      let last : get_elem? xs n ≡ some old =
        sym (w.latest n (omega arith))
        ∙ ap (get_elem? s.values)
            (ap (slot s.samples s.index) (omega arith) ∙ slot_last s.samples s.index w.index_in)
        ∙ p in
      rw (ltb-false s.limit s.samples (omega arith)) (
        omega (
          arith,
          sum-set s.values s.limit s.index x old (omega (arith, w.index_in)) p,
          ih,
          ap (λ k. sum (take k xs)) e,
          sum-take_next xs n old last,
        )
        ∙ sym (ap (λ k. sum (take k (x ∷ xs))) e))

  stored-sum :
      (s : Stats H) (x : ℕ) (xs : List ℕ)
      → Window s xs
      → sum (take s.limit s.values) ≡ sum (take s.samples xs)
      → sum (take (stored s x).limit (stored s x).values) ≡ sum (take s.samples (x ∷ xs))
  stored-sum s x xs w ih = elim (dec_lt s.limit s.samples) [
    | yes l ↦ stored-sum_filling s x xs w l ih
    | no l ↦
        stored-sum_full s x xs (s.samples - 1) w (omega (arith, w.index_in))
          (omega (arith, w.limit_is)) ih
  ]

  record_all-sum :
      (hdr_record_value : H → ℕ → H) (n : ℕ) (xs : List ℕ)
      → 0 < n
      → n < u64_mod
      → (s : Stats H) × (record_all hdr_record_value (stats_alloc n) xs ≡ some s)
        × Window s xs
        × (s.samples ≡ n)
        × (sum (take s.limit s.values) ≡ sum (take s.samples xs))
  unfolding record_all stats_alloc stored
  record_all-sum hdr_record_value n [] p q = (
    stats_alloc n,
    refl,
    stats_alloc-Window n p q,
    refl,
    sym (ap sum (take-all n [] (omega arith))),
  )
  record_all-sum hdr_record_value n (x ∷ xs) p q =
      let (s, e, w, k, ih) = record_all-sum hdr_record_value n xs p q in
      (
        stored s x,
        rw e (stats_record-stored hdr_record_value s x xs w),
        stored-Window s x xs w,
        k,
        stored-sum s x xs w ih,
      )

  -- After any values recorded in a fresh store of `n` places, the sum that `stats_mean` computes is
  -- that of the latest `n` values, modulo 2 ^ 64.
  pub stats_sum-latest :
      (hdr_record_value : H → ℕ → H) (n : ℕ) (xs : List ℕ)
      → 0 < n
      → n < u64_mod
      → (s : Stats H) × (record_all hdr_record_value (stats_alloc n) xs ≡ some s)
        × (stats_sum s ≡ sum (take n xs) % u64_mod)
  unfolding stats_sum
  stats_sum-latest hdr_record_value n xs p q =
      let (s, e, w, k, h) = record_all-sum hdr_record_value n xs p q in
      (
        s,
        e,
        sum_loop_lem s.limit s.values 0 (omega arith)
            ∙ omega (arith, h, ap (λ m. sum (take m xs)) k),
      )
