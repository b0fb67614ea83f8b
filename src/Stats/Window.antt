-- ===== src/Stats/Window.antt =====
-- The ring of `stats_record` holds the latest values, each in its slot (stats.c).
use wrkx.Prelude.{
  ℕ, zero, suc, ◌+◌, ◌-◌, ◌<◌, ◌≡◌, ◌≢◌, refl, ◌∙◌, none, some, List, [], ◌∷◌, length, get_elem?,
  set, length-set, length-replicate, get_elem?-set_self, get_elem?-set_ne, ltb, ◌==◌, if◌then◌else◌,
  lt→ltb, min, max, add64, u64_mod, arith,
}
use wrkx.Stats.Defs.{Stats, u64_max, store, bound, record_to, stats_alloc, stats_record, record_all}

-- the slot of the value that `k` later ones follow
abbrev pub slot : ℕ → ℕ → ℕ → ℕ
slot samples index k = if ltb k index then index - 1 - k else index + samples - 1 - k

abbrev pub least : List ℕ → ℕ
least [] = u64_max
least (x ∷ xs) = min x (least xs)

abbrev pub greatest : List ℕ → ℕ
greatest [] = 0
greatest (x ∷ xs) = max x (greatest xs)

-- The store after the values `xs`, the latest first.
pub record Window {H : Type 0} (s : Stats H) (xs : List ℕ) : Type 0 where
  pub plain : s.histogram ≡ none
  pub sized : length s.values ≡ s.samples
  pub small : s.samples < u64_mod
  pub index_in : s.index < s.samples
  pub limit_is : s.limit ≡ min (length xs) s.samples
  pub filling : s.limit < s.samples → s.index ≡ s.limit
  pub latest :
      (k : ℕ) → k < s.limit → get_elem? s.values (slot s.samples s.index k) ≡ get_elem? xs k
  pub min_is : s.min ≡ least xs
  pub max_is : s.max ≡ greatest xs

-- where the code writes, and where the older values are then
slot_new : (n i : ℕ) → i < n → n < u64_mod → slot n (if add64 i 1 == n then 0 else add64 i 1) 0 ≡ i
slot_new n i h q = ground arith

slot_old :
    (n i k : ℕ)
    → i < n
    → n < u64_mod
    → suc k < n
    → slot n (if add64 i 1 == n then 0 else add64 i 1) (suc k) ≡ slot n i k
slot_old n i k h q l = ground arith

slot_ne : (n i k : ℕ) → i < n → suc k < n → i ≢ slot n i k
slot_ne n i k h l = ground arith

module _ {H : Type 0} where
  pub stats_alloc-Window : (n : ℕ) → 0 < n → n < u64_mod → Window (stats_alloc {H = H} n) []
  unfolding stats_alloc
  stats_alloc-Window n p q = record {
    plain = refl;
    sized = length-replicate n 0;
    small = q;
    index_in = p;
    limit_is = omega arith;
    filling = λ _. refl;
    latest = λ k h. absurd (omega arith);
    min_is = refl;
    max_is = refl;
  }

  -- the store after `bound` and `store`
  unfoldable pub stored : Stats H → ℕ → Stats H
  stored s x =
      let index = add64 s.index 1 in
      record s {
        min = if ltb x s.min then x else s.min;
        max = if ltb s.max x then x else s.max;
        values = set s.values s.index x;
        limit = if ltb s.limit s.samples then add64 s.limit 1 else s.limit;
        index = if index == s.samples then 0 else index;
      }

  pub stats_record-stored :
      (hdr_record_value : H → ℕ → H) (s : Stats H) (x : ℕ) (xs : List ℕ)
      → Window s xs
      → stats_record hdr_record_value s x ≡ some (stored s x)
  unfolding stats_record record_to store bound stored
  stats_record-stored hdr_record_value s x xs w =
      rw (w.plain, lt→ltb s.index (length s.values) (omega (arith, w.sized, w.index_in)))

  latest-stored :
      (s : Stats H) (x : ℕ) (xs : List ℕ)
      → Window s xs
      → (k : ℕ) → k < (stored s x).limit
      → get_elem? (stored s x).values (slot s.samples (stored s x).index k) ≡ get_elem? (x ∷ xs) k
  unfolding stored
  latest-stored s x xs w zero h =
      rw (slot_new s.samples s.index w.index_in w.small)
        (get_elem?-set_self s.values s.index x (omega (arith, w.sized, w.index_in)))
  latest-stored s x xs w (suc k) h =
      let below : suc k < s.samples = ground (arith, w.limit_is) in
      rw (slot_old s.samples s.index k w.index_in w.small below) (
        get_elem?-set_ne s.values x (slot_ne s.samples s.index k w.index_in below)
        ∙ w.latest k (ground (arith, w.limit_is)))

  pub stored-Window :
      (s : Stats H) (x : ℕ) (xs : List ℕ) → Window s xs → Window (stored s x) (x ∷ xs)
  unfolding stored
  stored-Window s x xs w = record {
    plain = w.plain;
    sized = length-set s.values s.index x ∙ w.sized;
    small = w.small;
    index_in = ground arith;
    limit_is = ground arith;
    filling = λ h. ground arith;
    latest = latest-stored s x xs w;
    min_is = ground (arith, w.min_is);
    max_is = ground (arith, w.max_is);
  }

  -- A fresh store of `n` places takes any number of values without a fault; then it still has `n`
  -- places and holds the latest `n` values, the one that `k` later ones follow in its slot of the
  -- ring, and the smallest and the largest of all.
  pub record_all-Window :
      (hdr_record_value : H → ℕ → H) (n : ℕ) (xs : List ℕ)
      → 0 < n
      → n < u64_mod
      → (s : Stats H) × (record_all hdr_record_value (stats_alloc n) xs ≡ some s)
        × Window s xs
        × (s.samples ≡ n)
  unfolding record_all stats_alloc stored
  record_all-Window hdr_record_value n [] p q =
      (stats_alloc n, refl, stats_alloc-Window n p q, refl)
  record_all-Window hdr_record_value n (x ∷ xs) p q =
      let (s, e, w, z) = record_all-Window hdr_record_value n xs p q in
      (stored s x, rw e (stats_record-stored hdr_record_value s x xs w), stored-Window s x xs w, z)
