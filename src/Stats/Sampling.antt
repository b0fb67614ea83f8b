-- ===== src/Stats/Sampling.antt =====
-- stats.c: `stats_sample`.
use wrkx.Prelude.{
  ℕ, zero, suc, ◌+◌, ◌≤◌, ◌<◌, ◌≡◌, ◌≢◌, refl, ap, sym, ◌%◌, get_elem?_in_range, ◌∙◌, Option, some,
  List, [], ◌∷◌, length, get_elem?, ◌>>=◌, u64_mod, arith,
}
use wrkx.Stats.Defs.{Stats, stats_alloc, stats_record, record_all}
use wrkx.Stats.Window.{record_all-Window}
use wrkx.Stats.Random.{rand64, rand64_lem, FirstAccepted, after}

-- the values at the first `limit` places
abbrev pub IsSample : {H : Type 0} → Stats H → ℕ → Type 0
IsSample src x = (n : ℕ) × (n < src.limit) × (get_elem? src.values n ≡ some x)

abbrev pub AreSamples : {H : Type 0} → Stats H → List ℕ → Type 0
AreSamples src [] = Unit {0}
AreSamples src (x ∷ xs) = IsSample src x × AreSamples src xs

-- from any state of the generator, a number is accepted within the fuel
abbrev pub Accepts : {G : Type 0} → (G → ℕ × G) → ℕ → ℕ → Type 0
Accepts {G} generate fuel n = (g : G) → (k x : ℕ) × (k < fuel) × FirstAccepted generate k g n x

module _ {H G : Type 0} (hdr_record_value : H → ℕ → H) (generate : G → ℕ × G) where
  -- `fuel` is for each call of `rand64`; a read outside `data` of the source is a fault.
  unfoldable pub stats_sample : ℕ → Stats H → G → ℕ → Stats H → Option (Stats H × G)
  unfolding rand64 stats_record
  stats_sample fuel dst g zero src = some (dst, g)
  stats_sample fuel dst g (suc count) src = rand64 generate fuel g src.limit >>= λ (n, g').
      get_elem? src.values n >>= λ x.
      stats_record hdr_record_value dst x >>= λ dst'. stats_sample fuel dst' g' count src

  sample_from :
      (fuel places count : ℕ) (src dst : Stats H) (g : G) (ys : List ℕ)
      → Accepts generate fuel src.limit
      → 0 < places
      → places < u64_mod
      → src.limit ≢ 0
      → src.limit ≤ length src.values
      → AreSamples src ys
      → record_all hdr_record_value (stats_alloc places) ys ≡ some dst
      → (xs : List ℕ) × (dst' : Stats H) × (g' : G) × (stats_sample fuel dst g count src
          ≡ some (dst', g'))
        × (record_all hdr_record_value (stats_alloc places) xs ≡ some dst')
        × (length xs ≡ count + length ys)
        × AreSamples src xs
  unfolding stats_sample record_all
  sample_from fuel places zero src dst g ys acc a b c d e h = (ys, dst, g, refl, h, omega arith, e)
  sample_from fuel places (suc count) src dst g ys acc a b c d e h =
      let (k, y, l, f) = acc g in
      let (drawn, below) = rand64_lem generate k fuel g src.limit y c f l in
      let (x, got) = get_elem?_in_range src.values (y % src.limit) (omega arith) in
      let (s, r, w, z) = record_all-Window hdr_record_value places (x ∷ ys) a b in
      let kept : stats_record hdr_record_value dst x ≡ some s =
        ap (λ (o : Option (Stats H)). o >>= λ t. stats_record hdr_record_value t x) (sym h) ∙ r in
      let (xs, dst', g', run, rec, len, all) =
        sample_from fuel places count src s (after generate (suc k) g) (x ∷ ys) acc a b c d
          ((y % src.limit, below, got), e) r in
      (xs, dst', g', rw (drawn, got, kept) run, rec, omega (arith, len), all)

  -- `stats_sample` of a store that holds samples, into a new one: with a generator from which a number
  -- is accepted within the fuel, it reads no place outside `data`, and the new store is that in which
  -- `count` values were recorded, each one of the samples of the source.
  pub stats_sample-AreSamples :
      (fuel places count : ℕ) (src : Stats H) (g : G)
      → Accepts generate fuel src.limit
      → 0 < places
      → places < u64_mod
      → src.limit ≢ 0
      → src.limit ≤ length src.values
      → (xs : List ℕ) × (dst' : Stats H) × (g' : G) × (stats_sample fuel
            (stats_alloc places)
            g
            count
            src
          ≡ some (dst', g'))
        × (record_all hdr_record_value (stats_alloc places) xs ≡ some dst')
        × (length xs ≡ count)
        × AreSamples src xs
  unfolding record_all
  stats_sample-AreSamples fuel places count src g acc a b c d =
      let (xs, dst', g', run, rec, len, all) =
        sample_from fuel places count src (stats_alloc places) g [] acc a b c d tt refl in
      (xs, dst', g', run, rec, omega (arith, len), all)
