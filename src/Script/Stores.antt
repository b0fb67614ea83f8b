-- ===== src/Script/Stores.antt =====
-- script.c: `checkstats` and the methods of a store of samples.
use wrkx.Prelude.{
  ℕ, ◌+◌, ◌-◌, ◌%◌, ◌^◌, ◌≤◌, ◌<◌, ◌≡◌, refl, ◌||◌, Option, none, some, List, [], ◌∷◌, length,
  get_elem?, get_elem?_in_range, leb, ◌==◌, if◌then◌else◌, ◌>>=◌, codes, equal_bytes, until_nul,
  u32_mod, u64_mod, arith, ◌⊎◌, inl, inr, Bool-cases, leb→le,
}
use wrkx.Float.{Float}
use wrkx.Histogram.{Histogram}
use wrkx.Stats.Defs.{Stats}
use wrkx.Stats.Percentile.{get_elem?_past}
use wrkx.Stats.Summary.{stats_mean, stats_stdev, stats_percentile}
use wrkx.Lua.Api.{
  Lua, LuaState, Value, number, string, Content, of_thread, of_stats, of_addr, CFunction, at,
  value_at, number_of_value, lua_l_checkudata, lua_pushnumber, lua_pushinteger, lua_pushcfunction,
}
use wrkx.Lua.Api as Api

-- an int by its 32 bits: `data[index - 1]`, and the 64 bits of the same number
unfoldable pub element : List ℕ → ℕ → Option ℕ
element values index =
    if index == 0 || leb (2 ^ 31) index then none else get_elem? values (index - 1)

abbrev pub sign_extend : ℕ → ℕ
sign_extend index = if leb (2 ^ 31) index then index + (u64_mod - u32_mod) else index

element_cases :
    (values : List ℕ) (i : ℕ)
    → ((0 < i)
        × (i ≤ length values)
        × (i < 2 ^ 31)
        × ((x : ℕ) × (element values i ≡ some x) × (get_elem? values (i - 1) ≡ some x)))
      ⊎ (((i ≡ 0) ⊎ (length values < i) ⊎ (2 ^ 31 ≤ i)) × (element values i ≡ none))
unfolding element
element_cases values i = elim (Bool-cases (i == 0 || leb (2 ^ 31) i)) [
  | inl e ↦ inr (ground arith, rw e refl)
  | inr e ↦ elim (Bool-cases (leb i (length values))) [
    | inl k ↦
        let le = leb→le i (length values) k in
        let (x, g) = get_elem?_in_range values (i - 1) (ground arith) in
        inl (ground arith, le, ground arith, (x, rw e g, g))
    | inr k ↦ inr (inr (inl (ground arith)), rw e (get_elem?_past values (i - 1) (ground arith)))
  ]
]

abbrev pub pointer_of : Content → Option ℕ
pointer_of (of_stats p) = some p
pointer_of (of_thread t) = none
pointer_of (of_addr a) = none

unfoldable pub count_of : {f : Float} (hdr : Histogram f) → Option hdr.H → Stats hdr.H → ℕ
count_of hdr (some h) st = hdr.total_count h
count_of hdr none st = st.limit

-- `of_float` turns a floating-point number into Lua's, `to_float` the other way; the pointers in the
-- userdata are looked up by `stats_at`.
module _ {l : Lua} {f : Float} (hdr : Histogram f) (of_float : f.F → l.N) (to_float : l.N → f.F)
    (stats_at : ℕ → Stats hdr.H) where
  open f use {F}
  open hdr use {H}

  unfoldable pub checkstats : LuaState l → Option (Stats H)
  checkstats s =
      lua_l_checkudata (at 1) (codes "wrk.stats") s >>= pointer_of >>= λ p. some (stats_at p)

  unfoldable pub script_stats_percentile : LuaState l → Option (LuaState l)
  unfolding checkstats
  script_stats_percentile s = checkstats s >>= λ st.
      value_at (at 2) s.stack >>= number_of_value l >>= λ p.
      stats_percentile hdr st (to_float p) >>= λ x. lua_pushnumber (of_float (f.of_u64 x)) s

  -- `s[index]`
  unfoldable pub get_index : Option H → Stats H → ℕ → LuaState l → Option (LuaState l)
  unfolding element
  get_index (some h) st index s =
      let percentile =
        f.div (f.mul (f.lit 100 1) (f.of_i64 (sign_extend index))) (f.of_i64 (hdr.total_count h)) in
      lua_pushnumber (of_float (f.of_i64 (hdr.value_at_percentile h percentile))) s
  get_index none st index s =
      element st.values index >>= λ x. lua_pushnumber (of_float (f.of_u64 x)) s

  -- `if (!strcmp(name, method)) push`
  unfoldable pub on_method :
      List ℕ → List ℕ → (LuaState l → Option (LuaState l)) → LuaState l → Option (LuaState l)
  on_method name method push s = if equal_bytes name method then push s else some s

  -- `s.method`
  unfoldable pub get_method : List ℕ → Stats H → LuaState l → Option (LuaState l)
  unfolding on_method
  get_method method st s =
      on_method (codes "min") method (lua_pushnumber (of_float (f.of_u64 st.min))) s
      >>= on_method (codes "max") method (lua_pushnumber (of_float (f.of_u64 st.max)))
      >>= on_method (codes "mean") method (lua_pushnumber (of_float (stats_mean hdr st)))
      >>= on_method (codes "stdev") method
          (lua_pushnumber (of_float (stats_stdev hdr st (stats_mean hdr st))))
      >>= on_method (codes "percentile") method (lua_pushcfunction Api.stats_percentile)

  unfoldable pub get_key : Option l.N → Value l.N → Stats H → LuaState l → Option (LuaState l)
  unfolding get_index get_method
  get_key (some n) key st s = get_index st.histogram st (l.to_int n % u32_mod) s
  get_key none (string method) st s = get_method (until_nul method) st s
  get_key none key st s = some s

  -- The metamethod returns the top of the stack, which is the key itself if nothing was pushed.
  unfoldable pub script_stats_get : LuaState l → Option (LuaState l)
  unfolding checkstats get_key
  script_stats_get s = checkstats s >>= λ st.
      value_at (at 2) s.stack >>= λ key. get_key (number_of_value l key) key st s

  unfoldable pub script_stats_len : LuaState l → Option (LuaState l)
  unfolding checkstats count_of
  script_stats_len s = checkstats s >>= λ st. lua_pushinteger (count_of hdr st.histogram st) s

  -- In a full store without a histogram the script's `#s` is its size, and `s[i]` is the value of
  -- place i - 1 for each `i` from 1 to `#s` that an int can hold; for 0, for a larger and for a
  -- negative index it is read outside the data. The index is the number's lower 32 bits.
  pub script_stats_get-index :
      (p i : ℕ) (n : l.N) (u : Value l.N) (w : l.W)
      → l.check w u (codes "wrk.stats") ≡ some (of_stats p)
      → (stats_at p).histogram ≡ none
      → (stats_at p).limit ≡ length (stats_at p).values
      → l.to_int n % u32_mod ≡ i
      → let s : LuaState l = record { stack = number n ∷ u ∷ []; world = w } in
        (script_stats_len s ≡ lua_pushinteger (stats_at p).limit s)
        × (((0 < i)
              × (i ≤ (stats_at p).limit)
              × (i < 2 ^ 31)
              × ((x : ℕ) × (get_elem? (stats_at p).values (i - 1) ≡ some x)
                  × (script_stats_get s ≡ lua_pushnumber (of_float (f.of_u64 x)) s)))
            ⊎ (((i ≡ 0) ⊎ ((stats_at p).limit < i) ⊎ (2 ^ 31 ≤ i)) × (script_stats_get s ≡ none)))
  unfolding script_stats_len script_stats_get checkstats get_key get_index count_of
  script_stats_get-index p i n u w c h b e = (
    rw (c, h) refl,
    elim (element_cases (stats_at p).values i) [
      | inl (d, g, k, (x, v, q)) ↦ inl (d, omega arith, k, (x, q, rw (c, h, e, v) refl))
      | inr (q, v) ↦ inr (rw b q, rw (c, h, e, v) refl)
    ],
  )
