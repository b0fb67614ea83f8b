-- ===== src/Units/Defs.antt =====
-- units.c: `units` and its tables, `scan_units`, `format_units` and the functions that call them.
-- A string is the list of its bytes without the closing NUL. `sscanf` and `strncasecmp` are those of
-- the C library, as far as they are used; what `format_units` prints is given by its parts.
use wrkx.Prelude.{
  ℕ, zero, suc, ◌+◌, ◌-◌, ◌*◌, Bool, true, false, Option, none, some, List, [], ◌∷◌, ltb, leb, ◌==◌,
  ◌&&◌, ◌||◌, not, if◌then◌else◌, mul64, sub64, u64_mod, ◌>>=◌,
}
use wrkx.Float.{Float}

pub record Units : Type 0 where
  pub scale : ℕ
  pub base : List ℕ
  pub units : List (List ℕ)

-- "us", "ms", "s"
abbrev pub time_units_us : Units
time_units_us = record {
  scale = 1000;
  base = 117 ∷ 115 ∷ [];
  units = (109 ∷ 115 ∷ []) ∷ (115 ∷ []) ∷ [];
}

-- "s", "m", "h"
abbrev pub time_units_s : Units
time_units_s = record { scale = 60; base = 115 ∷ []; units = (109 ∷ []) ∷ (104 ∷ []) ∷ [] }

-- "K", "M", "G", "T", "P"
abbrev pub binary_units : Units
binary_units = record {
  scale = 1024;
  base = [];
  units = (75 ∷ []) ∷ (77 ∷ []) ∷ (71 ∷ []) ∷ (84 ∷ []) ∷ (80 ∷ []) ∷ [];
}

-- "k", "M", "G", "T", "P"
abbrev pub metric_units : Units
metric_units = record {
  scale = 1000;
  base = [];
  units = (107 ∷ []) ∷ (77 ∷ []) ∷ (71 ∷ []) ∷ (84 ∷ []) ∷ (80 ∷ []) ∷ [];
}

-- `isspace`, `isdigit`, `tolower`
abbrev pub is_space : ℕ → Bool
is_space b = (b == 32) || (leb 9 b && leb b 13)

abbrev pub is_digit : ℕ → Bool
is_digit b = leb 48 b && leb b 57

abbrev pub to_lower : ℕ → ℕ
to_lower b = if leb 65 b && leb b 90 then b + 32 else b

unfoldable pub skip_space : List ℕ → List ℕ
skip_space [] = []
skip_space (b ∷ s) = let rest = skip_space s in if is_space b then rest else b ∷ s

-- the digits at the start of a string, as a number behind `n`, and the rest
unfoldable pub scan_digits : ℕ → List ℕ → ℕ × List ℕ
scan_digits n [] = (n, [])
scan_digits n (b ∷ s) =
    let more = scan_digits (10 * n + (b - 48)) s in if is_digit b then more else (n, b ∷ s)

-- the characters up to white space, at most `n`
unfoldable pub scan_word : ℕ → List ℕ → List ℕ
scan_word zero s = []
scan_word (suc n) [] = []
scan_word (suc n) (b ∷ s) = let rest = scan_word n s in if is_space b then [] else b ∷ rest

-- `%2s`
unfoldable pub scan_unit : List ℕ → Option (List ℕ)
unfolding scan_word skip_space
scan_unit s = elim (scan_word 2 (skip_space s)) [ [] ↦ none | b ∷ u ↦ some (b ∷ u) ]

-- a number above 2 ^ 64 - 1 is read as that
abbrev pub saturate : ℕ → ℕ
saturate n = if ltb n u64_mod then n else u64_mod - 1

-- `SCNu64` behind the sign, and `%2s`
unfoldable pub scan_number : Bool → List ℕ → Option (ℕ × Option (List ℕ))
unfolding scan_digits scan_unit
scan_number negative [] = none
scan_number negative (b ∷ s) =
    if is_digit b
    then (let (n, rest) = scan_digits 0 (b ∷ s) in
        let x = if negative && ltb n u64_mod then sub64 0 n else saturate n in
        some (x, scan_unit rest))
    else none

unfoldable pub scan_signed : List ℕ → Option (ℕ × Option (List ℕ))
unfolding scan_number
scan_signed [] = none
scan_signed (b ∷ s) =
    if b == 45
    then scan_number true s
    else (if b == 43 then scan_number false s else scan_number false (b ∷ s))

-- `sscanf(s, "%"SCNu64"%2s", &base, unit)`: `none` below 1, and the unit if it returns 2
unfoldable pub sscanf : List ℕ → Option (ℕ × Option (List ℕ))
unfolding scan_signed skip_space
sscanf s = scan_signed (skip_space s)

-- whether `strncasecmp` returns 0
unfoldable pub strncasecmp : ℕ → List ℕ → List ℕ → Bool
strncasecmp zero s t = true
strncasecmp (suc n) [] [] = true
strncasecmp (suc n) (a ∷ s) [] = false
strncasecmp (suc n) [] (b ∷ t) = false
strncasecmp (suc n) (a ∷ s) (b ∷ t) = (to_lower a == to_lower b) && strncasecmp n s t

-- the loop of `scan_units`, and what follows it
unfoldable pub find_unit : List ℕ → ℕ → ℕ → List (List ℕ) → Option ℕ
unfolding strncasecmp
find_unit unit by scale [] = none
find_unit unit by scale (u ∷ us) =
    let scale' = mul64 scale by in
    let rest = find_unit unit by scale' us in if strncasecmp 3 unit u then some scale' else rest

unfoldable pub unit_scale : Option (List ℕ) → Units → Option ℕ
unfolding find_unit strncasecmp
unit_scale none m = some 1
unit_scale (some unit) m =
    if strncasecmp 3 unit m.base then some 1 else find_unit unit m.scale 1 m.units

-- `none` is the result -1
unfoldable pub scan_units : List ℕ → Units → Option ℕ
unfolding sscanf unit_scale
scan_units s m = sscanf s >>= λ (base, unit). unit_scale unit m >>= λ scale. some (mul64 base scale)

unfoldable pub scan_metric : List ℕ → Option ℕ
unfolding scan_units
scan_metric s = scan_units s metric_units

unfoldable pub scan_time : List ℕ → Option ℕ
unfolding scan_units
scan_time s = scan_units s time_units_s

module _ (f : Float) where
  -- `amt >= scale`
  abbrev pub at_least : f.F → f.F → Bool
  at_least x y = not (f.gt y x)

  -- the loop of `format_units` from the unit `u` on: the amount and its unit
  unfoldable pub scale_down : f.F → f.F → f.F → List ℕ → List (List ℕ) → f.F × List ℕ
  scale_down by limit amt unit [] = (amt, unit)
  scale_down by limit amt unit (u ∷ []) = (amt, unit)
  scale_down by limit amt unit (u ∷ v ∷ us) =
      let rest = scale_down by limit (f.div amt by) u (v ∷ us) in
      if at_least amt limit then rest else (amt, unit)

  -- what `format_units` prints: an amount with `p` places, and a unit
  unfoldable pub format_units : f.F → Units → ℕ → f.F × ℕ × List ℕ
  unfolding scale_down
  format_units n m places =
      let limit = f.mul (f.of_u64 m.scale) (f.lit 85 100) in
      let (amt, unit) = scale_down (f.of_u64 m.scale) limit n m.base m.units in (amt, places, unit)

  unfoldable pub format_binary : f.F → f.F × ℕ × List ℕ
  unfolding format_units
  format_binary n = format_units n binary_units 2

  unfoldable pub format_metric : f.F → f.F × ℕ × List ℕ
  unfolding format_units
  format_metric n = format_units n metric_units 2

  unfoldable pub format_time_us : f.F → f.F × ℕ × List ℕ
  unfolding format_units
  format_time_us n =
      let million = f.lit 1_000_000 1 in
      if at_least n million
      then format_units (f.div n million) time_units_s 2
      else format_units n time_units_us 2

  unfoldable pub format_time_s : f.F → f.F × ℕ × List ℕ
  unfolding format_units
  format_time_s n = format_units n time_units_s 0
