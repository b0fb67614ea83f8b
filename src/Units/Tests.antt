-- ===== src/Units/Tests.antt =====
-- Numbers with units on concrete strings.
use wrkx.Prelude.{◌≡◌, refl, ◌*◌, ◌%◌, some, [], ◌∷◌, ◌++◌, map, u64_mod, ◌>>=◌, arith}
use wrkx.Thread.Samples.{whole}
use wrkx.Units.Defs.{
  scan_time, time_units_s, format_units, scan_units, sscanf, scan_signed, scan_number, scan_digits,
  scan_unit, scan_word, skip_space, unit_scale, find_unit, strncasecmp,
}
use wrkx.Units.Scan.{digit, number, time_factor, scan_time-letter}
use wrkx.Units.Format.{OneOf, but_last, format_units-OneOf}

-- "12h"
scan_time-letter_example :
    scan_time (map digit (1 ∷ 2 ∷ []) ++ 104 ∷ [])
    ≡ (time_factor 104 >>= λ f. some (number 0 (1 ∷ 2 ∷ []) * f % u64_mod))
scan_time-letter_example =
    scan_time-letter 1 (2 ∷ []) 104 (omega arith, (omega arith, tt)) (omega arith) refl refl

-- "12k"
twelve_hours : scan_time (49 ∷ 50 ∷ 104 ∷ []) ≡ some 43_200
unfolding scan_time scan_units sscanf scan_signed scan_number scan_digits scan_unit scan_word
    skip_space unit_scale find_unit strncasecmp
twelve_hours = refl

-- two hours
format_units-OneOf_example :
    OneOf
      (format_units whole 7200 time_units_s 0).2
      (time_units_s.base ∷ but_last time_units_s.units)
format_units-OneOf_example = format_units-OneOf whole 7200 time_units_s 0
