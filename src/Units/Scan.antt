-- ===== src/Units/Scan.antt =====
-- What `scan_metric` and `scan_time` read (units.c): decimal digits and one letter.
use wrkx.Prelude.{
  ℕ, ◌+◌, ◌-◌, ◌*◌, ◌%◌, ◌^◌, ◌<◌, ◌≡◌, refl, ap, ◌∙◌, true, false, Option, none, some, List, [],
  ◌∷◌, ◌++◌, map, ◌==◌, if◌then◌else◌, u64_mod, lt→ltb, ◌>>=◌, arith,
}
use wrkx.Units.Defs.{
  Units, time_units_s, metric_units, is_space, is_digit, to_lower, skip_space, scan_digits,
  scan_word, scan_unit, scan_number, scan_signed, sscanf, strncasecmp, find_unit, unit_scale,
  scan_units, scan_metric, scan_time,
}

-- the number that decimal digits behind `n` write
abbrev pub number : ℕ → List ℕ → ℕ
number n [] = n
number n (d ∷ ds) = number (10 * n + d) ds

abbrev pub Decimal : List ℕ → Type 0
Decimal [] = Unit {0}
Decimal (d ∷ ds) = (d < 10) × Decimal ds

-- the character of a digit
abbrev pub digit : ℕ → ℕ
digit d = 48 + d

abbrev pub EndsDigits : List ℕ → Type 0
EndsDigits [] = Unit {0}
EndsDigits (b ∷ s) = is_digit b ≡ false

scan_digits_end : (n : ℕ) (s : List ℕ) → EndsDigits s → scan_digits n s ≡ (n, s)
unfolding scan_digits
scan_digits_end n [] h = refl
scan_digits_end n (b ∷ s) h = rw (h, scan_digits) refl

is_digit-digit : (d : ℕ) → d < 10 → is_digit (digit d) ≡ true
is_digit-digit d h = ground arith

is_space-digit : (d : ℕ) → d < 10 → is_space (digit d) ≡ false
is_space-digit d h = ground arith

scan_digits_lem :
    (n : ℕ) (ds s : List ℕ)
    → Decimal ds
    → EndsDigits s
    → scan_digits n (map digit ds ++ s) ≡ (number n ds, s)
unfolding scan_digits
scan_digits_lem n [] s h e = scan_digits_end n s e
scan_digits_lem n (d ∷ ds) s (h, hs) e =
    let v : 10 * n + (digit d - 48) ≡ 10 * n + d = omega arith in
    rw (is_digit-digit d h, v) (scan_digits_lem (10 * n + d) ds s hs e)

sscanf_lem :
    (d : ℕ) (ds s : List ℕ)
    → Decimal (d ∷ ds)
    → number 0 (d ∷ ds) < u64_mod
    → EndsDigits s
    → sscanf (map digit (d ∷ ds) ++ s) ≡ some (number 0 (d ∷ ds), scan_unit s)
unfolding sscanf skip_space scan_signed scan_number
sscanf_lem d ds s (h, hs) b e =
    let m : (digit d == 45) ≡ false = ground arith in
    let q : (digit d == 43) ≡ false = ground arith in
    let v : 0 + (digit d - 48) ≡ 0 + d = omega arith in
    rw
      (
        is_space-digit d h,
        m,
        q,
        is_digit-digit d h,
        v,
        scan_digits_lem (0 + d) ds s hs e,
        lt→ltb (number (0 + d) ds) u64_mod b,
      )
      refl

letter : (c : ℕ) → is_space c ≡ false → scan_unit (c ∷ []) ≡ some (c ∷ [])
unfolding scan_unit skip_space scan_word
letter c h = rw (scan_unit, h, h) refl

-- seconds, minutes and hours; 1000, and so on, to 1000 ^ 5
abbrev pub time_factor : ℕ → Option ℕ
time_factor c =
    if to_lower c == 115
    then some 1
    else (if to_lower c == 109 then some 60 else (if to_lower c == 104 then some 3600 else none))

abbrev pub metric_factor : ℕ → Option ℕ
metric_factor c =
    if to_lower c == 107
    then some 1000
    else (if to_lower c == 109
        then some (1000 ^ 2)
        else (if to_lower c == 103
            then some (1000 ^ 3)
            else (if to_lower c == 116
                then some (1000 ^ 4)
                else (if to_lower c == 112 then some (1000 ^ 5) else none))))

unit_scale-time : (c : ℕ) → unit_scale (some (c ∷ [])) time_units_s ≡ time_factor c
unfolding unit_scale find_unit strncasecmp
unit_scale-time c = ground arith

unit_scale-metric : (c : ℕ) → unit_scale (some (c ∷ [])) metric_units ≡ metric_factor c
unfolding unit_scale find_unit strncasecmp
unit_scale-metric c = ground arith

scan_units_lem :
    (m : Units) (d : ℕ) (ds : List ℕ) (c : ℕ)
    → Decimal (d ∷ ds)
    → number 0 (d ∷ ds) < u64_mod
    → is_digit c ≡ false
    → is_space c ≡ false
    → scan_units (map digit (d ∷ ds) ++ c ∷ []) m
      ≡ (unit_scale (some (c ∷ [])) m >>= λ f. some (number 0 (d ∷ ds) * f % u64_mod))
unfolding scan_units
scan_units_lem m d ds c h b k w = rw (sscanf_lem d ds (c ∷ []) h b k, letter c w) refl

-- A number below 2 ^ 64 in decimal digits and one character: `scan_time` reads seconds, minutes or
-- hours, in lower or upper case, as seconds modulo 2 ^ 64, and refuses every other character. The
-- character is no digit and no white space.
pub scan_time-letter :
    (d : ℕ) (ds : List ℕ) (c : ℕ)
    → Decimal (d ∷ ds)
    → number 0 (d ∷ ds) < u64_mod
    → is_digit c ≡ false
    → is_space c ≡ false
    → scan_time (map digit (d ∷ ds) ++ c ∷ [])
      ≡ (time_factor c >>= λ f. some (number 0 (d ∷ ds) * f % u64_mod))
unfolding scan_time
scan_time-letter d ds c h b k w =
    scan_units_lem time_units_s d ds c h b k w
    ∙ ap (λ o. o >>= λ f. some (number 0 (d ∷ ds) * f % u64_mod)) (unit_scale-time c)

-- A number below 2 ^ 64 in decimal digits and one character: `scan_metric` reads it in thousands,
-- millions, and so on up to 1000 ^ 5, by `k`, `M`, `G`, `T` or `P` in either case, modulo 2 ^ 64, and
-- refuses every other character. The character is no digit and no white space.
pub scan_metric-letter :
    (d : ℕ) (ds : List ℕ) (c : ℕ)
    → Decimal (d ∷ ds)
    → number 0 (d ∷ ds) < u64_mod
    → is_digit c ≡ false
    → is_space c ≡ false
    → scan_metric (map digit (d ∷ ds) ++ c ∷ [])
      ≡ (metric_factor c >>= λ f. some (number 0 (d ∷ ds) * f % u64_mod))
unfolding scan_metric
scan_metric-letter d ds c h b k w =
    scan_units_lem metric_units d ds c h b k w
    ∙ ap (λ o. o >>= λ f. some (number 0 (d ∷ ds) * f % u64_mod)) (unit_scale-metric c)
