-- ===== src/Args/Affinity.antt =====
-- units.c: `scan_affinity`, with `strtok_r` and `strtol` of the C library as far as it uses them.
use wrkx.Prelude.{
  ℕ, ◌+◌, ◌-◌, ◌*◌, ◌%◌, ◌^◌, Bool, true, false, Option, none, some, List, [], ◌∷◌, ltb, leb, ◌==◌,
  ◌&&◌, if◌then◌else◌, sub64, u32_mod, ◌>>=◌,
}
use wrkx.Units.Defs.{is_digit, to_lower, skip_space}

-- `strtok_r(..., ",", ...)`: the tokens between commas, none of them empty; `token` is read so far
abbrev pub close : List ℕ → List (List ℕ) → List (List ℕ)
close [] more = more
close (b ∷ token) more = (b ∷ token) ∷ more

unfoldable pub tokens : List ℕ → List ℕ × List (List ℕ)
tokens [] = ([], [])
tokens (b ∷ s) =
    let (token, more) = tokens s in if b == 44 then ([], close token more) else (b ∷ token, more)

-- the value of a digit or a letter, 36 for other characters
abbrev pub digit_value : ℕ → ℕ
digit_value b =
    if is_digit b
    then b - 48
    else (if leb 97 (to_lower b) && leb (to_lower b) 122 then to_lower b - 87 else 36)

-- the digits of a base at the start of a string, as a number behind `n`
unfoldable pub scan_base : ℕ → ℕ → List ℕ → ℕ
scan_base base n [] = n
scan_base base n (b ∷ s) =
    let more = scan_base base (base * n + digit_value b) s in
    if ltb (digit_value b) base then more else n

-- base 0: hexadecimal behind `0x`, octal behind `0`, otherwise decimal
unfoldable pub scan_any_base : List ℕ → ℕ
unfolding scan_base
scan_any_base [] = 0
scan_any_base (a ∷ []) = scan_base 10 0 (a ∷ [])
scan_any_base (a ∷ b ∷ []) = if a == 48 then scan_base 8 0 (b ∷ []) else scan_base 10 0 (a ∷ b ∷ [])
scan_any_base (a ∷ b ∷ c ∷ s) =
    if a == 48
    then (if (to_lower b == 120) && ltb (digit_value c) 16
        then scan_base 16 0 (c ∷ s)
        else scan_base 8 0 (b ∷ c ∷ s))
    else scan_base 10 0 (a ∷ b ∷ c ∷ s)

-- the bits of a `long`, or `none` where `errno` is ERANGE
abbrev pub in_range : Bool → ℕ → Option ℕ
in_range true n = if leb n (2 ^ 63) then some (sub64 0 n) else none
in_range false n = if ltb n (2 ^ 63) then some n else none

unfoldable pub strtol_signed : List ℕ → Option ℕ
unfolding scan_any_base
strtol_signed [] = some 0
strtol_signed (b ∷ s) =
    if b == 45
    then in_range true (scan_any_base s)
    else (if b == 43
        then in_range false (scan_any_base s)
        else in_range false (scan_any_base (b ∷ s)))

unfoldable pub strtol : List ℕ → Option ℕ
unfolding strtol_signed skip_space
strtol s = strtol_signed (skip_space s)

-- CPU_ZERO and CPU_SET with an int: a set of at most one of 1024 CPUs
abbrev pub cpu_set : ℕ → Option ℕ
cpu_set val = if ltb (val % u32_mod) 1024 then some (val % u32_mod) else none

unfoldable pub scan_tokens : List (List ℕ) → Option (List (Option ℕ))
unfolding strtol
scan_tokens [] = some []
scan_tokens (t ∷ ts) = strtol t >>= λ val. scan_tokens ts >>= λ items. some (cpu_set val ∷ items)

-- The sets of the list, in order, or `none` for the result -1. An empty list is the null pointer.
unfoldable pub scan_affinity : List ℕ → Option (List (Option ℕ))
unfolding scan_tokens tokens
scan_affinity s = let (token, more) = tokens s in scan_tokens (close token more)
