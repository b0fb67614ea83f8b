-- ===== src/Report/Columns.antt =====
-- The columns that `print_units` prints (wrk.c).
use wrkx.Prelude.{
  ℕ, suc, ◌+◌, ◌-◌, ◌≤◌, ◌<◌, ◌≡◌, refl, ap, sym, subst, append-nil, ◌∙◌, true, false, some, List,
  [], ◌∷◌, ◌++◌, length, take, replicate, get_elem?, leb, leb→le, leb-false, Bool-cases, ◌⊎◌, inl,
  inr, arith, codes, append_assoc, length-append, length-take, take-all,
}
use wrkx.Report.Defs.{is_alpha, pad_left, padding, print_message}

get_elem?_last :
    (xs : List ℕ) (x y : ℕ)
    → (get_elem? (xs ++ x ∷ y ∷ []) (suc (length xs)) ≡ some y)
      × (get_elem? (xs ++ x ∷ y ∷ []) (length xs) ≡ some x)
get_elem?_last [] x y = (refl, refl)
get_elem?_last (z ∷ xs) x y = get_elem?_last xs x y

-- what is printed, by the last two characters
abbrev Printed : List ℕ → ℕ → ℕ → Type 0
Printed msg pad width =
    print_message msg width
    ≡ some (pad_left (width - pad) (take (width - pad) msg) ++ take pad (codes "  "))

print_message_last : (xs : List ℕ) (x y width : ℕ) → Printed (xs ++ x ∷ y ∷ []) (padding y x) width
unfolding print_message
print_message_last xs x y width =
    let msg = xs ++ x ∷ y ∷ [] in
    let len : length msg ≡ length xs + 2 = length-append {0} xs (x ∷ y ∷ []) in
    let (e, f) = get_elem?_last xs x y in
    let last : get_elem? msg (length msg - 1) ≡ some y =
      ap (get_elem? msg) (omega (arith, len)) ∙ e in
    let before : get_elem? msg (length msg - 2) ≡ some x =
      ap (get_elem? msg) (omega (arith, len)) ∙ f in
    rw (leb-false (length msg) 1 (omega (arith, len)), last, before) refl

-- a unit of the tables: at most two letters
abbrev pub IsUnit : List ℕ → Type 0
IsUnit [] = Unit {0}
IsUnit (u ∷ []) = is_alpha u ≡ true
IsUnit (u ∷ v ∷ []) = (is_alpha u ≡ true) × (is_alpha v ≡ true)
IsUnit (u ∷ v ∷ w ∷ us) = ⊥

eq-Printed :
    (msg xs : List ℕ) (x y pad width : ℕ)
    → msg ≡ xs ++ x ∷ y ∷ []
    → padding y x ≡ pad
    → Printed msg pad width
eq-Printed msg xs x y pad width e f =
    subst (λ k. Printed msg k width) f
      (subst (λ m. Printed m (padding y x) width) (sym e) (print_message_last xs x y width))

-- the padding is what the unit lacks of two letters
print_message_unit :
    (amount : List ℕ) (a b : ℕ) (unit : List ℕ) (width : ℕ)
    → is_alpha a ≡ false
    → is_alpha b ≡ false
    → IsUnit unit
    → Printed ((amount ++ a ∷ b ∷ []) ++ unit) (2 - length unit) width × (length unit ≤ 2)
unfolding padding
print_message_unit amount a b [] width h k u = (
  eq-Printed _ amount a b 2 width (append-nil (amount ++ a ∷ b ∷ [])) (rw (h, k) refl),
  omega arith,
)
print_message_unit amount a b (u ∷ []) width h k e =
    let moved : (amount ++ a ∷ b ∷ []) ++ u ∷ [] ≡ (amount ++ a ∷ []) ++ b ∷ u ∷ [] =
      append_assoc amount (a ∷ b ∷ []) (u ∷ []) ∙ sym (append_assoc amount (a ∷ []) (b ∷ u ∷ [])) in
    (eq-Printed _ (amount ++ a ∷ []) b u 1 width moved (rw (k, e) refl), omega arith)
print_message_unit amount a b (u ∷ v ∷ []) width h k (e, f) =
    (eq-Printed _ (amount ++ a ∷ b ∷ []) u v 0 width refl (rw (e, f) refl), omega arith)
print_message_unit amount a b (u ∷ v ∷ w ∷ us) width h k e = absurd e

zero_width : (w : ℕ) (msg : List ℕ) → w < length msg → w - length (take w msg) ≡ 0
zero_width w msg h = omega (arith, length-take w msg)

-- `print_units` ends the amount two places before the end of its column, whatever the unit, if it
-- fits; the unit and spaces follow. A longer message loses its end: it is cut so that the column
-- keeps its width. The amount ends with two characters that are no letters.
pub print_message_columns :
    (amount : List ℕ) (a b : ℕ) (unit : List ℕ) (width : ℕ)
    → is_alpha a ≡ false
    → is_alpha b ≡ false
    → IsUnit unit
    → 2 ≤ width
    → let number = amount ++ a ∷ b ∷ [] in
      let gap = take (2 - length unit) (codes "  ") in
      ((length number + 2 ≤ width)
        × (print_message (number ++ unit) width
            ≡ some ((replicate (width - 2 - length number) b' ' ++ (number ++ unit)) ++ gap)))
      ⊎ ((width < length number + 2)
          × (print_message (number ++ unit) width
              ≡ some (take (width - 2 + length unit) (number ++ unit) ++ gap)))
print_message_columns amount a b unit width h k u l =
    let number = amount ++ a ∷ b ∷ [] in
    let msg = number ++ unit in
    let w = width - (2 - length unit) in
    let gap = take (2 - length unit) (codes "  ") in
    let (p, small) = print_message_unit amount a b unit width h k u in
    let len : length msg ≡ length number + length unit = length-append {0} number unit in
    elim (Bool-cases (leb (length msg) w)) [
      | inl t ↦
          let le = leb→le (length msg) w t in
          inl (
            omega (arith, len),
            p
                ∙ ap (λ m. some (pad_left w m ++ gap)) (take-all w msg le)
                ∙ ap (λ n. some ((replicate n b' ' ++ msg) ++ gap)) (omega (arith, len)),
          )
      | inr t ↦
          let gt : w < length msg = ground arith in
          inr (
            omega (arith, len),
            p
                ∙ ap (λ n. some ((replicate n b' ' ++ take w msg) ++ gap)) (zero_width w msg gt)
                ∙ ap (λ n. some (take n msg ++ gap)) (omega arith),
          )
    ]
