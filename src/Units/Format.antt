-- ===== src/Units/Format.antt =====
-- The units that `format_units` uses (units.c).
use wrkx.Prelude.{ℕ, ◌≡◌, refl, Bool, true, false, List, [], ◌∷◌, if◌then◌else◌, inl, inr, ◌⊎◌}
use wrkx.Float.{Float}
use wrkx.Units.Defs.{Units, at_least, scale_down, format_units}

-- all units but the last
abbrev pub but_last : List (List ℕ) → List (List ℕ)
but_last [] = []
but_last (u ∷ []) = []
but_last (u ∷ v ∷ us) = u ∷ but_last (v ∷ us)

abbrev pub OneOf : List ℕ → List (List ℕ) → Type 0
OneOf u [] = ⊥
OneOf u (v ∷ us) = (u ≡ v) ⊎ OneOf u us

either :
    {A : Type 0} (b : Bool) (x y : A × List ℕ) (us : List (List ℕ))
    → OneOf x.1 us
    → OneOf y.1 us
    → OneOf (if b then x else y).1 us
either true x y us h k = h
either false x y us h k = k

module _ (f : Float) where
  scale_down-OneOf :
      (by limit amt : f.F) (unit : List ℕ) (us : List (List ℕ))
      → OneOf (scale_down f by limit amt unit us).1 (unit ∷ but_last us)
  unfolding scale_down
  scale_down-OneOf by limit amt unit [] = inl refl
  scale_down-OneOf by limit amt unit (u ∷ []) = inl refl
  scale_down-OneOf by limit amt unit (u ∷ v ∷ us) =
      either (at_least f amt limit) (scale_down f by limit (f.div amt by) u (v ∷ us)) (amt, unit)
        (unit ∷ but_last (u ∷ v ∷ us)) (inr (scale_down-OneOf by limit (f.div amt by) u (v ∷ us)))
        (inl refl)

  -- `format_units` never uses the last unit of a table, however large the number: its loop stops in
  -- front of it.
  pub format_units-OneOf :
      (n : f.F) (m : Units) (places : ℕ)
      → OneOf (format_units f n m places).2 (m.base ∷ but_last m.units)
  unfolding format_units
  format_units-OneOf n m places = scale_down-OneOf _ _ n m.base m.units
