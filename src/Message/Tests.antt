-- ===== src/Message/Tests.antt =====
-- Two calls of `aprintf` for a null pointer.
use wrkx.Prelude.{ℕ, suc, ◌≢◌, ◌≡◌, none, some, [], ◌∷◌, ◌++◌, codes, arith}
use wrkx.Buffer.Samples.{clearing}
use wrkx.Message.Defs.{aprintf_all}
use wrkx.Message.Printed.{nothing, aprintf_all-Holds}

no : {b : ℕ} → suc b ≢ 0
no e = omega arith

aprintf_all-Holds_example :
    aprintf_all clearing none (codes "1.25" ∷ codes "ms" ∷ [])
    ≡ some (some (codes "1.25ms" ++ 0 ∷ []))
aprintf_all-Holds_example =
    aprintf_all-Holds clearing none [] (codes "1.25") (codes "ms" ∷ []) nothing tt
      ((no, (no, (no, (no, tt)))), ((no, (no, tt)), tt)) (omega arith)
