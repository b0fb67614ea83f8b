-- ===== src/Report/Tests.antt =====
-- A column of the report.
use wrkx.Prelude.{◌≤◌, ◌<◌, ◌≡◌, refl, some, [], ◌++◌, replicate, take, codes, ◌⊎◌, arith}
use wrkx.Report.Defs.{print_message, padding}
use wrkx.Report.Columns.{print_message_columns}

seconds : print_message (codes "1.25s") 8 ≡ some (codes "  1.25s ")
unfolding print_message padding
seconds = refl

print_message_columns_example :
    ((6 ≤ 8)
      × (print_message (codes "1.25" ++ codes "ms") 8
          ≡ some ((replicate 2 b' ' ++ (codes "1.25" ++ codes "ms")) ++ [])))
    ⊎ ((8 < 6)
        × (print_message (codes "1.25" ++ codes "ms") 8
            ≡ some (take 8 (codes "1.25" ++ codes "ms") ++ [])))
print_message_columns_example =
    print_message_columns (codes "1.") b'2' b'5' (codes "ms") 8 refl refl (refl, refl) (omega arith)
