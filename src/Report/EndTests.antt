-- ===== src/Report/EndTests.antt =====
-- The end of `main` after two threads on the platform of `Thread.Samples`.
use wrkx.Prelude.{
  ℕ, ◌≡◌, ◌≤◌, some, List, [], ◌∷◌, ◌++◌, false, true, replicate, length, length-append,
  length-replicate, arith,
}
use wrkx.Stats.Defs.{stats_alloc}
use wrkx.Thread.State.{Thread}
use wrkx.Thread.Samples.{whole, platform, new_thread, no_errors}
use wrkx.Report.Defs.{Printf}
use wrkx.Report.End.{Wanted, Ended, end_of_main}
use wrkx.Report.Lines.{Shows}
use wrkx.Report.Sums.{Sums, end_of_main-Sums}

-- numbers as that many strokes, with noughts for places
abbrev strokes : Printf whole
strokes = record {
  print_float = λ width places x. replicate x b'1' ++ b'.' ∷ replicate places b'0';
  print_u64 = λ n. replicate n b'1';
  print_int = λ n. replicate n b'1';
}

strokes-Wide : (places x : ℕ) → 1 ≤ places → 2 ≤ length (strokes.print_float 0 places x)
strokes-Wide places x h = omega (
  arith,
  length-append {A = ℕ} (replicate x b'1') (b'.' ∷ replicate places b'0'),
  length-replicate {A = ℕ} places b'0',
)

abbrev both_threads : List (Thread platform)
both_threads =
    record new_thread { complete = 2; bytes = 40; latency_histogram = 7 ∷ 8 ∷ [] }
    ∷ record new_thread { complete = 1; bytes = 20; errors = record no_errors { timeout = 1 } }
    ∷ []

abbrev wanted : Wanted
wanted = record { latency = true; u_latency = false }

end_of_main-Sums_example :
    (r : Ended platform strokes) × (end_of_main platform strokes
        (λ cmp xs. xs)
        (λ h. [])
        wanted
        []
        1_000
        2_000_000
        both_threads
        (stats_alloc 10)
      ≡ some r)
    × Sums platform strokes both_threads r.totals
    × Shows platform strokes both_threads r.text
end_of_main-Sums_example =
    end_of_main-Sums platform strokes (λ cmp xs. xs) (λ h. []) wanted [] 1_000 2_000_000
      both_threads (stats_alloc 10) strokes-Wide
