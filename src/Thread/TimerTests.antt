-- ===== src/Thread/TimerTests.antt =====
-- The timers of a thread on the platform of `Samples`.
use wrkx.Prelude.{ℕ, ◌≡◌, ◌≤◌, ◌↔◌, ◌⊎◌, refl, true, false, List, [], ◌∷◌, arith}
use wrkx.Connection.State.{Connection}
use wrkx.Stats.Defs.{Stats}
use wrkx.Stats.Window.{Window}
use wrkx.Thread.State.{Thread}
use wrkx.Thread.Samples.{listing_laws, platform, settings, new_thread, new_connection}
use wrkx.Thread.Timers.{check_timeouts_at}
use wrkx.Thread.Late.{late, more_timeouts, check_timeouts_at-late}
use wrkx.Thread.Windows.{Sampling}

-- one connection that began at 100, one that began later
abbrev two_connections : List (Connection ℕ)
two_connections =
    record new_connection { start = 100 } ∷ record new_connection { start = 5_000_000 } ∷ []

one_late : late 2000 6_000_000 two_connections ≡ 1
one_late = refl

check_timeouts_at-late_example :
    let (again, t') =
      check_timeouts_at platform settings false 6_000_000 two_connections new_thread in
    (again ≡ 2000)
    × (t' ≡ record new_thread {
      loop = t'.loop;
      errors = more_timeouts (late 2000 6_000_000 two_connections) new_thread.errors;
    })
    × ((t'.loop.stopped ≡ true) ↔ ((false ≡ true) ⊎ (1_000_000 ≤ 6_000_000)))
check_timeouts_at-late_example =
    check_timeouts_at-late platform listing_laws settings false 6_000_000 two_connections new_thread
      (omega arith) (omega arith) (omega arith) refl

-- two windows, of three responses in 10 milliseconds and of one in 20
abbrev windows : List Sampling
windows =
    record { responses = 200 ∷ []; closed = 30_020; reopened = 30_030 }
    ∷ record { responses = 200 ∷ 404 ∷ 200 ∷ []; closed = 10_000; reopened = 10_010 }
    ∷ []

abbrev measured : Thread platform
measured = record new_thread { latency_histogram = 700 ∷ [] }
