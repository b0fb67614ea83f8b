-- ===== src/Start/Tests.antt =====
-- The start of the threads on the platform of `Thread.Samples`.
use wrkx.Prelude.{
  ◌≤◌, ◌↔◌, ◌⊎◌, some, Bool, true, false, refl, ◌≡◌, ◌+◌, ◌*◌, ◌%◌, [], ◌∷◌, ◌++◌, length,
  replicate, arith,
}
use wrkx.EventLoop.{calibrate, check_timeouts}
use wrkx.Thread.State.{Thread}
use wrkx.Thread.Samples.{platform, listing_laws, new_thread, no_events}
use wrkx.Start.Defs.{Load, create_thread, create_connection, thread_main}
use wrkx.Start.Connects.{staggered, thread_main-staggered}
use wrkx.Start.Signals.{
  Process, sigpipe, sigint, ends_process, arrive, ignore_signals, handle_sigint, Interrupts,
  interrupted,
}
use wrkx.Thread.Timers.{check_timeouts_at}
use wrkx.Thread.Samples.{settings, new_connection}
use wrkx.Start.Totals.{connections-opened}

abbrev load : Load
load = record { threads = 3; connections = 10; duration = 30; rate = 2_000 }

abbrev three_connections : Thread platform
three_connections = record new_thread { connections = 3 }

thread_main-staggered_example :
    let (cs, t') = thread_main platform 3_000_000 40 1000 three_connections in
    (cs ≡ replicate 3 (create_connection platform 1 40))
    × (t'.loop.timers ≡ (2_015, check_timeouts) ∷ (10_015, calibrate) ∷ (staggered 0 3 ++ []))
thread_main-staggered_example =
    thread_main-staggered platform listing_laws 3_000_000 40 1000 three_connections (omega arith)

-- ten connections over three threads: nine are opened
connections-opened_example :
    let (cs, _) = thread_main platform 1 40 1000 (create_thread platform load 0 no_events []) in
    3 * length cs + 10 % 3 ≡ 10
connections-opened_example = connections-opened platform load 1 40 0 1000 no_events [] (omega arith)

abbrev new_process : Process
new_process = record { on_sigpipe = ends_process; on_sigint = ends_process; stop = false }

-- whether the loop is stopped two seconds after the end of the test
abbrev stopped_by : Process → Bool
stopped_by p' =
    let (again, t') =
      check_timeouts_at platform settings p'.stop 3_000_000 (new_connection ∷ []) new_thread in
    t'.loop.stopped

-- interrupted once too early, and once in time
interrupted_example :
    (arrive (sigint ∷ []) (ignore_signals new_process) ≡ some (ignore_signals new_process))
    × ((p' : Process) × (arrive (sigpipe ∷ sigint ∷ []) (handle_sigint (ignore_signals new_process))
          ≡ some p')
        × ((stopped_by p' ≡ true) ↔ (Interrupts (sigpipe ∷ sigint ∷ []) ⊎ (1_000_000 ≤ 3_000_000))))
interrupted_example =
    interrupted platform listing_laws settings 3_000_000 (new_connection ∷ []) new_thread
      (sigint ∷ []) (sigpipe ∷ sigint ∷ []) new_process refl (omega arith) (omega arith)
      (omega arith) refl
