-- ===== src/Start/Connects.antt =====
-- What `thread_main` starts with (wrk.c).
use wrkx.Prelude.{
  ℕ, zero, suc, ◌+◌, ◌*◌, ◌<◌, ◌≡◌, refl, ap, ◌∙◌, List, [], ◌∷◌, ◌++◌, u64_mod, mul64, add64,
  arith, append_assoc, replicate,
}
use wrkx.EventLoop.{LoopLaws, TimeProc, delayed_initial_connect, calibrate, check_timeouts}
use wrkx.Thread.State.{Platform, Thread}
use wrkx.Start.Defs.{create_connection, create_connections, thread_main}

-- the timers of `n` connections from index `i` on, 5 milliseconds apart, the last one first
abbrev pub staggered : ℕ → ℕ → List (ℕ × TimeProc)
staggered i zero = []
staggered i (suc n) = staggered (suc i) n ++ (i * 5, delayed_initial_connect) ∷ []

module _ (p : Platform) where
  open p use {float, ae}

  create_connections-staggered :
      (l : LoopLaws ae) (throughput : float.F) (size i n : ℕ) (loop : ae.L)
      → (i + n) * 5 < u64_mod
      → ae.timers (create_connections p throughput size i n loop).1
        ≡ staggered i n ++ ae.timers loop
  unfolding create_connections
  create_connections-staggered l throughput size i zero loop h = refl
  create_connections-staggered l throughput size i (suc n) loop h =
      let m : mul64 i 5 ≡ i * 5 = omega arith in
      create_connections-staggered l throughput size (suc i) n
        (ae.create_time_event loop (mul64 i 5) delayed_initial_connect) (omega arith)
      ∙ ap (λ ts. staggered (suc i) n ++ ts)
          (l.time_timers loop (mul64 i 5) delayed_initial_connect)
      ∙ ap (λ ms. staggered (suc i) n ++ (ms, delayed_initial_connect) ∷ ae.timers loop) m
      ∙ simp append_assoc

  pub create_connections-replicate :
      (throughput : float.F) (size i n : ℕ) (loop : ae.L)
      → (create_connections p throughput size i n loop).0
        ≡ replicate n (create_connection p throughput size)
  unfolding create_connections
  create_connections-replicate throughput size i zero loop = refl
  create_connections-replicate throughput size i (suc n) loop =
      ap (◌∷◌ (create_connection p throughput size))
        (create_connections-replicate throughput size (suc i) n _)

  -- Before the loop of a thread runs, every connection of it has one timer that will connect it,
  -- these timers are 5 milliseconds apart, and `calibrate` and `check_timeouts` come 10 and 2 seconds
  -- after the last of them is due; no other timer is set. All connections have the thread's rate
  -- divided by their number, in requests for a microsecond. The timers' times stay below 2 ^ 64.
  pub thread_main-staggered :
      (l : LoopLaws ae) (throughput : float.F) (size now : ℕ) (t : Thread p)
      → t.connections * 5 + 10_000 < u64_mod
      → let (cs, t') = thread_main p throughput size now t in
        let each =
          float.div (float.div throughput (float.lit 1_000_000 1)) (float.of_u64 t.connections) in
        (cs ≡ replicate t.connections (create_connection p each size))
        × (ae.timers t'.loop
            ≡ (2_000 + t.connections * 5, check_timeouts)
              ∷ (10_000 + t.connections * 5, calibrate)
              ∷ (staggered 0 t.connections ++ ae.timers t.loop))
  unfolding thread_main
  thread_main-staggered l throughput size now t h =
      let k : add64 10_000 (mul64 t.connections 5) ≡ 10_000 + t.connections * 5 = omega arith in
      let c : add64 2_000 (mul64 t.connections 5) ≡ 2_000 + t.connections * 5 = omega arith in
      (
        create_connections-replicate _ size 0 t.connections t.loop,
        l.time_timers _ (add64 2_000 (mul64 t.connections 5)) check_timeouts
            ∙ ap (λ ts. (add64 2_000 (mul64 t.connections 5), check_timeouts) ∷ ts)
                (l.time_timers _ (add64 10_000 (mul64 t.connections 5)) calibrate
                  ∙ ap (λ ts. (add64 10_000 (mul64 t.connections 5), calibrate) ∷ ts)
                      (create_connections-staggered l _ size 0 t.connections t.loop (omega arith)))
            ∙ rw (k, c) refl,
      )
