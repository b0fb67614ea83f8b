-- ===== src/Start/Totals.antt =====
-- What `main` starts in all and what it adds up (wrk.c).
use wrkx.Prelude.{
  ℕ, ◌+◌, ◌*◌, ◌/◌, ◌%◌, ◌<◌, ◌≡◌, ap, ◌∙◌, List, [], ◌∷◌, length, u64_mod, u32_mod, arith,
  length-replicate,
}
use wrkx.Thread.State.{Platform, Thread}
use wrkx.Start.Defs.{Load, create_thread, thread_main, Totals, add_thread, add_threads}
use wrkx.Start.Connects.{create_connections-replicate}

module _ (p : Platform) where
  open p use {float, ae, hdr}

  -- the sum of a member over the threads
  abbrev pub total : (Thread p → ℕ) → List (Thread p) → ℕ
  total member [] = 0
  total member (t ∷ ts) = member t + total member ts

  -- Whatever totals `main` has so far, the threads add to each of them the sum of their own counts,
  -- requests and bytes modulo 2 ^ 64, and every kind of error modulo 2 ^ 32.
  pub add_threads-total :
      (ts : List (Thread p)) (s : Totals p)
      → s.complete < u64_mod
      → s.bytes < u64_mod
      → s.errors.connect < u32_mod
      → s.errors.read < u32_mod
      → s.errors.write < u32_mod
      → s.errors.status < u32_mod
      → s.errors.timeout < u32_mod
      → let s' = add_threads p ts s in
        (s'.complete ≡ (s.complete + total (λ t. t.complete) ts) % u64_mod)
        × (s'.bytes ≡ (s.bytes + total (λ t. t.bytes) ts) % u64_mod)
        × (s'.errors.connect ≡ (s.errors.connect + total (λ t. t.errors.connect) ts) % u32_mod)
        × (s'.errors.read ≡ (s.errors.read + total (λ t. t.errors.read) ts) % u32_mod)
        × (s'.errors.write ≡ (s.errors.write + total (λ t. t.errors.write) ts) % u32_mod)
        × (s'.errors.status ≡ (s.errors.status + total (λ t. t.errors.status) ts) % u32_mod)
        × (s'.errors.timeout ≡ (s.errors.timeout + total (λ t. t.errors.timeout) ts) % u32_mod)
  unfolding add_threads add_thread
  add_threads-total [] s a b c d e f g =
      (omega arith, omega arith, omega arith, omega arith, omega arith, omega arith, omega arith)
  add_threads-total (t ∷ ts) s a b c d e f g =
      let (q, r, u, v, w, x, y) =
        add_threads-total ts (add_thread p t s) (omega arith) (omega arith) (omega arith)
          (omega arith) (omega arith) (omega arith) (omega arith) in
      (omega arith, omega arith, omega arith, omega arith, omega arith, omega arith, omega arith)

  -- All threads together open the connections asked for less the remainder of their division by the
  -- number of threads: up to one less than there are threads are never opened. There is a thread.
  pub connections-opened :
      (cfg : Load) (throughput : float.F) (size start now : ℕ) (loop : ae.L) (empty : hdr.H)
      → 0 < cfg.threads
      → let (cs, _) = thread_main p throughput size now (create_thread p cfg start loop empty) in
        cfg.threads * length cs + cfg.connections % cfg.threads ≡ cfg.connections
  unfolding thread_main create_thread
  connections-opened cfg throughput size start now loop empty h =
      let n = cfg.connections / cfg.threads in
      let e : length (thread_main p throughput size now (create_thread p cfg start loop empty)).0
          ≡ n =
        ap length (create_connections-replicate p _ size 0 n loop) ∙ length-replicate n _ in
      rw e (grind arith)
