-- ===== src/Thread/Idle.antt =====
-- No connection of a thread is left idle (wrk.c).
use wrkx.Prelude.{
  ℕ, ◌≡◌, ◌≢◌, ap, sym, ◌∙◌, Bool, true, false, Bool-cases, inl, inr, some, List, ◌==◌, ==_iff,
  arith, sub64, ◌/◌, subst, >>=-eq-some, some_value,
}
use wrkx.Buffer.Defs.{Realloc}
use wrkx.EventLoop.{LoopLaws, sample_rate, socket_connected, both}
use wrkx.Connection.State.{Connection}
use wrkx.Stats.Defs.{Stats, stats_record}
use wrkx.Thread.State.{Platform, Config, Thread, State}
use wrkx.Thread.Socket.{Connecting, delayed_initial_connect, connect_socket}
use wrkx.Thread.Timers.{calibrate_at, check_timeouts_at, sample_rate_at, sampling_interval, rate}
use wrkx.Thread.Live.{Live, Accepted, connect_socket-Live}
use wrkx.Thread.Turns.{Call-Live, Call-Away}
use wrkx.Thread.World.{
  waiting, started, World, view, put, Move, starts, calls, calibrates, checks, samples, Moves, here,
  next, Watched,
}

ne_of_false : (j i : ℕ) → (j == i) ≡ false → j ≢ i
ne_of_false j i e z = let h : (j == i) ≡ true = (==_iff j i).1 z in absurd cc

started_same : {k m : ℕ} → started k ≡ started m → k ≡ m
started_same e = cc

module _ (p : Platform) (l : LoopLaws p.ae) where
  open p use {float, ae, hdr}

  -- another thread state, in which the loop calls the same handlers for the connection
  Live-thread :
      (k : ℕ) (s : State p) (t : Thread p)
      → ae.on_readable t.loop s.conn.fd ≡ ae.on_readable s.thread.loop s.conn.fd
      → ae.on_writable t.loop s.conn.fd ≡ ae.on_writable s.thread.loop s.conn.fd
      → Live p l k s
      → Live p l k (record s { thread = t })
  Live-thread k s t r w v = record {
    fits = v.fits;
    reads = rw r v.reads;
    writes = rw w v.writes;
    busy = v.busy;
  }

  Watched-thread :
      (w : World p) (t : Thread p)
      → ((fd : ℕ) → ae.on_readable t.loop fd ≡ ae.on_readable w.thread.loop fd)
      → ((fd : ℕ) → ae.on_writable t.loop fd ≡ ae.on_writable w.thread.loop fd)
      → Watched p l w
      → Watched p l (record w { thread = t })
  Watched-thread w t r q v = record {
    live = λ j k e.
        Live-thread k (view p l w j) t (r (w.slots j).conn.fd) (q (w.slots j).conn.fd)
          (v.live j k e);
    unwritten = v.unwritten;
    apart = v.apart;
  }

  -- what a handler of another connection leaves for connection `j`
  abbrev Apart : World p → State p → ℕ → Type 0
  Apart w s' j =
      (ae.on_readable s'.thread.loop (w.slots j).conn.fd
        ≡ ae.on_readable w.thread.loop (w.slots j).conn.fd)
      × (ae.on_writable s'.thread.loop (w.slots j).conn.fd
          ≡ ae.on_writable w.thread.loop (w.slots j).conn.fd)
      × (s'.conn.fd ≢ (w.slots j).conn.fd)

  put-Watched :
      (w : World p) (i k' : ℕ) (s' : State p)
      → Live p l k' s'
      → ((j m : ℕ) → j ≢ i → (w.slots j).phase ≡ started m → Apart w s' j)
      → Watched p l w
      → Watched p l (put p l w i (started k') s')
  put-Watched w i k' s' u others v = record {
    live = λ j k e. elim (Bool-cases (j == i)) [
      | inl q ↦ rw q (subst (λ n. Live p l n s') (started_same (rw q at e)) u)
      | inr q ↦
          let e' = rw q at e in
          let (r, x, n) = others j k (ne_of_false j i q) e' in
          rw q (Live-thread k (view p l w j) s'.thread r x (v.live j k e'))
    ];
    unwritten = λ j e. elim (Bool-cases (j == i)) [
      | inl q ↦ absurd (let e' = rw q at e in cc)
      | inr q ↦ rw q (v.unwritten j (rw q at e))
    ];
    apart = λ j m k n ne e f. elim (Bool-cases (j == i)) [
      | inl q ↦ elim (Bool-cases (m == i)) [
        | inl r ↦ absurd (ne ((==_iff j i).0 q ∙ sym ((==_iff m i).0 r)))
        | inr r ↦ rw (q, r) (others m n (ne_of_false m i r) (rw r at f)).2
      ]
      | inr q ↦ elim (Bool-cases (m == i)) [
        | inl r ↦ rw (q, r) (λ z. (others j k (ne_of_false j i q) (rw q at e)).2 (sym z))
        | inr r ↦ rw (q, r) (v.apart j m k n ne (rw q at e) (rw r at f))
      ]
    ];
  }

  starts-Apart :
      (now : ℕ) (a : Connecting) (s : State p) (fd : ℕ)
      → Accepted p l a
      → a.fd ≢ fd
      → let s' = delayed_initial_connect p now a s in
        (ae.on_readable s'.thread.loop fd ≡ ae.on_readable s.thread.loop fd)
        × (ae.on_writable s'.thread.loop fd ≡ ae.on_writable s.thread.loop fd)
        × (s'.conn.fd ≢ fd)
  unfolding delayed_initial_connect connect_socket
  starts-Apart now a s fd (e, f) n =
      rw (e, l.create_ok s.thread.loop a.fd both socket_connected f, connect_socket)
        (
          l.create_readable_other s.thread.loop a.fd both socket_connected fd n,
          l.create_writable_other s.thread.loop a.fd both socket_connected fd n,
          n,
        )

  delayed_initial_connect-Live :
      (now : ℕ) (a : Connecting) (s : State p)
      → Accepted p l a
      → s.conn.written ≡ 0
      → Live p l 0 (delayed_initial_connect p now a s)
  unfolding delayed_initial_connect
  delayed_initial_connect-Live now a s x z = connect_socket-Live p l 0 a _ x (λ h. absurd (h z))

  calibrates-Watched :
      (w : World p) (now : ℕ)
      → Watched p l w
      → Watched p l (record w { thread = (calibrate_at p now w.thread).1 })
  unfolding calibrate_at
  calibrates-Watched w now v =
      let t = w.thread in
      let q = hdr.value_at_percentile t.latency_histogram (float.lit 90 1) in
      let ms = float.to_u64 (sampling_interval p q) in
      elim (Bool-cases (float.is_zero (hdr.mean t.latency_histogram))) [
        | inl z ↦ rw (z, calibrate_at) v
        | inr z ↦
            rw (z, calibrate_at)
              (Watched-thread w _ (λ fd. l.time_readable t.loop ms sample_rate fd)
                (λ fd. l.time_writable t.loop ms sample_rate fd) v)
      ]

  checks-Watched :
      (w : World p) (cfg : Config) (stop : Bool) (now : ℕ) (cs : List (Connection float.F))
      → Watched p l w
      → Watched p l (record w { thread = (check_timeouts_at p cfg stop now cs w.thread).1 })
  unfolding check_timeouts_at
  checks-Watched w cfg stop now cs v =
      Watched-thread w _ (λ fd. ground (arith, l.stop_readable w.thread.loop fd))
        (λ fd. ground (arith, l.stop_writable w.thread.loop fd)) v

  loop-sample_rate :
      (hdr_record_value : hdr.H → ℕ → hdr.H) (now later ms : ℕ) (r r' : Stats hdr.H)
      (t t' : Thread p)
      → sample_rate_at p hdr_record_value now later (r, t) ≡ some (ms, r', t')
      → t'.loop ≡ t.loop
  unfolding sample_rate_at
  loop-sample_rate hdr_record_value now later ms r r' t t' e =
      let (x, d, q) =
        >>=-eq-some (stats_record hdr_record_value r (rate p t.requests (sub64 now t.start / 1000)))
          _ e in
      ap (λ (y : ℕ × Stats hdr.H × Thread p). y.2.loop) (sym (some_value q))

  Move-Watched :
      (libc : Realloc) (cfg : Config) (w w' : World p)
      → cfg.pipeline ≢ 0
      → Move p l libc cfg w w'
      → Watched p l w
      → Watched p l w'
  Move-Watched libc cfg w _ n (starts i now a h (x, fresh)) v =
      put-Watched w i 0 (delayed_initial_connect p now a (view p l w i))
        (delayed_initial_connect-Live now a (view p l w i) x (v.unwritten i h))
        (λ j m ne e. starts-Apart now a (view p l w i) (w.slots j).conn.fd x (fresh j m ne e)) v
  Move-Watched libc cfg w _ n (calls i k k' s' h c) v =
      put-Watched w i k' s' (Call-Live p l libc cfg n (λ a f. f.0) c (v.live i k h))
        (λ j m ne e.
          let fd = (w.slots j).conn.fd in
          let away = Call-Away p l libc cfg fd (λ a f. f.1 j m ne e) c in
          let apart = v.apart i j k m (λ z. ne (sym z)) h e in
          (away.reads apart, away.writes apart, away.apart apart))
        v
  Move-Watched libc cfg w _ n (calibrates now) v = calibrates-Watched w now v
  Move-Watched libc cfg w _ n (checks stop now cs) v = checks-Watched w cfg stop now cs v
  Move-Watched libc cfg w _ n (samples f now later ms r r' t e) v =
      let q = loop-sample_rate f now later ms r r' w.thread t e in
      Watched-thread w t (λ fd. ap (λ x. ae.on_readable x fd) q)
        (λ fd. ap (λ x. ae.on_writable x fd) q) v

  Moves-Watched :
      (libc : Realloc) (cfg : Config) (w w' : World p)
      → cfg.pipeline ≢ 0
      → Moves p l libc cfg w w'
      → Watched p l w
      → Watched p l w'
  Moves-Watched libc cfg w _ n here v = v
  Moves-Watched libc cfg w w' n (next {v = u} r m) v =
      Move-Watched libc cfg u w' n m (Moves-Watched libc cfg w u n r v)

  -- From a thread on whose connections all wait for their first timer, whatever the handlers and the
  -- timers of the thread meet and in whatever order the loop calls them: no connection that was
  -- started is idle, and no two have the same descriptor. The loop has a handler for the reading of
  -- each, and one for its writing, or a timer of `delay_request` is set for it, or it awaits
  -- responses. It rests on a system that accepts each connection and gives it a descriptor that no
  -- other one has, on at least one request in a batch, and on servers whose responses do not end
  -- before the request is sent whole.
  pub never_idle :
      (libc : Realloc) (cfg : Config) (w w' : World p)
      → cfg.pipeline ≢ 0
      → ((j : ℕ) → (w.slots j).phase ≡ waiting)
      → ((j : ℕ) → (w.slots j).conn.written ≡ 0)
      → Moves p l libc cfg w w'
      → Watched p l w'
  never_idle libc cfg w w' n h z r = Moves-Watched libc cfg w w' n r (record {
    live = λ j k e. absurd (let q = h j in cc);
    unwritten = λ j e. z j;
    apart = λ i j k m ne e f. absurd (let q = h i in cc);
  })
