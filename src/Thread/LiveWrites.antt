-- ===== src/Thread/LiveWrites.antt =====
-- Something will call a handler for the connection again, after `socket_writeable` and
-- `delay_request` of wrk.c.
use wrkx.Prelude.{
  subst, ℕ, suc, ◌≡◌, ◌≢◌, refl, ap, sym, ◌∙◌, ◌⊎◌, inl, inr, Bool-cases, Option, none, some, ◌∷◌,
  ◌==◌, add64, arith,
}
use wrkx.EventLoop.{LoopLaws, socket_writeable, delay_request, writable}
use wrkx.Float.{round_to_ms, to_long_long}
use wrkx.Connection.State.{Connection, Status, ok, error, retry, read_eof}
use wrkx.Connection.Pacing.{usec_to_next_send}
use wrkx.Thread.State.{Platform, Config, State, with_conn, with_loop}
use wrkx.Thread.Socket.{
  Connecting, Writing, sent, written_as, begin_batch, prepare, delay, start_write,
  socket_writeable_with, delay_request_at,
}
use wrkx.Thread.Live.{Live, Accepted, reconnect_socket-Live, Live-with_conn}

-- The timers that are left for a connection when one of them has run: `delay_request` asks the loop
-- to set it again, or not.
abbrev pub left : Option ℕ → ℕ → ℕ
left none j = j
left (some ms) j = suc j

module _ (p : Platform) (l : LoopLaws p.ae) where
  open p use {float, ae}

  -- the write event is taken away, while a timer is set or responses are awaited
  paused-Live :
      (k : ℕ) (s : State p) (loop : ae.L)
      → (k ≢ 0) ⊎ (s.conn.pending ≢ 0)
      → ae.on_readable loop s.conn.fd ≡ ae.on_readable s.thread.loop s.conn.fd
      → ae.on_writable loop s.conn.fd ≡ none
      → Live p l k s
      → Live p l k (with_loop s loop)
  paused-Live k s loop n r w v = record {
    fits = v.fits;
    reads = rw r v.reads;
    writes = inr (inr (w, n));
    busy = v.busy;
  }

  sent-Live :
      (k n : ℕ) (s : State p)
      → s.conn.pending ≢ 0
      → Live p l k s
      → Live p l k (sent p s.conn.fd n s)
  unfolding sent
  sent-Live k n s h v = elim (Bool-cases (add64 s.conn.written n == s.conn.length)) [
    | inl e ↦
        let loop = ae.delete_file_event s.thread.loop s.conn.fd writable in
        rw (e, sent)
          (Live-with_conn p l k (with_loop s loop) _ refl (λ q. q) (λ q. h)
            (paused-Live k s loop (inr h) (l.delete_readable s.thread.loop s.conn.fd writable)
              (l.delete_writable s.thread.loop s.conn.fd writable) v))
    | inr e ↦ rw (e, sent) (Live-with_conn p l k s _ refl (λ q. q) (λ q. h) v)
  ]

  written_as-Live :
      (k : ℕ) (st : Status) (n : ℕ) (a : Connecting) (s : State p)
      → Accepted p l a
      → s.conn.pending ≢ 0
      → Live p l k s
      → Live p l k (written_as p st s.conn.fd n a s)
  unfolding written_as
  written_as-Live k error n a s e h v = reconnect_socket-Live p l k a _ e v.busy
  written_as-Live k retry n a s e h v = v
  written_as-Live k ok n a s e h v = sent-Live k n s h v
  written_as-Live k read_eof n a s e h v = sent-Live k n s h v

  -- the members that the invariant reads
  abbrev pub Begun : Config → ℕ → Connection float.F → Type 0
  Begun cfg now c =
      ((begin_batch p cfg now c).fd ≡ c.fd) × ((begin_batch p cfg now c).pending ≡ cfg.pipeline)

  pub begin_batch-Begun : (cfg : Config) (now : ℕ) (c : Connection float.F) → Begun cfg now c
  unfolding begin_batch
  begin_batch-Begun cfg now c = ground arith

  start_write-Live :
      (k : ℕ) (cfg : Config) (w : Writing) (a : Connecting) (s : State p)
      → Accepted p l a
      → cfg.pipeline ≢ 0
      → Live p l k s
      → Live p l k (start_write p cfg s.conn.fd w a s)
  unfolding start_write prepare
  start_write-Live k cfg w a s e n v =
      let c = begin_batch p cfg w.start_time (prepare p cfg w s.conn) in
      let (fd, pending) = begin_batch-Begun cfg w.start_time (prepare p cfg w s.conn) in
      let awaits : c.pending ≢ 0 = λ z. n (sym pending ∙ z) in
      subst (λ d. Live p l k (written_as p w.status d w.count a (with_conn s c))) fd
        (written_as-Live k w.status w.count a (with_conn s c) e awaits
          (Live-with_conn p l k s c fd (λ q. awaits) (λ q. awaits) v))

  -- the members that `usec_to_next_send` leaves as they were
  pub usec_to_next_send_keeps :
      (now : ℕ) (c : Connection float.F)
      → let c' = (usec_to_next_send float now c).1 in
        (c'.fd ≡ c.fd) × (c'.pending ≡ c.pending) × (c'.written ≡ c.written)
  unfolding usec_to_next_send
  usec_to_next_send_keeps now c = ground arith

  usec_to_next_send-Live :
      (k now : ℕ) (s : State p)
      → Live p l k s
      → Live p l k (with_conn s (usec_to_next_send float now s.conn).1)
  usec_to_next_send-Live k now s v =
      let (fd, pending, written) = usec_to_next_send_keeps now s.conn in
      Live-with_conn p l k s _ fd (λ n z. n (sym pending ∙ z))
        (λ w z. v.busy (λ h. w (written ∙ h)) (sym pending ∙ z)) v

  delay-Live :
      (k usec : ℕ) (s : State p) → k ≢ 0 → Live p l k s → Live p l k (delay p s.conn.fd usec s)
  unfolding delay
  delay-Live k usec s n v =
      let l₁ = ae.delete_file_event s.thread.loop s.conn.fd writable in
      let ms = to_long_long (round_to_ms float usec) in
      paused-Live k s _ (inl n)
        (l.time_readable l₁ ms delay_request s.conn.fd
          ∙ l.delete_readable s.thread.loop s.conn.fd writable)
        (l.time_writable l₁ ms delay_request s.conn.fd
          ∙ l.delete_writable s.thread.loop s.conn.fd writable)
        v

  -- It matters only whether a timer is set.
  pub Live-mono : (k j : ℕ) (s : State p) → (k ≢ 0 → j ≢ 0) → Live p l k s → Live p l j s
  Live-mono k j s f v = record {
    fits = v.fits;
    reads = v.reads;
    writes = elim v.writes [
      | inl x ↦ inl x
      | inr (inl x) ↦ inr (inl x)
      | inr (inr (x, inl n)) ↦ inr (inr (x, inl (f n)))
      | inr (inr (x, inr n)) ↦ inr (inr (x, inr n))
    ];
    busy = v.busy;
  }

  timers-delay :
      (fd usec : ℕ) (s : State p)
      → ae.timers (delay p fd usec s).thread.loop
        ≡ (to_long_long (round_to_ms float usec), delay_request) ∷ ae.timers s.thread.loop
  unfolding delay
  timers-delay fd usec s =
      let ms = to_long_long (round_to_ms float usec) in
      l.time_timers (ae.delete_file_event s.thread.loop fd writable) ms delay_request
      ∙ ap (λ x. (ms, delay_request) ∷ x) (l.delete_timers s.thread.loop fd writable)

  -- A call of `socket_writeable` needs no timer, or has set one.
  pub socket_writeable-Live :
      (k : ℕ) (cfg : Config) (w : Writing) (a : Connecting) (s : State p)
      → Accepted p l a
      → cfg.pipeline ≢ 0
      → Live p l k s
      → let s' = socket_writeable_with p cfg s.conn.fd w a s in
        Live p l k s'
        ⊎ (Live p l (suc k) s'
            × ((ms : ℕ) × (ae.timers s'.thread.loop
                  ≡ (ms, delay_request) ∷ ae.timers s.thread.loop)))
  unfolding socket_writeable_with
  socket_writeable-Live k cfg w a s e n v = elim (Bool-cases (s.conn.written == 0)) [
    | inr x ↦
        rw (x, socket_writeable_with)
          (inl (written_as-Live k w.status w.count a s e (v.busy (ground arith)) v))
    | inl x ↦
        let (usec, c) = usec_to_next_send float w.now s.conn in
        let u = usec_to_next_send-Live k w.now s v in
        let fd = (usec_to_next_send_keeps w.now s.conn).0 in
        elim (Bool-cases (usec == 0)) [
          | inl y ↦
              rw (x, y, socket_writeable_with)
                (inl (
                  subst (λ d. Live p l k (start_write p cfg d w a (with_conn s c))) fd
                    (start_write-Live k cfg w a (with_conn s c) e n u)))
          | inr y ↦
              rw (x, y, socket_writeable_with)
                (inr (
                  subst (λ d. Live p l (suc k) (delay p d usec (with_conn s c))) fd
                      (delay-Live (suc k) usec (with_conn s c) (λ z. omega arith)
                        (Live-mono k (suc k) (with_conn s c) (λ h z. omega arith) u)),
                  (
                    to_long_long (round_to_ms float usec),
                    timers-delay s.conn.fd usec (with_conn s c),
                  ),
                ))
        ]
  ]

  pub delay_request-Live :
      (j now : ℕ) (s : State p)
      → Live p l (suc j) s
      → let (again, s') = delay_request_at p now s in Live p l (left again j) s'
  unfolding delay_request_at
  delay_request-Live j now s v =
      let (usec, c) = usec_to_next_send float now s.conn in
      let u = usec_to_next_send-Live (suc j) now s v in
      let fd = (usec_to_next_send_keeps now s.conn).0 in
      elim (Bool-cases (usec == 0)) [
        | inl y ↦
            rw (y, delay_request_at)
              (record {
                fits = u.fits;
                reads =
                    rw (l.create_readable s.thread.loop c.fd writable socket_writeable u.fits)
                      u.reads;
                writes =
                    inr
                      (inl (l.create_writable s.thread.loop c.fd writable socket_writeable u.fits));
                busy = u.busy;
              })
        | inr y ↦ rw (y, delay_request_at) u
      ]
