-- ===== src/Thread/Stale.antt =====
-- A timer of `delay_request` that outlives its connection (wrk.c: `socket_writeable`,
-- `socket_readable`, `reconnect_socket`, `delay_request`).
use wrkx.Prelude.{
  ℕ, ◌+◌, ◌^◌, ◌≤◌, ◌≡◌, ◌≢◌, refl, ap, ◌∙◌, true, false, some, none, List, ◌∷◌, ◌==◌, ==_iff,
  arith,
}
use wrkx.Buffer.Defs.{Realloc}
use wrkx.Float.{Laws, round_to_ms, to_long_long}
use wrkx.EventLoop.{LoopLaws, socket_connected, socket_writeable, delay_request, writable, both}
use wrkx.Connection.State.{Connection, error}
use wrkx.Connection.Pacing.{usec_to_next_send, fall_behind, decide}
use wrkx.Connection.Schedule.{wait_then_send}
use wrkx.Thread.State.{Platform, Config, State, with_conn}
use wrkx.Thread.Socket.{
  Connecting, Writing, connect_socket, reconnect_socket, delay, socket_writeable_with,
  delay_request_at,
}
use wrkx.Thread.Completion.{Reading, readable_loop, read_failed, switch_read}
use wrkx.Thread.Arming.{connect_socket-watched, fd-usec_to_next_send}
use wrkx.Thread.Live.{Accepted}

module _ (p : Platform) (l : LoopLaws p.ae) (libc : Realloc) (cfg : Config) where
  open p use {float, ae}

  -- The plan of a connection does not depend on its descriptor.
  renewed_plan :
      (now fd latest : ℕ) (c : Connection float.F)
      → (usec_to_next_send float now (record c { fd = fd; latest_connect = latest })).0
        ≡ (usec_to_next_send float now c).0
  unfolding usec_to_next_send fall_behind decide
  renewed_plan now fd latest c = ground arith

  connect_socket-conn :
      (a : Connecting) (s : State p)
      → Accepted p l a
      → (connect_socket p a s).conn ≡ record (s.conn) { fd = a.fd; latest_connect = a.now }
  unfolding connect_socket
  connect_socket-conn a s (e, f) =
      rw (e, l.create_ok s.thread.loop a.fd both socket_connected f, connect_socket) refl

  connect_socket-timers :
      (a : Connecting) (s : State p)
      → Accepted p l a
      → ae.timers (connect_socket p a s).thread.loop ≡ ae.timers s.thread.loop
  unfolding connect_socket
  connect_socket-timers a s (e, f) =
      rw (e, l.create_ok s.thread.loop a.fd both socket_connected f, connect_socket)
        (l.create_timers s.thread.loop a.fd both socket_connected)

  -- the state when the timer was set and the connection renewed
  abbrev pub renewed : ℕ → Connecting → State p → State p
  renewed now b s =
      let (usec, c) = usec_to_next_send float now s.conn in
      read_failed p libc cfg b (delay p s.conn.fd usec (with_conn s c))

  waits :
      (w : Writing) (a b : Connecting) (r : Reading) (rs : List Reading) (s : State p)
      → s.conn.written ≡ 0
      → (usec_to_next_send float w.now s.conn).0 ≢ 0
      → r.status ≡ error
      → readable_loop p libc cfg b (r ∷ rs) (socket_writeable_with p cfg s.conn.fd w a s)
        ≡ some (renewed w.now b s)
  unfolding readable_loop socket_writeable_with switch_read
  waits w a b r rs s z n e =
      let fresh : (s.conn.written == 0) ≡ true = (==_iff _ 0).1 z in
      let wait : ((usec_to_next_send float w.now s.conn).0 == 0) ≡ false = ground arith in
      rw (e, fresh, wait, socket_writeable_with) refl

  delay-timers :
      (fd usec : ℕ) (s : State p)
      → ae.timers (delay p fd usec s).thread.loop
        ≡ (to_long_long (round_to_ms float usec), delay_request) ∷ ae.timers s.thread.loop
  unfolding delay
  delay-timers fd usec s = rw (l.time_timers, l.delete_timers) refl

  renewed-timers :
      (now : ℕ) (b : Connecting) (s : State p)
      → Accepted p l b
      → ae.timers (renewed now b s).thread.loop
        ≡ (to_long_long (round_to_ms float (usec_to_next_send float now s.conn).0), delay_request)
          ∷ ae.timers s.thread.loop
  unfolding read_failed reconnect_socket
  renewed-timers now b s ok =
      let (usec, c) = usec_to_next_send float now s.conn in
      connect_socket-timers b _ ok
      ∙ l.delete_timers _ _ both
      ∙ delay-timers s.conn.fd usec (with_conn s c)

  -- A timer that runs when a request is due takes the write event.
  taken :
      (now : ℕ) (s : State p) (fd : ℕ)
      → s.conn.fd ≡ fd
      → l.fits fd ≡ true
      → (usec_to_next_send float now s.conn).0 ≡ 0
      → let (again, s') = delay_request_at p now s in
        (again ≡ none)
        × (ae.on_readable s'.thread.loop fd ≡ ae.on_readable s.thread.loop fd)
        × (ae.on_writable s'.thread.loop fd ≡ some socket_writeable)
  unfolding delay_request_at
  taken now s fd q f z =
      let same = fd-usec_to_next_send p l now s.conn ∙ q in
      rw ((==_iff _ 0).1 z, delay_request_at, same)
        (
          refl,
          l.create_readable s.thread.loop fd writable socket_writeable f,
          l.create_writable s.thread.loop fd writable socket_writeable f,
        )

  -- A timer outlives its connection: `socket_writeable` finds that a request is not yet due and sets
  -- a timer, then a read fails and the system accepts the renewed connection, which is watched by
  -- `socket_connected`. When the timer runs, once the wait is over, it takes the write event from
  -- `socket_connected`, which has not run for the new descriptor; only the read event still calls
  -- that. The laws of the arithmetic are those of the pacing, the catch-up rate is positive, and the
  -- times are below 2 ^ 53 microseconds.
  pub stale_timer :
      (f : Laws float) (w : Writing) (a b : Connecting) (r : Reading) (rs : List Reading)
      (later : ℕ) (s : State p)
      → Accepted p l b
      → s.conn.written ≡ 0
      → (usec_to_next_send float w.now s.conn).0 ≢ 0
      → r.status ≡ error
      → f.Positive s.conn.catch_up_throughput
      → later ≤ 2 ^ 53
      → w.now + (usec_to_next_send float w.now s.conn).0 ≤ later
      → (s₂ : State p) × (readable_loop p libc cfg b
            (r ∷ rs)
            (socket_writeable_with p cfg s.conn.fd w a s)
          ≡ some s₂)
        × (s₂.conn.fd ≡ b.fd)
        × (ae.timers s₂.thread.loop
            ≡ (
              to_long_long (round_to_ms float (usec_to_next_send float w.now s.conn).0),
              delay_request,
            )
              ∷ ae.timers s.thread.loop)
        × (ae.on_readable s₂.thread.loop b.fd ≡ some socket_connected)
        × (ae.on_writable s₂.thread.loop b.fd ≡ some socket_connected)
        × ((delay_request_at p later s₂).0 ≡ none)
        × (ae.on_readable (delay_request_at p later s₂).1.thread.loop b.fd ≡ some socket_connected)
        × (ae.on_writable (delay_request_at p later s₂).1.thread.loop b.fd ≡ some socket_writeable)
  unfolding read_failed reconnect_socket delay
  stale_timer f w a b r rs later s ok z n e pos small passed =
      let (refused, fits) = ok in
      let s₂ = renewed w.now b s in
      let c = (usec_to_next_send float w.now s.conn).1 in
      let (fd, x, y, _) = connect_socket-watched p l b _ refused fits in
      let conn : s₂.conn ≡ record c { fd = b.fd; latest_connect = b.now } =
        connect_socket-conn b _ ok in
      let due : (usec_to_next_send float later s₂.conn).0 ≡ 0 =
        ap (λ q. (usec_to_next_send float later q).0) conn
        ∙ renewed_plan later b.fd b.now c
        ∙ wait_then_send float f w.now later s.conn pos small n passed in
      let (done, u, v) = taken later s₂ b.fd fd fits due in
      (s₂, waits w a b r rs s z n e, fd, renewed-timers w.now b s ok, x, y, done, u ∙ x, v)
