-- ===== src/Thread/Arming.antt =====
-- What the event loop will call next for a connection (wrk.c: `connect_socket`,
-- `reconnect_socket`, `socket_writeable`, `delay_request`).
use wrkx.Prelude.{
  ℕ, ◌≡◌, ◌≢◌, refl, ap, ◌∙◌, inl, inr, true, false, Bool-cases, none, some, ◌∷◌, ◌==◌, add32,
  add64, arith,
}
use wrkx.Float.{round_to_ms, to_long_long}
use wrkx.EventLoop.{LoopLaws, socket_connected, delay_request, writable, both}
use wrkx.Connection.State.{Connection, Status, ok, error, retry, read_eof}
use wrkx.Connection.Pacing.{usec_to_next_send}
use wrkx.Thread.State.{Platform, Config, State, with_conn}
use wrkx.Thread.Socket.{
  Connecting, Writing, connect_socket, reconnect_socket, sent, written_as, begin_batch, prepare,
  delay, start_write, socket_writeable_with,
}

module _ (p : Platform) (l : LoopLaws p.ae) where
  open p use {float, ae}

  -- what the loop calls for the descriptor of the handler
  abbrev ReadsBy : ℕ → State p → State p → Type 0
  ReadsBy fd s s' = ae.on_readable s'.thread.loop fd ≡ ae.on_readable s.thread.loop fd

  -- A connection that the system accepts is watched by `socket_connected`, for reading and for
  -- writing, under its new descriptor, and no error is counted. The descriptor fits the loop.
  pub connect_socket-watched :
      (a : Connecting) (s : State p)
      → a.refused ≡ false
      → l.fits a.fd ≡ true
      → let s' = connect_socket p a s in
        (s'.conn.fd ≡ a.fd)
        × (ae.on_readable s'.thread.loop a.fd ≡ some socket_connected)
        × (ae.on_writable s'.thread.loop a.fd ≡ some socket_connected)
        × (s'.thread.errors ≡ s.thread.errors)
  unfolding connect_socket
  connect_socket-watched a s e f = ground (
    arith,
    l.create_ok s.thread.loop a.fd both socket_connected f,
    l.create_readable s.thread.loop a.fd both socket_connected f,
    l.create_writable s.thread.loop a.fd both socket_connected f,
  )

  -- A renewed `connect` that the system refuses counts an error and leaves the descriptor without
  -- file events; the connection's members and the timers stay.
  pub reconnect_refused :
      (a : Connecting) (s : State p)
      → a.refused ≡ true
      → let s' = reconnect_socket p a s in
        (ae.on_readable s'.thread.loop s.conn.fd ≡ none)
        × (ae.on_writable s'.thread.loop s.conn.fd ≡ none)
        × (ae.timers s'.thread.loop ≡ ae.timers s.thread.loop)
        × (s'.thread.errors.connect ≡ add32 s.thread.errors.connect 1)
        × (s'.conn ≡ s.conn)
  unfolding reconnect_socket connect_socket
  reconnect_refused a s e = ground (
    arith,
    l.delete_readable s.thread.loop s.conn.fd both,
    l.delete_writable s.thread.loop s.conn.fd both,
    l.delete_timers s.thread.loop s.conn.fd both,
  )

  pub fd-usec_to_next_send :
      (now : ℕ) (c : Connection float.F) → (usec_to_next_send float now c).1.fd ≡ c.fd
  unfolding usec_to_next_send
  fd-usec_to_next_send now c = ground arith

  -- What one call of `socket_writeable` leaves in the loop: the write event as it was (the request
  -- is written in part), or none while the responses are awaited, or none until a timer.
  pub data Armed (fd : ℕ) (s s' : State p) : Type 0 where
    still_armed : ae.on_writable s'.thread.loop fd ≡ ae.on_writable s.thread.loop fd → Armed fd s s'
    awaiting :
        ae.on_writable s'.thread.loop fd ≡ none
        → s'.conn.written ≡ 0
        → s'.conn.has_pending ≡ true
        → Armed fd s s'
    timer_set :
        ae.on_writable s'.thread.loop fd ≡ none
        → (usec : ℕ) → usec ≢ 0
        → ae.timers s'.thread.loop
          ≡ (to_long_long (round_to_ms float usec), delay_request) ∷ ae.timers s.thread.loop
        → Armed fd s s'

  sent-Armed :
      (fd n : ℕ) (s : State p)
      → s.conn.has_pending ≡ true
      → Armed fd s (sent p fd n s) × ReadsBy fd s (sent p fd n s)
  unfolding sent
  sent-Armed fd n s h = elim (Bool-cases (add64 s.conn.written n == s.conn.length)) [
    | inl e ↦
        rw (e, sent)
          (
            awaiting (l.delete_writable s.thread.loop fd writable) refl h,
            l.delete_readable s.thread.loop fd writable,
          )
    | inr e ↦ rw (e, sent) (still_armed refl, refl)
  ]

  written_as-Armed :
      (st : Status) (fd n : ℕ) (a : Connecting) (s : State p)
      → st ≢ error
      → s.conn.has_pending ≡ true
      → Armed fd s (written_as p st fd n a s) × ReadsBy fd s (written_as p st fd n a s)
  unfolding written_as
  written_as-Armed error fd n a s ne h = absurd (ne refl)
  written_as-Armed retry fd n a s ne h = (still_armed refl, refl)
  written_as-Armed ok fd n a s ne h = sent-Armed fd n s h
  written_as-Armed read_eof fd n a s ne h = sent-Armed fd n s h

  -- `Armed` reads no more of the state before than its loop.
  Armed-from :
      (fd : ℕ) (s r s' : State p)
      → r.thread.loop ≡ s.thread.loop
      → Armed fd r s' × ReadsBy fd r s'
      → Armed fd s s' × ReadsBy fd s s'
  Armed-from fd s r s' e (still_armed w, k) =
      (still_armed (w ∙ ap (λ x. ae.on_writable x fd) e), k ∙ ap (λ x. ae.on_readable x fd) e)
  Armed-from fd s r s' e (awaiting w z h, k) = (awaiting w z h, k ∙ ap (λ x. ae.on_readable x fd) e)
  Armed-from fd s r s' e (timer_set w u n t, k) = (
    timer_set w u n
        (t ∙ ap (λ x. (to_long_long (round_to_ms float u), delay_request) ∷ ae.timers x) e),
    k ∙ ap (λ x. ae.on_readable x fd) e,
  )

  begin_batch-pending :
      (cfg : Config) (now : ℕ) (c : Connection float.F)
      → (begin_batch p cfg now c).has_pending ≡ true
  unfolding begin_batch
  begin_batch-pending cfg now c = ground arith

  start_write-Armed :
      (cfg : Config) (fd : ℕ) (w : Writing) (a : Connecting) (s : State p)
      → w.status ≢ error
      → Armed fd s (start_write p cfg fd w a s) × ReadsBy fd s (start_write p cfg fd w a s)
  unfolding start_write
  start_write-Armed cfg fd w a s ne =
      let c = begin_batch p cfg w.start_time (prepare p cfg w s.conn) in
      Armed-from fd s (with_conn s c) _ refl (
        written_as-Armed w.status fd w.count a (with_conn s c) ne
          (begin_batch-pending cfg w.start_time (prepare p cfg w s.conn)))

  delay-Armed :
      (fd usec : ℕ) (s : State p)
      → usec ≢ 0
      → Armed fd s (delay p fd usec s) × ReadsBy fd s (delay p fd usec s)
  unfolding delay
  delay-Armed fd usec s ne =
      let l₁ = ae.delete_file_event s.thread.loop fd writable in
      let ms = to_long_long (round_to_ms float usec) in
      (
        timer_set
            (l.time_writable l₁ ms delay_request fd ∙ l.delete_writable s.thread.loop fd writable)
            usec ne
            (l.time_timers l₁ ms delay_request
              ∙ ap (λ x. (ms, delay_request) ∷ x) (l.delete_timers s.thread.loop fd writable)),
        l.time_readable l₁ ms delay_request fd ∙ l.delete_readable s.thread.loop fd writable,
      )

  -- `socket_writeable` never forgets a connection: unless writing fails, it leaves the read handler
  -- alone, and the connection is still armed to write, or its request is sent whole and its
  -- responses are awaited, or a timer of `delay_request` is set. In the middle of a request the
  -- connection has responses pending.
  pub socket_writeable-Armed :
      (cfg : Config) (fd : ℕ) (w : Writing) (a : Connecting) (s : State p)
      → w.status ≢ error
      → (s.conn.written ≢ 0 → s.conn.has_pending ≡ true)
      → let s' = socket_writeable_with p cfg fd w a s in
        Armed fd s s' × (ae.on_readable s'.thread.loop fd ≡ ae.on_readable s.thread.loop fd)
  unfolding socket_writeable_with
  socket_writeable-Armed cfg fd w a s ne busy = elim (Bool-cases (s.conn.written == 0)) [
    | inr e ↦
        rw (e, socket_writeable_with)
          (written_as-Armed w.status fd w.count a s ne (busy (ground arith)))
    | inl e ↦
        let c = (usec_to_next_send float w.now s.conn).1 in
        elim (Bool-cases ((usec_to_next_send float w.now s.conn).0 == 0)) [
          | inl y ↦
              rw (e, y, socket_writeable_with)
                (Armed-from fd s (with_conn s c) _ refl
                  (start_write-Armed cfg fd w a (with_conn s c) ne))
          | inr n ↦
              rw (e, n, socket_writeable_with)
                (Armed-from fd s (with_conn s c) _ refl (
                  delay-Armed fd (usec_to_next_send float w.now s.conn).0 (with_conn s c)
                    (ground arith)))
        ]
  ]
