-- ===== src/Thread/Socket.antt =====
-- wrk.c: `connect_socket`, `reconnect_socket`, `delayed_initial_connect`, `socket_connected`,
-- `socket_writeable`, `delay_request`. What the system and the transport answer in a call is an
-- argument.
use wrkx.Prelude.{ℕ, Bool, true, Option, none, some, ◌==◌, if◌then◌else◌, add64}
use wrkx.Float.{round_to_ms, to_long_long}
use wrkx.EventLoop.{
  socket_connected, socket_writeable, socket_readable, delay_request, readable, writable, both,
}
use wrkx.Connection.State.{Connection, Status, error, retry}
use wrkx.Connection.Pacing.{usec_to_next_send}
use wrkx.Thread.State.{
  Platform, Config, State, count_connect, count_write, with_loop, with_errors, with_conn,
}

-- What the system answers to `connect_socket`: the new descriptor, whether `connect` failed with
-- another error than EINPROGRESS, and the clock.
pub record Connecting : Type 0 where
  pub fd : ℕ
  pub refused : Bool
  pub now : ℕ

-- What `socket_writeable` meets: the clock's three readings, the length of the request that a
-- dynamic script makes, and what `sock.write` returns and writes.
pub record Writing : Type 0 where
  pub now : ℕ
  pub write_time : ℕ
  pub start_time : ℕ
  pub request_length : ℕ
  pub status : Status
  pub count : ℕ

module _ (p : Platform) where
  open p use {float, ae}

  -- the label `error` of `connect_socket`
  abbrev pub connect_failed : State p → State p
  connect_failed s = with_errors s (count_connect s.thread.errors)

  unfoldable pub connect_socket : Connecting → State p → State p
  connect_socket a s =
      if a.refused
      then connect_failed s
      else (let s' = with_conn s (record (s.conn) { latest_connect = a.now }) in
          let (created, l) = ae.create_file_event s.thread.loop a.fd both socket_connected in
          if created
          then with_conn (with_loop s' l) (record (s'.conn) { fd = a.fd })
          else connect_failed (with_loop s' l))

  unfoldable pub reconnect_socket : Connecting → State p → State p
  unfolding connect_socket
  reconnect_socket a s =
      connect_socket a (with_loop s (ae.delete_file_event s.thread.loop s.conn.fd both))

  unfoldable pub delayed_initial_connect : ℕ → Connecting → State p → State p
  unfolding connect_socket
  delayed_initial_connect now a s =
      connect_socket a (with_conn s (record (s.conn) { thread_start = now }))

  -- `switch (sock.connect(c, cfg.host))` and what follows it
  unfoldable pub socket_connected_as : Status → ℕ → Connecting → State p → State p
  unfolding reconnect_socket
  socket_connected_as error fd a s = reconnect_socket a (connect_failed s)
  socket_connected_as retry fd a s = s
  socket_connected_as _ fd a s =
      let (_, l) = ae.create_file_event s.thread.loop fd readable socket_readable in
      let (_, l') = ae.create_file_event l fd writable socket_writeable in
      with_conn (with_loop s l') (record (s.conn) { written = 0 })

  -- `c->written += n` and the end of a request
  unfoldable pub sent : ℕ → ℕ → State p → State p
  sent fd n s =
      let written = add64 s.conn.written n in
      if written == s.conn.length
      then with_conn (with_loop s (ae.delete_file_event s.thread.loop fd writable))
          (record (s.conn) { written = 0 })
      else with_conn s (record (s.conn) { written = written })

  -- `switch (sock.write(c, buf, len, &n))` and what follows it
  unfoldable pub written_as : Status → ℕ → ℕ → Connecting → State p → State p
  unfolding reconnect_socket sent
  written_as error fd n a s = reconnect_socket a (with_errors s (count_write s.thread.errors))
  written_as retry fd n a s = s
  written_as _ fd n a s = sent fd n s

  -- `if (!c->written) { c->start = time_us(); ... c->pending = cfg.pipeline; }`
  unfoldable pub begin_batch : Config → ℕ → Connection float.F → Connection float.F
  begin_batch cfg now c =
      let c' =
        (if c.has_pending then c else record c {
          actual_latency_start = now;
          complete_at_last_batch_start = c.complete;
          has_pending = true;
        }) in
      record c' { start = now; pending = cfg.pipeline }

  -- `aeDeleteFileEvent` and `aeCreateTimeEvent` of "Not yet time to send. Delay:"; the wait is the
  -- int `msec_to_wait`
  unfoldable pub delay : ℕ → ℕ → State p → State p
  delay fd usec s = with_loop s (
      ae.create_time_event (ae.delete_file_event s.thread.loop fd writable)
        (to_long_long (round_to_ms float usec)) delay_request)

  -- `c->latest_write = time_us()`, and the length that `script_request` gives to a new request
  unfoldable pub prepare : Config → Writing → Connection float.F → Connection float.F
  prepare cfg w c = record c {
    latest_write = w.write_time;
    length = if cfg.dynamic then w.request_length else c.length;
  }

  -- `socket_writeable` where `c->written` is 0 and the connection may send
  unfoldable pub start_write : Config → ℕ → Writing → Connecting → State p → State p
  unfolding begin_batch written_as prepare
  start_write cfg fd w a s =
      written_as w.status fd w.count a
        (with_conn s (begin_batch cfg w.start_time (prepare cfg w s.conn)))

  unfoldable pub socket_writeable_with : Config → ℕ → Writing → Connecting → State p → State p
  unfolding start_write delay written_as
  socket_writeable_with cfg fd w a s =
      if s.conn.written == 0
      then (let (usec, c) = usec_to_next_send float w.now s.conn in
          if usec == 0
          then start_write cfg fd w a (with_conn s c)
          else delay fd usec (with_conn s c))
      else written_as w.status fd w.count a s

  -- `delay_request`: the milliseconds to wait once more, an int by its 32 bits, or `none` for
  -- AE_NOMORE
  unfoldable pub delay_request_at : ℕ → State p → Option ℕ × State p
  delay_request_at now s =
      let (usec, c) = usec_to_next_send float now s.conn in
      if usec == 0
      then (let (_, l) = ae.create_file_event s.thread.loop c.fd writable socket_writeable in
          (none, with_conn (with_loop s l) c))
      else (some (round_to_ms float usec), with_conn s c)
