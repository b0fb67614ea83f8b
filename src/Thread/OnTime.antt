-- ===== src/Thread/OnTime.antt =====
-- The batch in flight was due when it was sent: the invariant behind the latencies of wrk.c, through
-- the handlers that connect and write.
use wrkx.Prelude.{ℕ, ◌^◌, ◌≤◌, ◌≡◌, Bool-cases, inl, inr, ◌==◌, ==_iff, arith}
use wrkx.Float.{Laws}
use wrkx.Connection.State.{Status}
use wrkx.Connection.Pacing.{due, planned, usec_to_next_send}
use wrkx.Connection.Schedule.{send_iff, due_zero}
use wrkx.Thread.State.{Platform, Config, State, with_conn}
use wrkx.Thread.Socket.{
  Connecting, Writing, delayed_initial_connect, socket_connected_as, begin_batch, prepare, delay,
  start_write, socket_writeable_with, delay_request_at,
}
use wrkx.Thread.Kept.{
  Kept, connect_socket-Kept, socket_connected-Kept, written_as-Kept, usec_to_next_send-Kept,
}

module _ {p : Platform} (Good : p.hdr.H → Type 0) where
  open p use {float, ae, hdr}

  -- The batch in flight was due by the time `t`, and the histogram is good.
  pub record OnTime (t : ℕ) (s : State p) : Type 0 where
    pub plan :
        due float s.conn.thread_start s.conn.complete_at_last_batch_start s.conn.throughput ≤ t
    pub good : Good s.thread.latency_histogram

  due_same :
      {s s' : State p}
      → Kept s s'
      → due float s'.conn.thread_start s'.conn.complete_at_last_batch_start s'.conn.throughput
        ≡ due float s.conn.thread_start s.conn.complete_at_last_batch_start s.conn.throughput
  due_same k = rw (k.thread_start, k.batch, k.throughput)

  pub Kept-OnTime : (t t' : ℕ) {s s' : State p} → Kept s s' → t ≤ t' → OnTime t s → OnTime t' s'
  Kept-OnTime t t' k h o = record {
    plan = omega (arith, due_same k, o.plan);
    good = rw k.latency o.good;
  }

  -- a batch begins only when its first request is due
  begin_batch-OnTime :
      (cfg : Config) (t now start : ℕ) (s : State p)
      → t ≤ now
      → planned float s.conn ≤ now
      → OnTime t s
      → OnTime now (with_conn s (begin_batch p cfg start s.conn))
  unfolding begin_batch
  begin_batch-OnTime cfg t now start s h d o = record {
    plan = ground (arith, o.plan);
    good = o.good;
  }

  planned_same : {s s' : State p} → Kept s s' → planned float s'.conn ≡ planned float s.conn
  planned_same k = rw (k.thread_start, k.complete, k.throughput)

  start_write-OnTime :
      (cfg : Config) (t now fd : ℕ) (w : Writing) (a : Connecting) (s : State p)
      → t ≤ now
      → planned float s.conn ≤ now
      → OnTime t s
      → OnTime now (start_write p cfg fd w a s)
  unfolding start_write
  start_write-OnTime cfg t now fd w a s h d o =
      Kept-OnTime now now
        (written_as-Kept w.status fd w.count a
          (with_conn s (begin_batch p cfg w.start_time (prepare p cfg w s.conn))))
        (omega arith)
        (begin_batch-OnTime cfg t now w.start_time (with_conn s (prepare p cfg w s.conn)) h d
          (record { plan = o.plan; good = o.good }))

  pub socket_writeable-OnTime :
      (cfg : Config) (t fd : ℕ) (w : Writing) (a : Connecting) (s : State p)
      → t ≤ w.now
      → OnTime t s
      → OnTime w.now (socket_writeable_with p cfg fd w a s)
  unfolding socket_writeable_with delay
  socket_writeable-OnTime cfg t fd w a s h o = elim (Bool-cases (s.conn.written == 0)) [
    | inr e ↦
        rw (e, socket_writeable_with)
          (Kept-OnTime t w.now (written_as-Kept w.status fd w.count a s) h o)
    | inl e ↦
        let k = usec_to_next_send-Kept w.now s in
        elim (Bool-cases ((usec_to_next_send float w.now s.conn).0 == 0)) [
          | inr n ↦
              rw (e, n, socket_writeable_with)
                (let o' = Kept-OnTime t w.now k h o in record { plan = o'.plan; good = o'.good })
          | inl y ↦
              rw (e, y, socket_writeable_with)
                (start_write-OnTime cfg w.now w.now fd w a _ (omega arith)
                  (omega
                    (arith, planned_same k, (send_iff float w.now s.conn).0 ((==_iff _ 0).0 y)))
                  (Kept-OnTime t w.now k h o))
        ]
  ]

  pub delay_request-OnTime :
      (t now : ℕ) (s : State p) → t ≤ now → OnTime t s → OnTime now (delay_request_at p now s).1
  unfolding delay_request_at
  delay_request-OnTime t now s h o =
      let o' = Kept-OnTime t now (usec_to_next_send-Kept now s) h o in
      elim (Bool-cases ((usec_to_next_send float now s.conn).0 == 0)) [
        | inr n ↦ rw (n, delay_request_at) o'
        | inl y ↦ rw (y, delay_request_at) (record { plan = o'.plan; good = o'.good })
      ]

  pub socket_connected-OnTime :
      (t fd : ℕ) (st : Status) (a : Connecting) (s : State p)
      → OnTime t s
      → OnTime t (socket_connected_as p st fd a s)
  socket_connected-OnTime t fd st a s o =
      Kept-OnTime t t (socket_connected-Kept st fd a s) (omega arith) o

  -- A connection begins on time.
  pub delayed_initial_connect-OnTime :
      (l : Laws float) (now : ℕ) (a : Connecting) (s : State p)
      → l.Positive s.conn.throughput
      → now ≤ 2 ^ 53
      → s.conn.complete_at_last_batch_start ≡ 0
      → Good s.thread.latency_histogram
      → OnTime now (delayed_initial_connect p now a s)
  unfolding delayed_initial_connect
  delayed_initial_connect-OnTime l now a s q h z g =
      Kept-OnTime now now
        (connect_socket-Kept a (with_conn s (record (s.conn) { thread_start = now }))) (omega arith)
        (record {
          plan = rw z (omega (arith, due_zero float l now s.conn.throughput q h));
          good = g;
        })
