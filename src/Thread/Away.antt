-- ===== src/Thread/Away.antt =====
-- The handlers of wrk.c leave the other descriptors of the event loop alone, those that connect and
-- write.
use wrkx.Prelude.{ℕ, ◌≡◌, ◌≢◌, refl, ap, ◌∙◌, inl, inr, Bool-cases, ◌==◌, add64, subst, arith}
use wrkx.Float.{round_to_ms, to_long_long}
use wrkx.EventLoop.{
  LoopLaws, socket_connected, socket_writeable, socket_readable, delay_request, readable, writable,
  both,
}
use wrkx.Connection.State.{Status, ok, error, retry, read_eof}
use wrkx.Connection.Pacing.{usec_to_next_send}
use wrkx.Thread.State.{Platform, Config, State, with_conn, with_loop}
use wrkx.Thread.LiveWrites.{begin_batch-Begun, usec_to_next_send_keeps}
use wrkx.Thread.Socket.{
  Connecting, Writing, connect_socket, reconnect_socket, delayed_initial_connect,
  socket_connected_as, sent, written_as, begin_batch, prepare, delay, start_write,
  socket_writeable_with, delay_request_at,
}

module _ (p : Platform) (l : LoopLaws p.ae) (other : ℕ) where
  open p use {float, ae}

  -- The handler's connection does not have the descriptor `other`, before and after; and the loop
  -- calls the same handlers for it.
  pub record Away (s s' : State p) : Type 0 where
    pub reads :
        s.conn.fd ≢ other → ae.on_readable s'.thread.loop other ≡ ae.on_readable s.thread.loop other
    pub writes :
        s.conn.fd ≢ other → ae.on_writable s'.thread.loop other ≡ ae.on_writable s.thread.loop other
    pub apart : s.conn.fd ≢ other → s'.conn.fd ≢ other

  pub Away-trans : (s t u : State p) → Away s t → Away t u → Away s u
  Away-trans s t u a b = record {
    reads = λ n. b.reads (a.apart n) ∙ a.reads n;
    writes = λ n. b.writes (a.apart n) ∙ a.writes n;
    apart = λ n. b.apart (a.apart n);
  }

  -- a state with the same descriptor and loop
  pub Away-same :
      (s s' : State p) → s'.thread.loop ≡ s.thread.loop → s'.conn.fd ≡ s.conn.fd → Away s s'
  Away-same s s' e f = record {
    reads = λ n. ap (λ x. ae.on_readable x other) e;
    writes = λ n. ap (λ x. ae.on_writable x other) e;
    apart = λ n q. n (rw f at q);
  }

  pub connect_socket-Away :
      (a : Connecting) (s : State p) → a.fd ≢ other → Away s (connect_socket p a s)
  unfolding connect_socket
  connect_socket-Away a s n =
      let r = l.create_readable_other s.thread.loop a.fd both socket_connected other n in
      let w = l.create_writable_other s.thread.loop a.fd both socket_connected other n in
      record {
        reads = λ h. ground (arith, r);
        writes = λ h. ground (arith, w);
        apart = λ h. ground (arith, n, h);
      }

  delete-Away :
      (s : State p) → Away s (with_loop s (ae.delete_file_event s.thread.loop s.conn.fd both))
  delete-Away s = record {
    reads = λ n. l.delete_readable_other s.thread.loop s.conn.fd both other n;
    writes = λ n. l.delete_writable_other s.thread.loop s.conn.fd both other n;
    apart = λ n. n;
  }

  pub reconnect_socket-Away :
      (a : Connecting) (s : State p) → a.fd ≢ other → Away s (reconnect_socket p a s)
  unfolding reconnect_socket
  reconnect_socket-Away a s n = Away-trans s _ _ (delete-Away s) (connect_socket-Away a _ n)

  pub delayed_initial_connect-Away :
      (now : ℕ) (a : Connecting) (s : State p)
      → a.fd ≢ other
      → Away s (delayed_initial_connect p now a s)
  unfolding delayed_initial_connect
  delayed_initial_connect-Away now a s n =
      Away-trans s _ _ (Away-same s _ refl refl) (connect_socket-Away a _ n)

  opened-Away :
      (s : State p)
      → Away s (
          with_conn
            (with_loop s
              (ae.create_file_event
                (ae.create_file_event s.thread.loop s.conn.fd readable socket_readable).1
                s.conn.fd
                writable
                socket_writeable).1)
            (record s.conn { written = 0 }))
  opened-Away s =
      let l₁ = (ae.create_file_event s.thread.loop s.conn.fd readable socket_readable).1 in
      record {
        reads = λ n.
            l.create_readable_other l₁ s.conn.fd writable socket_writeable other n
            ∙ l.create_readable_other s.thread.loop s.conn.fd readable socket_readable other n;
        writes = λ n.
            l.create_writable_other l₁ s.conn.fd writable socket_writeable other n
            ∙ l.create_writable_other s.thread.loop s.conn.fd readable socket_readable other n;
        apart = λ n. n;
      }

  pub socket_connected-Away :
      (st : Status) (a : Connecting) (s : State p)
      → a.fd ≢ other
      → Away s (socket_connected_as p st s.conn.fd a s)
  unfolding socket_connected_as
  socket_connected-Away error a s n =
      Away-trans s _ _ (Away-same s _ refl refl) (reconnect_socket-Away a _ n)
  socket_connected-Away retry a s n = Away-same s s refl refl
  socket_connected-Away ok a s n = opened-Away s
  socket_connected-Away read_eof a s n = opened-Away s

  delete_write-Away :
      (s : State p) → Away s (with_loop s (ae.delete_file_event s.thread.loop s.conn.fd writable))
  delete_write-Away s = record {
    reads = λ n. l.delete_readable_other s.thread.loop s.conn.fd writable other n;
    writes = λ n. l.delete_writable_other s.thread.loop s.conn.fd writable other n;
    apart = λ n. n;
  }

  sent-Away : (n : ℕ) (s : State p) → Away s (sent p s.conn.fd n s)
  unfolding sent
  sent-Away n s = elim (Bool-cases (add64 s.conn.written n == s.conn.length)) [
    | inl e ↦ rw (e, sent) (Away-trans s _ _ (delete_write-Away s) (Away-same _ _ refl refl))
    | inr e ↦ rw (e, sent) (Away-same s _ refl refl)
  ]

  written_as-Away :
      (st : Status) (n : ℕ) (a : Connecting) (s : State p)
      → a.fd ≢ other
      → Away s (written_as p st s.conn.fd n a s)
  unfolding written_as
  written_as-Away error n a s ne =
      Away-trans s _ _ (Away-same s _ refl refl) (reconnect_socket-Away a _ ne)
  written_as-Away retry n a s ne = Away-same s s refl refl
  written_as-Away ok n a s ne = sent-Away n s
  written_as-Away read_eof n a s ne = sent-Away n s

  start_write-Away :
      (cfg : Config) (w : Writing) (a : Connecting) (s : State p)
      → a.fd ≢ other
      → Away s (start_write p cfg s.conn.fd w a s)
  unfolding start_write prepare
  start_write-Away cfg w a s n =
      let c = begin_batch p cfg w.start_time (prepare p cfg w s.conn) in
      let fd = (begin_batch-Begun p l cfg w.start_time (prepare p cfg w s.conn)).0 in
      subst (λ d. Away s (written_as p w.status d w.count a (with_conn s c))) fd
        (Away-trans s _ _ (Away-same s (with_conn s c) refl fd)
          (written_as-Away w.status w.count a (with_conn s c) n))

  delay-Away : (usec : ℕ) (s : State p) → Away s (delay p s.conn.fd usec s)
  unfolding delay
  delay-Away usec s =
      let l₁ = ae.delete_file_event s.thread.loop s.conn.fd writable in
      let ms = to_long_long (round_to_ms float usec) in
      record {
        reads = λ n.
            l.time_readable l₁ ms delay_request other
            ∙ l.delete_readable_other s.thread.loop s.conn.fd writable other n;
        writes = λ n.
            l.time_writable l₁ ms delay_request other
            ∙ l.delete_writable_other s.thread.loop s.conn.fd writable other n;
        apart = λ n. n;
      }

  usec_to_next_send-Away :
      (now : ℕ) (s : State p) → Away s (with_conn s (usec_to_next_send float now s.conn).1)
  usec_to_next_send-Away now s = Away-same s _ refl (usec_to_next_send_keeps p l now s.conn).0

  pub socket_writeable-Away :
      (cfg : Config) (w : Writing) (a : Connecting) (s : State p)
      → a.fd ≢ other
      → Away s (socket_writeable_with p cfg s.conn.fd w a s)
  unfolding socket_writeable_with
  socket_writeable-Away cfg w a s n = elim (Bool-cases (s.conn.written == 0)) [
    | inr x ↦ rw (x, socket_writeable_with) (written_as-Away w.status w.count a s n)
    | inl x ↦
        let (usec, c) = usec_to_next_send float w.now s.conn in
        let u = usec_to_next_send-Away w.now s in
        let fd = (usec_to_next_send_keeps p l w.now s.conn).0 in
        elim (Bool-cases (usec == 0)) [
          | inl y ↦
              rw (x, y, socket_writeable_with)
                (subst (λ d. Away s (start_write p cfg d w a (with_conn s c))) fd
                  (Away-trans s _ _ u (start_write-Away cfg w a (with_conn s c) n)))
          | inr y ↦
              rw (x, y, socket_writeable_with)
                (subst (λ d. Away s (delay p d usec (with_conn s c))) fd
                  (Away-trans s _ _ u (delay-Away usec (with_conn s c))))
        ]
  ]

  create_write-Away :
      (s : State p)
      → Away s
          (with_loop s (ae.create_file_event s.thread.loop s.conn.fd writable socket_writeable).1)
  create_write-Away s = record {
    reads = λ n. l.create_readable_other s.thread.loop s.conn.fd writable socket_writeable other n;
    writes = λ n. l.create_writable_other s.thread.loop s.conn.fd writable socket_writeable other n;
    apart = λ n. n;
  }

  pub delay_request-Away : (now : ℕ) (s : State p) → Away s (delay_request_at p now s).1
  unfolding delay_request_at
  delay_request-Away now s =
      let (usec, c) = usec_to_next_send float now s.conn in
      let u = usec_to_next_send-Away now s in
      elim (Bool-cases (usec == 0)) [
        | inl y ↦ rw (y, delay_request_at) (Away-trans s _ _ u (create_write-Away (with_conn s c)))
        | inr y ↦ rw (y, delay_request_at) u
      ]
