-- ===== src/Thread/Live.antt =====
-- Something will call a handler for the connection again: the invariant behind the event handlers of
-- wrk.c, through those that connect and write.
use wrkx.Prelude.{ℕ, ◌≡◌, ◌≢◌, refl, ◌∙◌, ◌⊎◌, inl, inr, true, false, none, some}
use wrkx.EventLoop.{
  LoopLaws, socket_connected, socket_writeable, socket_readable, readable, writable, both,
}
use wrkx.Connection.State.{Connection, Status, ok, error, retry, read_eof}
use wrkx.Thread.State.{Platform, State, with_conn, with_loop}
use wrkx.Thread.Socket.{Connecting, connect_socket, reconnect_socket, socket_connected_as}

module _ (p : Platform) (l : LoopLaws p.ae) where
  open p use {float, ae}

  -- `k` timers of `delay_request` are set for the connection. The loop calls a handler when there is
  -- something to read; and it calls one when the connection can be written to, or a timer is set, or
  -- responses are awaited. A request that is written in part awaits its responses.
  pub record Live (k : ℕ) (s : State p) : Type 0 where
    pub fits : l.fits s.conn.fd ≡ true
    pub reads :
        (ae.on_readable s.thread.loop s.conn.fd ≡ some socket_connected)
        ⊎ (ae.on_readable s.thread.loop s.conn.fd ≡ some socket_readable)
    pub writes :
        (ae.on_writable s.thread.loop s.conn.fd ≡ some socket_connected)
        ⊎ (ae.on_writable s.thread.loop s.conn.fd ≡ some socket_writeable)
        ⊎ ((ae.on_writable s.thread.loop s.conn.fd ≡ none) × ((k ≢ 0) ⊎ (s.conn.pending ≢ 0)))
    pub busy : s.conn.written ≢ 0 → s.conn.pending ≢ 0

  -- The system accepts a connection, and its descriptor fits the loop.
  abbrev pub Accepted : Connecting → Type 0
  Accepted a = (a.refused ≡ false) × (l.fits a.fd ≡ true)

  pub connect_socket-Live :
      (k : ℕ) (a : Connecting) (s : State p)
      → Accepted a
      → (s.conn.written ≢ 0 → s.conn.pending ≢ 0)
      → Live k (connect_socket p a s)
  unfolding connect_socket
  connect_socket-Live k a s (e, f) b =
      rw (e, l.create_ok s.thread.loop a.fd both socket_connected f, connect_socket)
        (record {
          fits = f;
          reads = inl (l.create_readable s.thread.loop a.fd both socket_connected f);
          writes = inl (l.create_writable s.thread.loop a.fd both socket_connected f);
          busy = b;
        })

  pub reconnect_socket-Live :
      (k : ℕ) (a : Connecting) (s : State p)
      → Accepted a
      → (s.conn.written ≢ 0 → s.conn.pending ≢ 0)
      → Live k (reconnect_socket p a s)
  unfolding reconnect_socket
  reconnect_socket-Live k a s e b = connect_socket-Live k a _ e b

  -- a state with the same loop and descriptor
  pub Live-with_conn :
      (k : ℕ) (s : State p) (c : Connection float.F)
      → c.fd ≡ s.conn.fd
      → (s.conn.pending ≢ 0 → c.pending ≢ 0)
      → (c.written ≢ 0 → c.pending ≢ 0)
      → Live k s
      → Live k (with_conn s c)
  Live-with_conn k s c e f b v = record {
    fits = rw e v.fits;
    reads = rw e v.reads;
    writes = rw e (elim v.writes [
      | inl x ↦ inl x
      | inr (inl x) ↦ inr (inl x)
      | inr (inr (x, inl n)) ↦ inr (inr (x, inl n))
      | inr (inr (x, inr n)) ↦ inr (inr (x, inr (f n)))
    ]);
    busy = b;
  }

  -- both events are set, and nothing is written yet
  opened-Live :
      (k : ℕ) (s : State p)
      → l.fits s.conn.fd ≡ true
      → Live k (
          with_conn
            (with_loop s
              (ae.create_file_event
                (ae.create_file_event s.thread.loop s.conn.fd readable socket_readable).1
                s.conn.fd
                writable
                socket_writeable).1)
            (record s.conn { written = 0 }))
  opened-Live k s f =
      let l₁ = (ae.create_file_event s.thread.loop s.conn.fd readable socket_readable).1 in
      record {
        fits = f;
        reads = inr (
            l.create_readable l₁ s.conn.fd writable socket_writeable f
            ∙ l.create_readable s.thread.loop s.conn.fd readable socket_readable f);
        writes = inr (inl (l.create_writable l₁ s.conn.fd writable socket_writeable f));
        busy = λ h. absurd (h refl);
      }

  pub socket_connected-Live :
      (k : ℕ) (st : Status) (a : Connecting) (s : State p)
      → Accepted a
      → Live k s
      → Live k (socket_connected_as p st s.conn.fd a s)
  unfolding socket_connected_as
  socket_connected-Live k error a s e v = reconnect_socket-Live k a _ e v.busy
  socket_connected-Live k retry a s e v = v
  socket_connected-Live k ok a s e v = opened-Live k s v.fits
  socket_connected-Live k read_eof a s e v = opened-Live k s v.fits
