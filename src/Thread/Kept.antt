-- ===== src/Thread/Kept.antt =====
-- What the connection handlers leave alone (wrk.c).
use wrkx.Prelude.{ℕ, ◌≡◌, refl, ◌∙◌, arith}
use wrkx.Connection.State.{Status, ok, error}
use wrkx.Connection.Pacing.{usec_to_next_send}
use wrkx.Thread.State.{Platform, State, with_conn}
use wrkx.Thread.Socket.{
  Connecting, connect_socket, reconnect_socket, socket_connected_as, written_as,
}

module _ {p : Platform} where
  -- the members that the latencies depend on
  pub record Kept (s s' : State p) : Type 0 where
    pub thread_start : s'.conn.thread_start ≡ s.conn.thread_start
    pub throughput : s'.conn.throughput ≡ s.conn.throughput
    pub complete : s'.conn.complete ≡ s.conn.complete
    pub batch : s'.conn.complete_at_last_batch_start ≡ s.conn.complete_at_last_batch_start
    pub has_pending : s'.conn.has_pending ≡ s.conn.has_pending
    pub latency : s'.thread.latency_histogram ≡ s.thread.latency_histogram

  pub Kept-trans : {s t u : State p} → Kept s t → Kept t u → Kept s u
  Kept-trans a b = record {
    thread_start = b.thread_start ∙ a.thread_start;
    throughput = b.throughput ∙ a.throughput;
    complete = b.complete ∙ a.complete;
    batch = b.batch ∙ a.batch;
    has_pending = b.has_pending ∙ a.has_pending;
    latency = b.latency ∙ a.latency;
  }

  pub Kept-refl : (s : State p) → Kept s s
  Kept-refl s = record {
    thread_start = refl;
    throughput = refl;
    complete = refl;
    batch = refl;
    has_pending = refl;
    latency = refl;
  }

  pub connect_socket-Kept : (a : Connecting) (s : State p) → Kept s (connect_socket p a s)
  unfolding connect_socket
  connect_socket-Kept a s = ground arith

  pub reconnect_socket-Kept : (a : Connecting) (s : State p) → Kept s (reconnect_socket p a s)
  unfolding reconnect_socket
  reconnect_socket-Kept a s = ground arith

  pub socket_connected-Kept :
      (st : Status) (fd : ℕ) (a : Connecting) (s : State p)
      → Kept s (socket_connected_as p st fd a s)
  unfolding socket_connected_as
  socket_connected-Kept ok fd a s = ground arith
  socket_connected-Kept error fd a s = ground arith
  socket_connected-Kept _ fd a s = ground arith

  pub written_as-Kept :
      (st : Status) (fd n : ℕ) (a : Connecting) (s : State p) → Kept s (written_as p st fd n a s)
  unfolding written_as
  written_as-Kept ok fd n a s = ground arith
  written_as-Kept error fd n a s = ground arith
  written_as-Kept _ fd n a s = ground arith

  -- `usec_to_next_send` leaves the plan alone
  pub usec_to_next_send-Kept :
      (now : ℕ) (s : State p) → Kept s (with_conn s (usec_to_next_send p.float now s.conn).1)
  unfolding usec_to_next_send
  usec_to_next_send-Kept now s = ground arith
