-- ===== src/Thread/Early.antt =====
-- A response that ends before its request is sent whole (wrk.c: `response_complete`, then
-- `socket_writeable`).
use wrkx.Prelude.{ℕ, ◌≡◌, ◌≢◌, ◌<◌, ◌∙◌, true, none, some, [], ◌∷◌, add64, arith}
use wrkx.Buffer.Defs.{Realloc}
use wrkx.EventLoop.{LoopLaws, socket_writeable, writable}
use wrkx.Connection.State.{ok}
use wrkx.Thread.State.{Platform, Config, State}
use wrkx.Thread.Socket.{Connecting, Writing, sent, written_as, socket_writeable_with}
use wrkx.Thread.Completion.{
  Completing, on_message_complete, count_response, expected_latency, settle, record_latency,
  account, parser_call, parser_calls,
}
use wrkx.Thread.Batch.{answered, answered_lem, answered-last}

module _ (p : Platform) (l : LoopLaws p.ae) (libc : Realloc) (cfg : Config) where
  open p use {float, ae, hdr}

  -- the members that the write handler reads, and the timers
  answered-written :
      (m : Completing) (s : State p)
      → let s' = answered p libc cfg m s in
        (s'.conn.written ≡ s.conn.written)
        × (s'.conn.length ≡ s.conn.length)
        × (ae.timers s'.thread.loop ≡ ae.timers s.thread.loop)
  unfolding answered account settle record_latency expected_latency count_response
  answered-written m s =
      ground (arith, l.create_timers s.thread.loop s.conn.fd writable socket_writeable)

  -- the end of a request that is written in part
  rest_sent :
      (fd : ℕ) (w : Writing) (a : Connecting) (s : State p)
      → s.conn.written ≢ 0
      → w.status ≡ ok
      → add64 s.conn.written w.count ≡ s.conn.length
      → let s' = socket_writeable_with p cfg fd w a s in
        (ae.on_writable s'.thread.loop fd ≡ none)
        × (ae.timers s'.thread.loop ≡ ae.timers s.thread.loop)
        × (s'.conn.pending ≡ s.conn.pending)
        × (s'.conn.written ≡ 0)
  unfolding socket_writeable_with written_as sent
  rest_sent fd w a s n k e = ground (
    arith,
    l.delete_writable s.thread.loop fd writable,
    l.delete_timers s.thread.loop fd writable,
  )

  -- A server that answers the last request of a batch before that is sent whole, on a connection
  -- that it keeps open, in time and without a script, stops the connection: when the rest of the
  -- request is written at one go, the write event is taken away, no timer is set, and no response
  -- is awaited.
  pub early_response :
      (m : Completing) (w : Writing) (a : Connecting) (s : State p)
      → l.fits s.conn.fd ≡ true
      → s.conn.response.headers.block ≡ none
      → s.conn.pending ≡ 1
      → m.now < s.thread.stop_at
      → m.keep_alive ≡ true
      → s.conn.written ≢ 0
      → w.status ≡ ok
      → add64 s.conn.written w.count ≡ s.conn.length
      → (s₁ : State p) × (parser_calls p libc cfg (on_message_complete m ∷ []) s ≡ some s₁)
        × (let s' = socket_writeable_with p cfg s.conn.fd w a s₁ in
            (ae.on_writable s'.thread.loop s.conn.fd ≡ none)
            × (ae.timers s'.thread.loop ≡ ae.timers s.thread.loop)
            × (s'.conn.pending ≡ 0)
            × (s'.conn.written ≡ 0))
  unfolding parser_calls parser_call
  early_response m w a s f b e t k n o q =
      let (written, length, timers) = answered-written m s in
      let (on, ts, pending, z) =
        rest_sent s.conn.fd w a (answered p libc cfg m s) (rw written n) o
          (rw (written, length) q) in
      (
        answered p libc cfg m s,
        rw (answered_lem p libc cfg m s b t k),
        (on, ts ∙ timers, pending ∙ (answered-last p libc cfg l m s f e).0, z),
      )
