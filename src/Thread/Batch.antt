-- ===== src/Thread/Batch.antt =====
-- A batch of pipelined requests and its responses: `pending`, `has_pending` and what is recorded
-- (wrk.c: `response_complete`).
use wrkx.Prelude.{
  ℕ, suc, ◌+◌, ◌%◌, ◌<◌, ◌≡◌, refl, ap, sym, ◌∙◌, subst, true, false, none, some, List, [], ◌∷◌,
  map, length, leb-false, if◌then◌else◌, add64, sub64, u64_mod, arith,
}
use wrkx.Buffer.Defs.{Realloc}
use wrkx.Response.Defs.{Response, deliver}
use wrkx.EventLoop.{LoopLaws, socket_writeable, writable}
use wrkx.Connection.State.{Connection}
use wrkx.Thread.State.{Platform, Config, State}
use wrkx.Thread.Completion.{
  Completing, on_message_complete, count_response, expected_latency, settle, record_latency,
  account, after_delivery, response_complete, parser_call, parser_calls,
}

module _ (p : Platform) (libc : Realloc) (cfg : Config) where
  open p use {float, ae, hdr}

  -- Responses that arrive before the end of the test, on a connection that the server keeps open.
  abbrev pub AllInTime : ℕ → List Completing → Type 0
  AllInTime stop_at [] = Unit {0}
  AllInTime stop_at (m ∷ ms) = (m.now < stop_at) × (m.keep_alive ≡ true) × AllInTime stop_at ms

  -- What a batch records: every response's latency, or that of the last alone.
  abbrev pub recorded : Connection float.F → List Completing → hdr.H → hdr.H
  recorded c [] h = h
  recorded c (m ∷ []) h = hdr.record_value h (expected_latency p m.now c)
  recorded c (m ∷ n ∷ ms) h =
      recorded c (n ∷ ms)
        (if cfg.record_all_responses then hdr.record_value h (expected_latency p m.now c) else h)

  -- the state that one such response leaves
  unfoldable pub answered : Completing → State p → State p
  answered m s = account p cfg m.now (record s { thread = count_response p m.status_code s.thread })

  deliver-no_block :
      (status : ℕ) (r : Response) → r.headers.block ≡ none → deliver status r ≡ some (none, r)
  unfolding deliver
  deliver-no_block status r e = ground arith

  pub answered_lem :
      (m : Completing) (s : State p)
      → s.conn.response.headers.block ≡ none
      → m.now < s.thread.stop_at
      → m.keep_alive ≡ true
      → response_complete p cfg m s ≡ some (none, answered m s)
  unfolding response_complete after_delivery answered count_response
  answered_lem m s e h k =
      rw (deliver-no_block m.status_code s.conn.response e, leb-false s.thread.stop_at m.now h, k)

  -- the members that a response of a batch leaves alone, and its counts
  record Counted (s s' : State p) : Type 0 where
    block : s'.conn.response.headers.block ≡ s.conn.response.headers.block
    stop_at : s'.thread.stop_at ≡ s.thread.stop_at
    fd : s'.conn.fd ≡ s.conn.fd
    pending : s'.conn.pending ≡ sub64 s.conn.pending 1
    latency : (now : ℕ) → expected_latency p now s'.conn ≡ expected_latency p now s.conn
    conn_complete : s'.conn.complete ≡ add64 s.conn.complete 1
    complete : s'.thread.complete ≡ add64 s.thread.complete 1

  answered-Counted : (m : Completing) (s : State p) → Counted s (answered m s)
  unfolding answered account settle record_latency expected_latency count_response
  answered-Counted m s = ground arith

  -- a response that is not the last of its batch
  answered-more :
      (m : Completing) (s : State p) (n : ℕ)
      → s.conn.has_pending ≡ true
      → s.conn.pending ≡ suc (suc n)
      → suc (suc n) < u64_mod
      → ((answered m s).conn.pending ≡ suc n)
        × ((answered m s).conn.has_pending ≡ true)
        × ((answered m s).thread.latency_histogram ≡ (
            if cfg.record_all_responses
            then hdr.record_value s.thread.latency_histogram (expected_latency p m.now s.conn)
            else s.thread.latency_histogram))
  unfolding answered account settle record_latency expected_latency count_response
  answered-more m s n b e h = ground arith

  -- the last response
  pub answered-last :
      (l : LoopLaws ae) (m : Completing) (s : State p)
      → l.fits s.conn.fd ≡ true
      → s.conn.pending ≡ 1
      → ((answered m s).conn.pending ≡ 0)
        × ((answered m s).conn.has_pending ≡ false)
        × ((answered m s).thread.latency_histogram
            ≡ hdr.record_value s.thread.latency_histogram (expected_latency p m.now s.conn))
        × (ae.on_writable (answered m s).thread.loop s.conn.fd ≡ some socket_writeable)
  unfolding answered account settle record_latency expected_latency count_response
  answered-last l m s f e =
      ground (arith, l.create_writable s.thread.loop s.conn.fd writable socket_writeable f)

  -- What a whole batch leaves.
  pub record BatchDone (s : State p) (ms : List Completing) (s' : State p) : Type 0 where
    pub pending : s'.conn.pending ≡ 0
    pub has_pending : s'.conn.has_pending ≡ false
    pub armed : ae.on_writable s'.thread.loop s.conn.fd ≡ some socket_writeable
    pub conn_complete : s'.conn.complete ≡ (s.conn.complete + length ms) % u64_mod
    pub complete : s'.thread.complete ≡ (s.thread.complete + length ms) % u64_mod
    pub latency : s'.thread.latency_histogram ≡ recorded s.conn ms s.thread.latency_histogram

  recorded_same :
      (c c' : Connection float.F) (ms : List Completing) (h : hdr.H)
      → ((now : ℕ) → expected_latency p now c' ≡ expected_latency p now c)
      → recorded c' ms h ≡ recorded c ms h
  recorded_same c c' [] h e = refl
  recorded_same c c' (m ∷ []) h e = ap (hdr.record_value h) (e m.now)
  recorded_same c c' (m ∷ n ∷ ms) h e =
      recorded_same c c' (n ∷ ms) _ e
      ∙ ap (λ v. recorded c (n ∷ ms) (if cfg.record_all_responses then hdr.record_value h v else h))
          (e m.now)

  -- A batch of `n` pipelined requests on a connection that is kept open, with no script: its `n`
  -- responses, all before the end of the test, are taken without a fault; then the connection is
  -- armed to send again, `pending` is 0 and `has_pending` false; each response is counted once in
  -- the connection and in the thread; and what is recorded is every latency, or with `-B` the last
  -- one's alone. The descriptor fits the loop.
  pub batch_done :
      (l : LoopLaws ae) (m : Completing) (ms : List Completing) (s : State p)
      → l.fits s.conn.fd ≡ true
      → s.conn.response.headers.block ≡ none
      → s.conn.has_pending ≡ true
      → s.conn.pending ≡ suc (length ms)
      → suc (length ms) < u64_mod
      → AllInTime s.thread.stop_at (m ∷ ms)
      → (s' : State p) × (parser_calls p libc cfg (map on_message_complete (m ∷ ms)) s ≡ some s')
        × BatchDone s (m ∷ ms) s'
  unfolding parser_calls parser_call
  batch_done l m [] s f b hp e o (i, k, _) =
      let c = answered-Counted m s in
      let (z, y, h, w) = answered-last l m s f e in
      (
        answered m s,
        rw (answered_lem m s b i k),
        record {
          pending = z;
          has_pending = y;
          armed = w;
          conn_complete = omega (arith, c.conn_complete);
          complete = omega (arith, c.complete);
          latency = h;
        },
      )
  batch_done l m (n ∷ ms) s f b hp e o (i, k, r) =
      let c = answered-Counted m s in
      let (z, y, h) = answered-more m s (length ms) hp e o in
      let (s', q, d) =
        batch_done l n ms (answered m s) (rw c.fd f) (c.block ∙ b) y z (omega arith)
          (subst (λ k. AllInTime k (n ∷ ms)) (sym c.stop_at) r) in
      (
        s',
        rw (answered_lem m s b i k) q,
        record {
          pending = d.pending;
          has_pending = d.has_pending;
          armed = rw c.fd at d.armed;
          conn_complete = omega (arith, d.conn_complete, c.conn_complete);
          complete = omega (arith, d.complete, c.complete);
          latency =
              d.latency
              ∙ recorded_same s.conn (answered m s).conn (n ∷ ms) _ c.latency
              ∙ ap (recorded s.conn (n ∷ ms)) h;
        },
      )
