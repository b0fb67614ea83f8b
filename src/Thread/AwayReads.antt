-- ===== src/Thread/AwayReads.antt =====
-- `socket_readable` of wrk.c leaves the other descriptors of the event loop alone.
use wrkx.Prelude.{
  ℕ, ◌≡◌, ◌≢◌, refl, inl, inr, Bool-cases, Option, some, ◌==◌, leb, ◌||◌, not, sub64, add64, subst,
  some_second, >>=-eq-some, List,
}
use wrkx.Buffer.Defs.{Realloc}
use wrkx.Response.Defs.{ScriptCall, deliver}
use wrkx.EventLoop.{LoopLaws, socket_writeable, writable}
use wrkx.Thread.State.{Platform, Config, State, count_read, with_errors, with_conn, with_loop}
use wrkx.Thread.Socket.{Connecting}
use wrkx.Thread.Completion.{
  Completing, Reading, count_response, expected_latency, settle, record_latency, account,
  after_delivery, response_complete, read_failed, readable_loop,
}
use wrkx.Thread.Induction.{readable_loop-Keeps}
use wrkx.Thread.Responses.{AllReadings, standing, AllReadings-ReadingsFrom}
use wrkx.Thread.Away.{Away, Away-trans, Away-same, reconnect_socket-Away}

module _ (p : Platform) (l : LoopLaws p.ae) (libc : Realloc) (cfg : Config) (other : ℕ) where
  open p use {float, ae, hdr}

  settle-Away : (s : State p) → Away p l other s (settle p s)
  unfolding settle
  settle-Away s = elim (Bool-cases (sub64 s.conn.pending 1 == 0)) [
    | inl e ↦
        rw (e, settle)
          (record {
            reads = λ n.
                l.create_readable_other s.thread.loop s.conn.fd writable socket_writeable other n;
            writes = λ n.
                l.create_writable_other s.thread.loop s.conn.fd writable socket_writeable other n;
            apart = λ n. n;
          })
    | inr e ↦ rw (e, settle) (Away-same p l other s _ refl refl)
  ]

  record_latency-Away :
      (now timing : ℕ) (s : State p) → Away p l other s (record_latency p cfg now timing s)
  unfolding record_latency
  record_latency-Away now timing s =
      elim (Bool-cases (cfg.record_all_responses || not s.conn.has_pending)) [
        | inl e ↦ rw (e, record_latency) (Away-same p l other s _ refl refl)
        | inr e ↦ rw (e, record_latency) (Away-same p l other s s refl refl)
      ]

  account-Away : (now : ℕ) (s : State p) → Away p l other s (account p cfg now s)
  unfolding account
  account-Away now s =
      let c = record (s.conn) { complete = add64 s.conn.complete 1 } in
      let c' = record c { latest_should_send_time = 0; latest_expected_start = 0 } in
      let s₁ = settle p (with_conn s c') in
      Away-trans p l other s s₁ _
        (Away-trans p l other s (with_conn s c') s₁ (Away-same p l other s _ refl refl)
          (settle-Away (with_conn s c')))
        (record_latency-Away now (expected_latency p now c) s₁)

  stop-Away : (s : State p) → Away p l other s (with_loop s (ae.stop s.thread.loop))
  stop-Away s = record {
    reads = λ n. l.stop_readable s.thread.loop other;
    writes = λ n. l.stop_writable s.thread.loop other;
    apart = λ n. n;
  }

  after_delivery-Away :
      (m : Completing) (s : State p)
      → m.connecting.fd ≢ other
      → Away p l other s (after_delivery p cfg m s)
  unfolding after_delivery
  after_delivery-Away m s n = elim (Bool-cases (leb s.thread.stop_at m.now)) [
    | inl x ↦ rw (x, after_delivery) (stop-Away s)
    | inr x ↦ elim (Bool-cases m.keep_alive) [
      | inl y ↦ rw (x, y, after_delivery) (account-Away m.now s)
      | inr y ↦
          rw (x, y, after_delivery)
            (Away-trans p l other s (account p cfg m.now s) _ (account-Away m.now s)
              (reconnect_socket-Away p l other m.connecting (account p cfg m.now s) n))
    ]
  ]

  response_complete-Away :
      (m : Completing) (s s' : State p) (call : Option ScriptCall)
      → m.connecting.fd ≢ other
      → response_complete p cfg m s ≡ some (call, s')
      → Away p l other s s'
  unfolding response_complete
  response_complete-Away m s s' call n e =
      let (x, d, q) = >>=-eq-some (deliver m.status_code s.conn.response) _ e in
      let t = count_response p m.status_code s.thread in
      let s₁ = record s { thread = t; conn = record (s.conn) { response = x.1 } } in
      subst (Away p l other s) (some_second _ q) (
        Away-trans p l other s s₁ _ (Away-same p l other s s₁ refl refl)
          (after_delivery-Away m s₁ n))

  read_failed-Away :
      (a : Connecting) (s : State p) → a.fd ≢ other → Away p l other s (read_failed p libc cfg a s)
  unfolding read_failed
  read_failed-Away a s n =
      let s₁ = with_errors s (count_read s.thread.errors) in
      Away-trans p l other s s₁ _ (Away-same p l other s s₁ refl refl)
        (reconnect_socket-Away p l other a s₁ n)

  pub readable_loop-Away :
      (a : Connecting) (rs : List Reading) (s s' : State p)
      → a.fd ≢ other
      → AllReadings (λ m. m.connecting.fd ≢ other) rs
      → readable_loop p libc cfg a rs s ≡ some s'
      → Away p l other s s'
  readable_loop-Away a rs s s' n h e =
      let Ok = λ (m : Completing). m.connecting.fd ≢ other in
      readable_loop-Keeps p libc cfg a (standing Ok) (λ t. Away p l other s) rs 0 0 s s'
        (record {
          later = λ t t' s₁ le v. v;
          response = λ t s₁ r v. Away-trans p l other s s₁ _ v (Away-same p l other s₁ _ refl refl);
          complete = λ t m s₁ s₂ call o v q.
              Away-trans p l other s s₁ s₂ v (response_complete-Away m s₁ s₂ call o q);
          failed = λ t s₁ v. Away-trans p l other s s₁ _ v (read_failed-Away a s₁ n);
          bytes = λ t i s₁ v. Away-trans p l other s s₁ _ v (Away-same p l other s₁ _ refl refl);
        })
        (AllReadings-ReadingsFrom Ok rs h) (Away-same p l other s s refl refl) e
