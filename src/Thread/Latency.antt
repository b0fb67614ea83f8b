-- ===== src/Thread/Latency.antt =====
-- No latency that wrk.c records is negative: "This wil never ever ever happen" of
-- `response_complete`, for a clock that does not go back.
use wrkx.Prelude.{
  ℕ, ◌^◌, ◌≤◌, ◌<◌, ◌≡◌, Bool-cases, inl, inr, Option, some, List, leb, ◌||◌, not, add64, subst,
  >>=-eq-some, some_second, arith,
}
use wrkx.Buffer.Defs.{Realloc}
use wrkx.Response.Defs.{ScriptCall, deliver}
use wrkx.Thread.State.{Platform, Config, State, count_read, with_errors, with_conn}
use wrkx.Thread.Socket.{Connecting}
use wrkx.Thread.Completion.{
  Completing, Reading, count_response, expected_latency, settle, record_latency, account,
  after_delivery, response_complete, read_failed, readable_loop,
}
use wrkx.Thread.Kept.{reconnect_socket-Kept}
use wrkx.Thread.Induction.{Pace, ReadingsFrom, Keeps, readable_loop-Keeps}
use wrkx.Thread.OnTime.{OnTime, Kept-OnTime}

-- None of the responses ends before the one in front of it, and times stay below 2 ^ 63.
abbrev pub clock : Pace
clock = record {
  Ok = λ t m. (t ≤ m.now) × (m.now < 2 ^ 63);
  next = λ t m. m.now;
  Le = λ t t'. t ≤ t';
  Le-next = λ t m (h, k). h;
  Le-trans = λ t u v h k. omega arith;
}

-- The histogram stays good if the values below 2 ^ 63 keep it so: those that are not negative.
module _ {p : Platform} (Good : p.hdr.H → Type 0)
    (keeps : (h : p.hdr.H) (v : ℕ) → v < 2 ^ 63 → Good h → Good (p.hdr.record_value h v)) where
  open p use {float, ae, hdr}

  settle-OnTime : (t : ℕ) (s : State p) → OnTime Good t s → OnTime Good t (settle p s)
  unfolding settle
  settle-OnTime t s o = record { plan = ground (arith, o.plan); good = ground (arith, o.good) }

  record_latency-OnTime :
      (cfg : Config) (t now timing : ℕ) (s : State p)
      → timing < 2 ^ 63
      → OnTime Good t s
      → OnTime Good t (record_latency p cfg now timing s)
  unfolding record_latency
  record_latency-OnTime cfg t now timing s h o =
      elim (Bool-cases (cfg.record_all_responses || not s.conn.has_pending)) [
        | inl e ↦ rw (e, record_latency) (record { plan = o.plan; good = keeps _ timing h o.good })
        | inr e ↦ rw (e, record_latency) o
      ]

  -- The latency is the time since the batch was due.
  expected_latency-lt :
      (t now : ℕ) (s : State p)
      → OnTime Good t s
      → t ≤ now
      → now < 2 ^ 63
      → expected_latency p now s.conn < 2 ^ 63
  unfolding expected_latency
  expected_latency-lt t now s o h k = omega (arith, o.plan)

  account-OnTime :
      (cfg : Config) (t now : ℕ) (s : State p)
      → t ≤ now
      → now < 2 ^ 63
      → OnTime Good t s
      → OnTime Good now (account p cfg now s)
  unfolding account
  account-OnTime cfg t now s h k o =
      let c = record (s.conn) { complete = add64 s.conn.complete 1 } in
      let c' = record c { latest_should_send_time = 0; latest_expected_start = 0 } in
      record_latency-OnTime cfg now now (expected_latency p now c) (settle p (with_conn s c'))
        (expected_latency-lt t now (with_conn s c) (record { plan = o.plan; good = o.good }) h k)
        (settle-OnTime now (with_conn s c')
          (record { plan = omega (arith, o.plan); good = o.good }))

  after_delivery-OnTime :
      (cfg : Config) (t : ℕ) (m : Completing) (s : State p)
      → t ≤ m.now
      → m.now < 2 ^ 63
      → OnTime Good t s
      → OnTime Good m.now (after_delivery p cfg m s)
  unfolding after_delivery
  after_delivery-OnTime cfg t m s h k o =
      let a = account-OnTime cfg t m.now s h k o in
      elim (Bool-cases (leb s.thread.stop_at m.now)) [
        | inl e ↦ rw (e, after_delivery) (record { plan = omega (arith, o.plan); good = o.good })
        | inr e ↦ elim (Bool-cases m.keep_alive) [
          | inl y ↦ rw (e, y, after_delivery) a
          | inr n ↦
              rw (e, n, after_delivery)
                (Kept-OnTime Good m.now m.now
                  (reconnect_socket-Kept m.connecting (account p cfg m.now s)) (omega arith) a)
        ]
      ]

  response_complete-OnTime :
      (cfg : Config) (t : ℕ) (m : Completing) (s s' : State p) (call : Option ScriptCall)
      → t ≤ m.now
      → m.now < 2 ^ 63
      → OnTime Good t s
      → response_complete p cfg m s ≡ some (call, s')
      → OnTime Good m.now s'
  unfolding response_complete count_response
  response_complete-OnTime cfg t m s s' call h k o e =
      let (x, d, q) = >>=-eq-some (deliver m.status_code s.conn.response) _ e in
      let t' = count_response p m.status_code s.thread in
      let c = record (s.conn) { response = x.1 } in
      subst (OnTime Good m.now) (some_second _ q) (
        after_delivery-OnTime cfg t m (record s { thread = t'; conn = c }) h k
          (record { plan = o.plan; good = o.good }))

  later : (t t' : ℕ) (s : State p) → t ≤ t' → OnTime Good t s → OnTime Good t' s
  later t t' s h o = record { plan = omega (arith, o.plan); good = o.good }

  read_failed-OnTime :
      (libc : Realloc) (cfg : Config) (t : ℕ) (a : Connecting) (s : State p)
      → OnTime Good t s
      → OnTime Good t (read_failed p libc cfg a s)
  unfolding read_failed
  read_failed-OnTime libc cfg t a s o =
      Kept-OnTime Good t t (reconnect_socket-Kept a (with_errors s (count_read s.thread.errors)))
        (omega arith) (record { plan = o.plan; good = o.good })

  on_time :
      (libc : Realloc) (cfg : Config) (a : Connecting)
      → Keeps p libc cfg a clock (λ t s. OnTime Good t s)
  on_time libc cfg a = record {
    later = later;
    response = λ t s r o. record { plan = o.plan; good = o.good };
    complete = λ t m s s' call (h, k) o e. response_complete-OnTime cfg t m s s' call h k o e;
    failed = λ t s o. read_failed-OnTime libc cfg t a s o;
    bytes = λ t n s o. record { plan = o.plan; good = o.good };
  }

  pub readable_loop-OnTime :
      (libc : Realloc) (cfg : Config) (a : Connecting) (rs : List Reading) (t t' : ℕ)
      (s s' : State p)
      → ReadingsFrom clock t rs t'
      → OnTime Good t s
      → readable_loop p libc cfg a rs s ≡ some s'
      → OnTime Good t' s'
  readable_loop-OnTime libc cfg a rs t t' s s' h o e =
      readable_loop-Keeps p libc cfg a clock (λ t s. OnTime Good t s) rs t t' s s'
        (on_time libc cfg a) h o e
