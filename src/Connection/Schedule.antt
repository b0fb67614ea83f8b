-- ===== src/Connection/Schedule.antt =====
-- What `usec_to_next_send` promises (wrk.c): no request before its time, and a wait that is enough.
use wrkx.Prelude.{
  ℕ, ◌+◌, ◌-◌, ◌*◌, ◌/◌, ◌^◌, ◌≤◌, ◌<◌, ◌≡◌, ◌≢◌, ◌↔◌, refl, ap, ◌∙◌, true, ltb-false, lt→ltb,
  sub64, dec_lt, arith,
}
use wrkx.Float.{Float, Laws, round_to_ms, to_long_long}
use wrkx.Connection.State.{Connection}
use wrkx.Connection.Pacing.{due, planned, catch_up_planned, fall_behind, decide, usec_to_next_send}

module _ (f : Float) where
  -- `usec_to_next_send` lets a connection send exactly if the request is due by the plan and, with
  -- the catch-up period that this call may begin, by the plan of the period.
  pub send_iff :
      (now : ℕ) (c : Connection f.F)
      → ((usec_to_next_send f now c).0 ≡ 0)
        ↔ ((planned f c ≤ now) × (catch_up_planned f (fall_behind f now c) ≤ now))
  unfolding usec_to_next_send
  send_iff now c = ground arith

  pub due_zero :
      (l : Laws f) (s : ℕ) (rate : f.F) → l.Positive rate → s ≤ 2 ^ 53 → due f s 0 rate ≡ s
  due_zero l s rate p h =
      ap f.to_u64 (ap (f.add (f.of_u64 s)) (l.div_zero rate p) ∙ l.add_zero s) ∙ l.exact s h

  -- a catch-up period begins with a request that is due at once
  catch_up_starts :
      (l : Laws f) (now : ℕ) (c : Connection f.F)
      → l.Positive c.catch_up_throughput
      → now ≤ 2 ^ 53
      → c.caught_up ≡ true
      → catch_up_planned f (fall_behind f now c) ≡ now
  unfolding fall_behind
  catch_up_starts l now c p h e =
      let z : sub64 c.complete c.complete ≡ 0 = omega arith in
      rw (e, z) (due_zero l now c.catch_up_throughput p h)

  -- The three ends of a call.
  pub data Outcome (now : ℕ) (c : Connection f.F) : ℕ × Connection f.F → Type 0 where
    on_pace : now < planned f c → Outcome now c (planned f c - now, record c { caught_up = true })
    catching_up :
        planned f c ≤ now
        → now < catch_up_planned f (fall_behind f now c)
        → Outcome now c (catch_up_planned f (fall_behind f now c) - now, fall_behind f now c)
    sending :
        planned f c ≤ now
        → catch_up_planned f (fall_behind f now c) ≤ now
        → Outcome now c (
          0,
          record (fall_behind f now c) {
            latest_should_send_time = now;
            latest_expected_start = catch_up_planned f (fall_behind f now c);
          },
        )

  pub usec_to_next_send-Outcome :
      (now : ℕ) (c : Connection f.F) → Outcome now c (usec_to_next_send f now c)
  unfolding usec_to_next_send decide
  usec_to_next_send-Outcome now c = elim (dec_lt now (planned f c)) [
    | yes h ↦ rw (lt→ltb now (planned f c) h) (on_pace h)
    | no h ↦
        rw (ltb-false now (planned f c) (omega arith))
          (elim (dec_lt now (catch_up_planned f (fall_behind f now c))) [
            | yes k ↦
                rw (lt→ltb now (catch_up_planned f (fall_behind f now c)) k)
                  (catching_up (omega arith) k)
            | no k ↦
                rw (ltb-false now (catch_up_planned f (fall_behind f now c)) (omega arith))
                  (sending (omega arith) (omega arith))
          ])
  ]

  planned-fall_behind :
      (now : ℕ) (c : Connection f.F) → planned f (fall_behind f now c) ≡ planned f c
  unfolding fall_behind
  planned-fall_behind now c = ground arith

  fall_behind_again :
      (later now : ℕ) (c : Connection f.F)
      → fall_behind f later (fall_behind f now c) ≡ fall_behind f now c
  unfolding fall_behind
  fall_behind_again later now c = ground arith

  -- What a call that says to wait leaves is ready to send at any later time from `then` on.
  wait_enough :
      (l : Laws f) (now later : ℕ) (c : Connection f.F) (out : ℕ × Connection f.F)
      → l.Positive c.catch_up_throughput
      → later ≤ 2 ^ 53
      → Outcome now c out
      → out.0 ≢ 0
      → now + out.0 ≤ later
      → (usec_to_next_send f later out.1).0 ≡ 0
  wait_enough l now later c _ p o (on_pace h) w e =
      (send_iff later _).1 (
        omega arith,
        omega (arith, catch_up_starts l later (record c { caught_up = true }) p o refl),
      )
  wait_enough l now later c _ p o (catching_up h k) w e = (send_iff later (fall_behind f now c)).1 (
    omega (arith, planned-fall_behind now c),
    omega (arith, ap (catch_up_planned f) (fall_behind_again later now c)),
  )
  wait_enough l now later c _ p o (sending h k) w e = absurd (w refl)

  -- If `usec_to_next_send` says to wait, then once that time has passed, or more, it says to send.
  -- Times stay below 2 ^ 53 microseconds, and the catch-up rate is positive.
  pub wait_then_send :
      (l : Laws f) (now later : ℕ) (c : Connection f.F)
      → l.Positive c.catch_up_throughput
      → later ≤ 2 ^ 53
      → (usec_to_next_send f now c).0 ≢ 0
      → now + (usec_to_next_send f now c).0 ≤ later
      → (usec_to_next_send f later (usec_to_next_send f now c).1).0 ≡ 0
  wait_then_send l now later c p o w e =
      wait_enough l now later c _ p o (usec_to_next_send-Outcome now c) w e

  -- The timer that `socket_writeable` or `delay_request` sets is long enough: once its milliseconds
  -- have passed, `usec_to_next_send` says to send; and the int that holds them becomes the same long
  -- long. The wait fits an int, the times are below 2 ^ 53 microseconds, and the catch-up rate is
  -- positive.
  pub timer_then_send :
      (l : Laws f) (now later : ℕ) (c : Connection f.F)
      → l.Positive c.catch_up_throughput
      → later ≤ 2 ^ 53
      → (usec_to_next_send f now c).0 ≢ 0
      → (usec_to_next_send f now c).0 / 1000 + 1 < 2 ^ 31
      → now + 1000 * round_to_ms f (usec_to_next_send f now c).0 ≤ later
      → ((usec_to_next_send f later (usec_to_next_send f now c).1).0 ≡ 0)
        × (to_long_long (round_to_ms f (usec_to_next_send f now c).0)
            ≡ round_to_ms f (usec_to_next_send f now c).0)
  timer_then_send l now later c p o w b e =
      let r = l.round_up (usec_to_next_send f now c).0 b in
      (wait_then_send l now later c p o w (omega (arith, r)), ground (arith, r, b))
