-- ===== src/Connection/Pacing.antt =====
-- wrk.c: `usec_to_next_send`: when a connection sends its next request.
use wrkx.Prelude.{ℕ, ◌-◌, true, false, Bool, ltb, if◌then◌else◌, sub64}
use wrkx.Float.{Float}
use wrkx.Connection.State.{Connection}

module _ (f : Float) where
  -- `start + (n / rate)`: the time at which request `n` is due
  abbrev pub due : ℕ → ℕ → f.F → ℕ
  due start n rate = f.to_u64 (f.add (f.of_u64 start) (f.div (f.of_u64 n) rate))

  -- the plan, and the plan of the present catch-up period
  abbrev pub planned : Connection f.F → ℕ
  planned c = due c.thread_start c.complete c.throughput

  abbrev pub catch_up_planned : Connection f.F → ℕ
  catch_up_planned c =
      due c.catch_up_start_time (sub64 c.complete c.complete_at_catch_up_start)
        c.catch_up_throughput

  -- `if (c->caught_up) { ... }` of the branch "We are behind"
  unfoldable pub fall_behind : ℕ → Connection f.F → Connection f.F
  fall_behind now c =
      if c.caught_up
      then record c {
        caught_up = false;
        catch_up_start_time = now;
        complete_at_catch_up_start = c.complete;
      }
      else c

  -- the end of `usec_to_next_send`
  unfoldable pub decide : ℕ → Bool → ℕ → Connection f.F → ℕ × Connection f.F
  decide now true next c =
      (0, record c { latest_should_send_time = now; latest_expected_start = next })
  decide now false next c = (next - now, c)

  -- `now` is the clock's value. `next - now` runs only at `now < next`.
  unfoldable pub usec_to_next_send : ℕ → Connection f.F → ℕ × Connection f.F
  unfolding fall_behind decide
  usec_to_next_send now c =
      if ltb now (planned c)
      then decide now false (planned c) (record c { caught_up = true })
      else (let b = fall_behind now c in
          let next = catch_up_planned b in
          if ltb now next then decide now false next b else decide now true next b)
