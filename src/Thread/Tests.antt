-- ===== src/Thread/Tests.antt =====
-- Runs of the handlers of wrk.c on the sample platform, and the theorems there.
use wrkx.Prelude.{ℕ, ◌^◌, ◌<◌, ◌≡◌, refl, true, Option, none, some, List, [], ◌∷◌, arith}
use mathlib.Core.Option
use wrkx.Buffer.Samples.{clearing}
use wrkx.Response.Defs.{deliver}
use wrkx.Float.{round_to_ms, to_long_long}
use wrkx.Connection.State.{Connection, ok}
use wrkx.Thread.State.{State}
use wrkx.Thread.Socket.{
  Connecting, delayed_initial_connect, socket_connected_as, socket_writeable_with, connect_socket,
  reconnect_socket, start_write, written_as, begin_batch, prepare, delay, sent,
}
use wrkx.Connection.Pacing.{usec_to_next_send, fall_behind, decide}
use wrkx.Thread.Completion.{
  Completing, on_message_complete, readable_loop, settle, parser_calls, parser_call,
  response_complete, count_response, after_delivery, account, record_latency, expected_latency,
  switch_read, end_of_reading,
}
use wrkx.Thread.Run.{Step, here, next, connected, writeable, latency_never_negative}
use wrkx.Thread.Samples.{
  whole, whole_laws, listing_laws, platform, settings, new_thread, new_connection, new_state,
  connecting, writing, completing, reading,
}
use wrkx.Connection.Schedule.{timer_then_send}
use wrkx.Thread.Batch.{BatchDone, batch_done}
use wrkx.Prelude.{map}

-- the state after each handler's call
abbrev pub started : State platform
started = delayed_initial_connect platform 1000 connecting new_state

abbrev pub open_state : State platform
open_state = socket_connected_as platform ok 7 connecting started

abbrev pub sent_state : State platform
sent_state = socket_writeable_with platform settings 7 writing connecting open_state

abbrev answered : Option (State platform)
answered = readable_loop platform clearing settings connecting (reading ∷ []) sent_state

-- The request was due at 1000 and answered at 2000.
answered_latency :
    Option.map (λ (s : State platform). s.thread.latency_histogram) answered ≡ some (1000 ∷ [])
unfolding readable_loop socket_writeable_with socket_connected_as delayed_initial_connect deliver
    reconnect_socket usec_to_next_send fall_behind decide start_write written_as begin_batch prepare
    delay sent connect_socket parser_calls parser_call response_complete count_response
    after_delivery account settle record_latency expected_latency switch_read end_of_reading
answered_latency = refl

abbrev some_or : State platform → Option (State platform) → State platform
some_or d none = d
some_or d (some s) = s

abbrev AllBelow : List ℕ → Type 0
AllBelow [] = Unit {0}
AllBelow (v ∷ h) = (v < 2 ^ 63) × AllBelow h

abbrev pub answered_state : State platform
answered_state = some_or sent_state answered

pub read_steps :
    readable_loop platform clearing settings connecting (reading ∷ []) sent_state
    ≡ some answered_state
unfolding readable_loop socket_writeable_with socket_connected_as delayed_initial_connect deliver
    reconnect_socket usec_to_next_send fall_behind decide start_write written_as begin_batch prepare
    delay sent connect_socket parser_calls parser_call response_complete count_response
    after_delivery account settle record_latency expected_latency switch_read end_of_reading
read_steps = refl

latency_never_negative_example : AllBelow answered_state.thread.latency_histogram
latency_never_negative_example =
    latency_never_negative {p = platform} {libc = clearing} {cfg = settings} AllBelow
      (λ h v l g. (l, g)) whole_laws 1000 2000 connecting new_state answered_state (omega arith)
      (omega arith) refl tt
      (next
        (next (next here (connected 1000 started open_state 7 ok connecting refl)) (
          writeable 1000 1500 open_state sent_state 7 writing connecting (omega arith) (omega arith)
            refl))
        (Step.readable 1500 2000 sent_state answered_state connecting (reading ∷ [])
          (2000, ((omega arith, omega arith), omega arith), omega arith) read_steps))

-- on pace, with a request due at 1500
abbrev pub paced : Connection ℕ
paced = record new_connection { thread_start = 1000; complete = 500 }

timer_then_send_example :
    ((usec_to_next_send whole 2300 (usec_to_next_send whole 1200 paced).1).0 ≡ 0)
    × (to_long_long (round_to_ms whole 300) ≡ round_to_ms whole 300)
unfolding usec_to_next_send
timer_then_send_example =
    timer_then_send whole whole_laws 1200 2300 paced (omega arith) (omega arith) (omega arith)
      (omega arith) (omega arith)

-- a batch of two requests in flight on descriptor 7
abbrev pub in_flight : State platform
in_flight = record {
  thread = new_thread;
  conn = record new_connection { fd = 7; thread_start = 1000; pending = 2; has_pending = true };
}

abbrev second : Completing
second = record completing { now = 2100; status_code = 404 }

batch_done_example :
    (s' : State platform) × (parser_calls platform clearing settings
        (map on_message_complete (completing ∷ second ∷ []))
        in_flight
      ≡ some s')
    × BatchDone platform clearing settings in_flight (completing ∷ second ∷ []) s'
batch_done_example =
    batch_done platform clearing settings listing_laws completing (second ∷ []) in_flight refl refl
      refl refl (omega arith) ((omega arith, refl, (omega arith, refl, tt)))

abbrev pub refusing : Connecting
refusing = record connecting { refused = true }
