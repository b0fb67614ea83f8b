-- ===== src/Thread/TurnTests.antt =====
-- Runs of the handlers of wrk.c as the event loop calls them, on the sample platform.
use wrkx.Prelude.{
  Option, ℕ, ◌≡◌, ◌≢◌, ◌==◌, ==_iff, Bool-cases, refl, none, some, [], ◌∷◌, inl, inr, arith,
}
use wrkx.Buffer.Samples.{clearing}
use wrkx.EventLoop.{socket_connected, socket_writeable, delay_request}
use wrkx.Connection.State.{ok, error}
use wrkx.Connection.Pacing.{usec_to_next_send}
use wrkx.Thread.State.{State}
use wrkx.Thread.Socket.{
  Connecting, Writing, delayed_initial_connect, socket_connected_as, socket_writeable_with,
  connect_socket, reconnect_socket, delay_request_at,
}
use wrkx.Thread.Completion.{Reading, on_message_complete, parser_calls, readable_loop}
use wrkx.Thread.LiveWrites.{left}
use wrkx.Thread.Refused.{Woken, refused-Call}
use wrkx.Thread.Stale.{stale_timer}
use wrkx.Thread.Turns.{Call, connected, delayed}
use wrkx.Thread.World.{waiting, started, World, view, put, Move, Moves, here, next, Watched}
use wrkx.Thread.Idle.{never_idle}
use wrkx.Thread.Early.{early_response}
use wrkx.Thread.Samples.{
  whole_laws, reading, listing_laws, platform, settings, connecting, writing, completing,
  new_thread, new_connection,
}
use wrkx.Thread.Tests.{started as first_state, open_state, in_flight, refusing, paced}

abbrev all_waiting : World platform
all_waiting = record {
  thread = new_thread;
  slots = λ j. record { conn = new_connection; phase = waiting };
}

-- Connection 0 is started and connected, then connection 1 is started.
abbrev one_started : World platform
one_started = put platform listing_laws all_waiting 0 (started 0) first_state

abbrev one_open : World platform
one_open = put platform listing_laws one_started 0 (started 0) open_state

abbrev connecting_next : Connecting
connecting_next = record connecting { fd = 8 }

abbrev both_started : World platform
both_started =
    put platform listing_laws one_open 1 (started 0) (
      delayed_initial_connect platform 1005 connecting_next (view platform listing_laws one_open 1))

none_started : {k : ℕ} → waiting ≡ started k → ⊥
none_started e = cc

only_first : (j k : ℕ) → j ≢ 0 → (one_started.slots j).phase ≡ started k → ⊥
only_first j k ne e = elim (Bool-cases (j == 0)) [
  | inl q ↦ ne ((==_iff j 0).0 q)
  | inr q ↦ none_started (rw q at e)
]

first_fd : (j k : ℕ) → (one_open.slots j).phase ≡ started k → (one_open.slots j).conn.fd ≡ 7
unfolding socket_connected_as delayed_initial_connect connect_socket
first_fd j k e = elim (Bool-cases (j == 0)) [
  | inl q ↦ rw q refl
  | inr q ↦ absurd (none_started (rw q at e))
]

moves : Moves platform listing_laws clearing settings all_waiting both_started
unfolding socket_connected_as delayed_initial_connect connect_socket
moves =
    next
      (next
        (next here
          (Move.starts 0 1000 connecting refl ((refl, refl), λ j k ne e. absurd (none_started e))))
        (Move.calls 0 0 0 open_state refl (
          connected 0 first_state open_state ok connecting (inr refl)
            ((refl, refl), λ j k ne e. absurd (only_first j k ne e)) refl)))
      (Move.starts 1 1005 connecting_next refl
        ((refl, refl), λ j k ne e z. let q = first_fd j k e in omega (arith, q, z)))

never_idle_example : Watched platform listing_laws both_started
never_idle_example =
    never_idle platform listing_laws clearing settings all_waiting both_started (λ e. omega arith)
      (λ j. refl) (λ j. refl) moves

-- 15 of the 40 bytes of the only request in flight are written.
abbrev half_sent : State platform
half_sent = record in_flight { conn = record in_flight.conn { pending = 1; written = 15 } }

abbrev rest : Writing
rest = record writing { count = 25 }

early_response_example :
    (s₁ : State platform) × (parser_calls platform clearing settings
        (on_message_complete completing ∷ [])
        half_sent
      ≡ some s₁)
    × (let s' = socket_writeable_with platform settings 7 rest connecting s₁ in
        (s'.thread.loop.on_write 7 ≡ none)
        × (s'.thread.loop.timers ≡ [])
        × (s'.conn.pending ≡ 0)
        × (s'.conn.written ≡ 0))
early_response_example =
    early_response platform listing_laws clearing settings completing rest connecting half_sent refl
      refl refl (omega arith) refl (λ e. omega arith) refl refl

-- The renewal of the connection on descriptor 7 is refused while a timer is set, which runs then.
abbrev given_up : State platform
given_up = reconnect_socket platform refusing in_flight

abbrev woken : Option ℕ × State platform
woken = delay_request_at platform 2000 given_up

timer_runs :
    Call platform listing_laws clearing settings (λ a. Unit {0}) 1 given_up (left woken.0 0) woken.1
timer_runs = delayed 0 2000 given_up woken.1 woken.0 refl

refused-Call_example :
    (given_up.thread.errors.connect ≡ 1)
    × (given_up.conn ≡ in_flight.conn)
    × (given_up.thread.loop.timers ≡ [])
    × (◌≢◌ {A = ℕ} 1 0)
    × ((now : ℕ) × ((again : Option ℕ) × (delay_request_at platform now given_up ≡ (again, woken.1))
          × (woken.1.thread.loop.on_read 7 ≡ none)
          × Woken platform listing_laws clearing settings 7 again woken.1))
refused-Call_example =
    refused-Call platform listing_laws clearing settings refusing in_flight refl refl timer_runs

-- a connection on descriptor 7 that waits for 1500, and a read that fails
abbrev early : State platform
early = record { thread = new_thread; conn = record paced { fd = 7 } }

abbrev early_write : Writing
early_write = record writing { now = 1200 }

abbrev failing : Reading
failing = record reading { status = error }

stale_timer_example :
    (s : State platform) × (readable_loop platform clearing settings connecting_next
        (failing ∷ [])
        (socket_writeable_with platform settings 7 early_write connecting early)
      ≡ some s)
    × (s.conn.fd ≡ 8)
    × (s.thread.loop.timers ≡ (1, delay_request) ∷ [])
    × (s.thread.loop.on_read 8 ≡ some socket_connected)
    × (s.thread.loop.on_write 8 ≡ some socket_connected)
    × ((delay_request_at platform 1500 s).0 ≡ none)
    × ((delay_request_at platform 1500 s).1.thread.loop.on_read 8 ≡ some socket_connected)
    × ((delay_request_at platform 1500 s).1.thread.loop.on_write 8 ≡ some socket_writeable)
unfolding usec_to_next_send
stale_timer_example =
    stale_timer platform listing_laws clearing settings whole_laws early_write connecting
      connecting_next failing [] 1500 early (refl, refl) refl (omega arith) refl (omega arith)
      (omega arith) (omega arith)
