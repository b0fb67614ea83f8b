-- ===== src/Thread/Completion.antt =====
-- wrk.c: `response_complete` and `socket_readable`. The HTTP parser is another library: what it
-- calls while it reads the bytes, and how many it takes, is an argument.
use wrkx.Prelude.{
  ℕ, Bool, true, false, Option, none, some, List, [], ◌∷◌, ◌==◌, ltb, leb, if◌then◌else◌, add64,
  sub64, ◌&&◌, ◌||◌, not, ◌>>=◌,
}
use wrkx.Buffer.Defs.{Realloc}
use wrkx.Response.Defs.{Callback, ScriptCall, callback, deliver}
use wrkx.EventLoop.{socket_writeable, writable}
use wrkx.Connection.State.{Connection, Status, ok, error, retry, read_eof}
use wrkx.Connection.Pacing.{due}
use wrkx.Thread.State.{
  Platform, Config, Thread, State, count_read, count_status, with_loop, with_errors, with_conn,
}
use wrkx.Thread.Socket.{Connecting, reconnect_socket}

-- What `response_complete` meets: the clock, the status code, `http_should_keep_alive`, and the
-- system's answers to a new connection.
pub record Completing : Type 0 where
  pub now : ℕ
  pub status_code : ℕ
  pub keep_alive : Bool
  pub connecting : Connecting

-- what the parser calls
pub data ParserCall : Type 0 where
  on_callback : Callback → ParserCall
  on_message_complete : Completing → ParserCall

-- One round of the loop of `socket_readable`: what `sock.read` returns and reads, what the parser
-- calls and how many bytes it takes, and whether `sock.readable` is positive.
pub record Reading : Type 0 where
  pub status : Status
  pub count : ℕ
  pub calls : List ParserCall
  pub parsed : ℕ
  pub more : Bool

-- where the `switch` on the status of `sock.read` goes: past it, to `error`, or back
pub data Switch : Type 0 where
  goes_on to_error returns : Switch

unfoldable pub switch_read : Status → Switch
switch_read ok = goes_on
switch_read error = to_error
switch_read retry = returns
switch_read read_eof = goes_on

-- RECVBUF
abbrev pub recvbuf : ℕ
recvbuf = 8192

module _ (p : Platform) where
  open p use {float, ae, hdr}

  -- `thread->complete++; thread->requests++; if (status > 399) thread->errors.status++;`
  unfoldable pub count_response : ℕ → Thread p → Thread p
  count_response status t = record t {
    complete = add64 t.complete 1;
    requests = add64 t.requests 1;
    errors = count_status (ltb 399 status) t.errors;
  }

  -- `now - expected_latency_start`, the bits of an int64_t
  unfoldable pub expected_latency : ℕ → Connection float.F → ℕ
  expected_latency now c =
      sub64 now (due float c.thread_start c.complete_at_last_batch_start c.throughput)

  -- `if (--c->pending == 0) { ... }`
  unfoldable pub settle : State p → State p
  settle s =
      let pending = sub64 s.conn.pending 1 in
      if pending == 0
      then (let (_, l) = ae.create_file_event s.thread.loop s.conn.fd writable socket_writeable in
          with_conn (with_loop s l) (record (s.conn) { pending = pending; has_pending = false }))
      else with_conn s (record (s.conn) { pending = pending })

  -- "Record if needed"
  unfoldable pub record_latency : Config → ℕ → ℕ → State p → State p
  record_latency cfg now timing s =
      if cfg.record_all_responses || not s.conn.has_pending
      then record s {
        thread = record (s.thread) {
          latency_histogram = hdr.record_value s.thread.latency_histogram timing;
          u_latency_histogram =
              hdr.record_value s.thread.u_latency_histogram (sub64 now s.conn.actual_latency_start);
        };
      }
      else s

  -- from "Count all responses" to the recording
  unfoldable pub account : Config → ℕ → State p → State p
  unfolding expected_latency settle record_latency
  account cfg now s =
      let c = record (s.conn) { complete = add64 s.conn.complete 1 } in
      let timing = expected_latency now c in
      record_latency cfg now timing
        (settle (with_conn s (record c { latest_should_send_time = 0; latest_expected_start = 0 })))

  -- from `if (now >= thread->stop_at)` on
  unfoldable pub after_delivery : Config → Completing → State p → State p
  unfolding account
  after_delivery cfg m s =
      if leb s.thread.stop_at m.now
      then with_loop s (ae.stop s.thread.loop)
      else (let s' = account cfg m.now s in
          if m.keep_alive then s' else reconnect_socket p m.connecting s')

  -- the new state, and the call of the script if there is one
  unfoldable pub response_complete :
      Config → Completing → State p → Option (Option ScriptCall × State p)
  unfolding count_response after_delivery
  response_complete cfg m s =
      let t = count_response m.status_code s.thread in
      deliver m.status_code s.conn.response >>= λ (call, r). some (
        call,
        after_delivery cfg m (record s { thread = t; conn = record (s.conn) { response = r } }),
      )

  module _ (libc : Realloc) (cfg : Config) where
    -- `http_parser_execute`: the parser's calls in order
    unfoldable pub parser_call : ParserCall → State p → Option (State p)
    unfolding response_complete
    parser_call (on_callback e) s = callback libc s.conn.response e >>= λ r.
        some (with_conn s (record (s.conn) { response = r }))
    parser_call (on_message_complete m) s = response_complete cfg m s >>= λ (_, s'). some s'

    unfoldable pub parser_calls : List ParserCall → State p → Option (State p)
    unfolding parser_call
    parser_calls [] s = some s
    parser_calls (e ∷ es) s = parser_call e s >>= λ s'. parser_calls es s'

    -- the label `error` of `socket_readable`
    unfoldable pub read_failed : Connecting → State p → State p
    read_failed a s = reconnect_socket p a (with_errors s (count_read s.thread.errors))

    abbrev pub add_bytes : ℕ → State p → State p
    add_bytes n s = record s { thread = record (s.thread) { bytes = add64 s.thread.bytes n } }

    -- `if (read_status == READ_EOF) goto error;`
    unfoldable pub end_of_reading : Connecting → Status → State p → State p
    unfolding read_failed
    end_of_reading a read_eof s = read_failed a s
    end_of_reading a ok s = s
    end_of_reading a error s = s
    end_of_reading a retry s = s

    -- The loop of `socket_readable` over what the rounds meet; `none` if there is no further round.
    unfoldable pub readable_loop : Connecting → List Reading → State p → Option (State p)
    unfolding parser_calls read_failed end_of_reading switch_read
    readable_loop a [] s = none
    readable_loop a (r ∷ rs) s = elim (switch_read r.status) [
      | returns ↦ some s
      | to_error ↦ some (read_failed a s)
      | goes_on ↦ parser_calls r.calls s >>= λ s'. elim (r.parsed == r.count) [
        | false ↦ some (read_failed a s')
        | true ↦ elim ((r.count == recvbuf) && r.more) [
          | true ↦ readable_loop a rs (add_bytes r.count s')
          | false ↦ some (end_of_reading a r.status (add_bytes r.count s'))
        ]
      ]
    ]
