-- ===== src/Thread/Run.antt =====
-- The handlers of wrk.c in any order in which the event loop calls them for one connection, with a
-- clock that does not go back.
use wrkx.Prelude.{ℕ, ◌≤◌, ◌<◌, ◌≡◌, ◌^◌, some, List, subst, sym, arith}
use wrkx.Buffer.Defs.{Realloc}
use wrkx.Float.{Laws}
use wrkx.Connection.State.{Status}
use wrkx.Thread.State.{Platform, Config, State}
use wrkx.Thread.Socket.{
  Connecting, Writing, delayed_initial_connect, socket_connected_as, socket_writeable_with,
  delay_request_at,
}
use wrkx.Thread.Completion.{Reading, readable_loop}
use wrkx.Thread.OnTime.{
  OnTime, socket_writeable-OnTime, delay_request-OnTime, socket_connected-OnTime,
  delayed_initial_connect-OnTime,
}
use wrkx.Thread.Induction.{ReadingsFrom}
use wrkx.Thread.Latency.{clock, readable_loop-OnTime}

module _ (p : Platform) (libc : Realloc) (cfg : Config) where
  -- A handler's call, with the times before and after it.
  pub data Step : ℕ → State p → ℕ → State p → Type 0 where
    connected :
        (t : ℕ) (s s' : State p) (fd : ℕ) (st : Status) (a : Connecting)
        → s' ≡ socket_connected_as p st fd a s
        → Step t s t s'
    writeable :
        (t t' : ℕ) (s s' : State p) (fd : ℕ) (w : Writing) (a : Connecting)
        → t ≤ w.now
        → w.now ≤ t'
        → s' ≡ socket_writeable_with p cfg fd w a s
        → Step t s t' s'
    delayed :
        (t t' : ℕ) (s s' : State p) → t ≤ t' → s' ≡ (delay_request_at p t' s).1 → Step t s t' s'
    readable :
        (t t' : ℕ) (s s' : State p) (a : Connecting) (rs : List Reading)
        → ReadingsFrom clock t rs t'
        → readable_loop p libc cfg a rs s ≡ some s'
        → Step t s t' s'

  pub data Steps (t : ℕ) (s : State p) : ℕ → State p → Type 0 where
    here : Steps t s t s
    next : {u t' : ℕ} {r s' : State p} → Steps t s u r → Step u r t' s' → Steps t s t' s'

module _ {p : Platform} {libc : Realloc} {cfg : Config} (Good : p.hdr.H → Type 0)
    (keeps : (h : p.hdr.H) (v : ℕ) → v < 2 ^ 63 → Good h → Good (p.hdr.record_value h v)) where
  Step-OnTime :
      {t t' : ℕ} {s s' : State p} → Step p libc cfg t s t' s' → OnTime Good t s → OnTime Good t' s'
  Step-OnTime (connected t s s' fd st a e) o =
      subst (OnTime Good t) (sym e) (socket_connected-OnTime Good t fd st a s o)
  Step-OnTime (writeable t t' s s' fd w a h k e) o =
      let o' = socket_writeable-OnTime Good cfg t fd w a s h o in
      subst (OnTime Good t') (sym e) (record { plan = omega (arith, o'.plan); good = o'.good })
  Step-OnTime (delayed t t' s s' h e) o =
      subst (OnTime Good t') (sym e) (delay_request-OnTime Good t t' s h o)
  Step-OnTime (readable t t' s s' a rs h e) o =
      readable_loop-OnTime Good keeps libc cfg a rs t t' s s' h o e

  Steps-OnTime :
      {t : ℕ} {s : State p} {t' : ℕ} {s' : State p}
      → Steps p libc cfg t s t' s'
      → OnTime Good t s
      → OnTime Good t' s'
  Steps-OnTime here o = o
  Steps-OnTime (next r st) o = Step-OnTime st (Steps-OnTime r o)

  -- From the moment at which `delayed_initial_connect` runs, whatever the handlers meet and in
  -- whatever order they are called: no latency that `response_complete` records is negative. That
  -- is, whatever holds of the latency histogram and is kept by every record of a value below 2 ^ 63
  -- goes on to hold. It rests on a clock that does not go back, a positive rate, and times below
  -- 2 ^ 53 at the start.
  pub latency_never_negative :
      (l : Laws p.float) (now t' : ℕ) (a : Connecting) (s s' : State p)
      → l.Positive s.conn.throughput
      → now ≤ 2 ^ 53
      → s.conn.complete_at_last_batch_start ≡ 0
      → Good s.thread.latency_histogram
      → Steps p libc cfg now (delayed_initial_connect p now a s) t' s'
      → Good s'.thread.latency_histogram
  latency_never_negative l now t' a s s' q h z g r =
      (Steps-OnTime r (delayed_initial_connect-OnTime Good l now a s q h z g)).good
