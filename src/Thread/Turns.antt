-- ===== src/Thread/Turns.antt =====
-- The handlers of wrk.c as the event loop calls them for a connection: those that it has for the
-- connection's descriptor, and its timers.
use wrkx.Prelude.{
  ℕ, suc, ◌+◌, ◌≡◌, ◌≢◌, ◌⊎◌, inl, inr, Option, some, List, ◌∷◌, ◌++◌, length, length-append, subst,
  sym, ap, ◌∙◌, arith,
}
use wrkx.Buffer.Defs.{Realloc}
use wrkx.EventLoop.{
  LoopLaws, TimeProc, FileProc, socket_connected, socket_writeable, socket_readable, delay_request,
}
use wrkx.Connection.State.{Status}
use wrkx.Thread.State.{Platform, Config, State}
use wrkx.Thread.Socket.{
  Connecting, Writing, socket_connected_as, socket_writeable_with, delay_request_at,
}
use wrkx.Thread.Completion.{Reading, readable_loop}
use wrkx.Thread.Live.{Live, Accepted, socket_connected-Live}
use wrkx.Thread.LiveWrites.{socket_writeable-Live, delay_request-Live, left, Live-mono}
use wrkx.Thread.Responses.{AllReadings, AllReadings-mono}
use wrkx.Thread.Away.{Away, socket_connected-Away, socket_writeable-Away, delay_request-Away}
use wrkx.Thread.AwayReads.{readable_loop-Away}
use wrkx.Thread.Answers.{Answered, readable_loop-Live}

module _ (p : Platform) (l : LoopLaws p.ae) (libc : Realloc) (cfg : Config) where
  open p use {ae}

  -- what the loop calls for the connection's descriptor
  abbrev ReadsBy : State p → FileProc → Type 0
  ReadsBy s f = ae.on_readable s.thread.loop s.conn.fd ≡ some f

  abbrev WritesBy : State p → FileProc → Type 0
  WritesBy s f = ae.on_writable s.thread.loop s.conn.fd ≡ some f

  -- One call of a handler for this connection by the loop, whose new connections all satisfy `Ok`;
  -- the numbers are the timers of `delay_request` that are set for it, before and after.
  pub data Call (Ok : Connecting → Type 0) : ℕ → State p → ℕ → State p → Type 0 where
    connected :
        (k : ℕ) (s s' : State p) (st : Status) (a : Connecting)
        → ReadsBy s socket_connected ⊎ WritesBy s socket_connected
        → Ok a
        → s' ≡ socket_connected_as p st s.conn.fd a s
        → Call Ok k s k s'
    writeable :
        (k : ℕ) (s s' : State p) (w : Writing) (a : Connecting) (new : List (ℕ × TimeProc))
        → WritesBy s socket_writeable
        → Ok a
        → s' ≡ socket_writeable_with p cfg s.conn.fd w a s
        → ae.timers s'.thread.loop ≡ new ++ ae.timers s.thread.loop
        → Call Ok k s (length new + k) s'
    readable :
        (k : ℕ) (s s' : State p) (a : Connecting) (rs : List Reading)
        → ReadsBy s socket_readable
        → Ok a
        → AllReadings (Answered Ok s.conn.written) rs
        → readable_loop p libc cfg a rs s ≡ some s'
        → Call Ok k s k s'
    -- one of the connection's timers runs
    delayed :
        (j now : ℕ) (s s' : State p) (again : Option ℕ)
        → delay_request_at p now s ≡ (again, s')
        → Call Ok (suc j) s (left again j) s'

  -- A timer that a call has set is one of the new ones.
  Live-new :
      (k : ℕ) (s s' : State p) (new : List (ℕ × TimeProc)) (t : ℕ × TimeProc)
      → ae.timers s'.thread.loop ≡ new ++ ae.timers s.thread.loop
      → ae.timers s'.thread.loop ≡ t ∷ ae.timers s.thread.loop
      → Live p l (suc k) s'
      → Live p l (length new + k) s'
  Live-new k s s' new t e f v =
      let n : length new ≡ 1 =
        omega (arith, length-append new (ae.timers s.thread.loop), ap length e, ap length f) in
      Live-mono p l (suc k) (length new + k) s' (λ h z. omega (arith, n)) v

  pub Call-Live :
      {Ok : Connecting → Type 0} {k k' : ℕ} {s s' : State p}
      → cfg.pipeline ≢ 0
      → ((a : Connecting) → Ok a → Accepted p l a)
      → Call Ok k s k' s'
      → Live p l k s
      → Live p l k' s'
  Call-Live n ok (connected k s s' st a h x e) v =
      subst (Live p l k) (sym e) (socket_connected-Live p l k st a s (ok a x) v)
  Call-Live n ok (writeable k s s' w a new h x e t) v =
      elim (socket_writeable-Live p l k cfg w a s (ok a x) n v) [
        | inl u ↦
            Live-mono p l k (length new + k) s' (λ h z. h (omega arith))
              (subst (Live p l k) (sym e) u)
        | inr (u, (ms, q)) ↦
            Live-new k s s' new (ms, delay_request) t (ap (λ r. ae.timers r.thread.loop) e ∙ q)
              (subst (Live p l (suc k)) (sym e) u)
      ]
  Call-Live {Ok = Ok} n ok (readable k s s' a rs h x f e) v =
      let f' =
        AllReadings-mono (Answered Ok s.conn.written) (Answered (Accepted p l) s.conn.written) rs
          (λ m (z, o). (z, ok m.connecting o)) f in
      readable_loop-Live p l libc cfg k a rs s s' (ok a x) f' v e
  Call-Live n ok (delayed j now s s' again e) v =
      subst (λ (r : Option ℕ × State p). Live p l (left r.0 j) r.1) e
        (delay_request-Live p l j now s v)

  pub Call-Away :
      {Ok : Connecting → Type 0} {k k' : ℕ} {s s' : State p} (fd : ℕ)
      → ((a : Connecting) → Ok a → a.fd ≢ fd)
      → Call Ok k s k' s'
      → Away p l fd s s'
  Call-Away fd ok (connected k s s' st a h x e) =
      subst (Away p l fd s) (sym e) (socket_connected-Away p l fd st a s (ok a x))
  Call-Away fd ok (writeable k s s' w a new h x e t) =
      subst (Away p l fd s) (sym e) (socket_writeable-Away p l fd cfg w a s (ok a x))
  Call-Away {Ok = Ok} fd ok (readable k s s' a rs h x f e) =
      readable_loop-Away p l libc cfg fd a rs s s' (ok a x)
        (AllReadings-mono (Answered Ok s.conn.written) (λ m. m.connecting.fd ≢ fd) rs
          (λ m (z, o). ok m.connecting o) f)
        e
  Call-Away fd ok (delayed j now s s' again e) =
      subst (λ (r : Option ℕ × State p). Away p l fd s r.1) e (delay_request-Away p l fd now s)
