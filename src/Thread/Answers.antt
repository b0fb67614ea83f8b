-- ===== src/Thread/Answers.antt =====
-- Something will call a handler for the connection again, after `socket_readable` of wrk.c: the
-- responses are counted, or the connection is opened again.
use wrkx.Prelude.{
  ℕ, ◌≡◌, ◌≢◌, refl, ◌∙◌, Bool-cases, inl, inr, Option, some, List, ◌==◌, leb, ◌||◌, not, sub64,
  subst, >>=-eq-some, some_second, arith, sym,
}
use wrkx.Buffer.Defs.{Realloc}
use wrkx.Response.Defs.{ScriptCall, deliver}
use wrkx.EventLoop.{LoopLaws, socket_writeable, writable}
use wrkx.Thread.State.{Platform, Config, State, count_read, with_errors, with_loop}
use wrkx.Thread.Socket.{Connecting, connect_socket, reconnect_socket}
use wrkx.Thread.Completion.{
  Completing, Reading, count_response, settle, record_latency, account, after_delivery,
  response_complete, read_failed, readable_loop,
}
use wrkx.Thread.Induction.{Keeps, readable_loop-Keeps}
use wrkx.Thread.Responses.{AllReadings, standing, AllReadings-ReadingsFrom}
use wrkx.Thread.Live.{Live, Accepted, reconnect_socket-Live, Live-with_conn}

-- A response does not end before the request is sent whole (`written` is 0); and something holds of
-- the connection that is opened if the server closes this one.
abbrev pub Answered : (Connecting → Type 0) → ℕ → Completing → Type 0
Answered Ok written m = (written ≡ 0) × Ok m.connecting

module _ (p : Platform) (l : LoopLaws p.ae) where
  open p use {float, ae, hdr}

  -- `Live`, and as much of the request written as at the start of the handler
  abbrev LiveAt : ℕ → ℕ → State p → Type 0
  LiveAt k n s = (s.conn.written ≡ n) × Live p l k s

  -- a state that agrees in the loop and in the members that are read
  Live-same :
      (k n : ℕ) (s s' : State p)
      → s'.thread.loop ≡ s.thread.loop
      → s'.conn.fd ≡ s.conn.fd
      → s'.conn.pending ≡ s.conn.pending
      → s'.conn.written ≡ s.conn.written
      → LiveAt k n s
      → LiveAt k n s'
  Live-same k n s s' e f g h (w, v) = (
    h ∙ w,
    record {
      fits = rw f v.fits;
      reads = rw (e, f) v.reads;
      writes = rw (e, f, g) v.writes;
      busy = rw (g, h) v.busy;
    },
  )

  settle-Live : (k : ℕ) (s : State p) → LiveAt k 0 s → LiveAt k 0 (settle p s)
  unfolding settle
  settle-Live k s (w, v) = elim (Bool-cases (sub64 s.conn.pending 1 == 0)) [
    | inl e ↦
        rw (e, settle)
          (
            w,
            record {
              fits = v.fits;
              reads =
                  rw (l.create_readable s.thread.loop s.conn.fd writable socket_writeable v.fits)
                    v.reads;
              writes = inr (
                  inl (l.create_writable s.thread.loop s.conn.fd writable socket_writeable v.fits));
              busy = λ h. absurd (h w);
            },
          )
    | inr e ↦
        let h : sub64 s.conn.pending 1 ≢ 0 = λ z. cc in
        rw (e, settle) (w, Live-with_conn p l k s _ refl (λ q. h) (λ q. h) v)
  ]

  record_latency-Live :
      (k : ℕ) (cfg : Config) (now timing : ℕ) (s : State p)
      → LiveAt k 0 s
      → LiveAt k 0 (record_latency p cfg now timing s)
  unfolding record_latency
  record_latency-Live k cfg now timing s v =
      elim (Bool-cases (cfg.record_all_responses || not s.conn.has_pending)) [
        | inl e ↦ rw (e, record_latency) (Live-same k 0 s _ refl refl refl refl v)
        | inr e ↦ rw (e, record_latency) v
      ]

  account-Live :
      (k : ℕ) (cfg : Config) (now : ℕ) (s : State p)
      → LiveAt k 0 s
      → LiveAt k 0 (account p cfg now s)
  unfolding account
  account-Live k cfg now s v =
      record_latency-Live k cfg now _ _ (settle-Live k _ (Live-same k 0 s _ refl refl refl refl v))

  -- `aeStop` leaves the handlers where they are.
  stop-Live :
      (k : ℕ) (s : State p) → Live p l k s → Live p l k (with_loop s (ae.stop s.thread.loop))
  stop-Live k s v = record {
    fits = v.fits;
    reads = rw (l.stop_readable s.thread.loop s.conn.fd) v.reads;
    writes = rw (l.stop_writable s.thread.loop s.conn.fd) v.writes;
    busy = v.busy;
  }

  written-reconnect_socket :
      (a : Connecting) (s : State p) → (reconnect_socket p a s).conn.written ≡ s.conn.written
  unfolding reconnect_socket connect_socket
  written-reconnect_socket a s = ground arith

  reconnect_socket-LiveAt :
      (k n : ℕ) (a : Connecting) (s : State p)
      → Accepted p l a
      → LiveAt k n s
      → LiveAt k n (reconnect_socket p a s)
  reconnect_socket-LiveAt k n a s e (w, v) =
      (written-reconnect_socket a s ∙ w, reconnect_socket-Live p l k a s e v.busy)

  after_delivery-Live :
      (k : ℕ) (cfg : Config) (m : Completing) (s : State p)
      → Accepted p l m.connecting
      → LiveAt k 0 s
      → LiveAt k 0 (after_delivery p cfg m s)
  unfolding after_delivery
  after_delivery-Live k cfg m s e v = elim (Bool-cases (leb s.thread.stop_at m.now)) [
    | inl x ↦ rw (x, after_delivery) (v.0, stop-Live k s v.1)
    | inr x ↦ elim (Bool-cases m.keep_alive) [
      | inl y ↦ rw (x, y, after_delivery) (account-Live k cfg m.now s v)
      | inr n ↦
          rw (x, n, after_delivery)
            (reconnect_socket-LiveAt k 0 m.connecting _ e (account-Live k cfg m.now s v))
    ]
  ]

  response_complete-Live :
      (k : ℕ) (cfg : Config) (m : Completing) (s s' : State p) (call : Option ScriptCall)
      → Accepted p l m.connecting
      → LiveAt k 0 s
      → response_complete p cfg m s ≡ some (call, s')
      → LiveAt k 0 s'
  unfolding response_complete
  response_complete-Live k cfg m s s' call a v e =
      let (x, d, q) = >>=-eq-some (deliver m.status_code s.conn.response) _ e in
      let t = count_response p m.status_code s.thread in
      let s₁ = record s { thread = t; conn = record (s.conn) { response = x.1 } } in
      subst (LiveAt k 0) (some_second _ q)
        (after_delivery-Live k cfg m s₁ a (Live-same k 0 s s₁ refl refl refl refl v))

  read_failed-Live :
      (libc : Realloc) (cfg : Config) (k n : ℕ) (a : Connecting) (s : State p)
      → Accepted p l a
      → LiveAt k n s
      → LiveAt k n (read_failed p libc cfg a s)
  unfolding read_failed
  read_failed-Live libc cfg k n a s e v =
      reconnect_socket-LiveAt k n a (with_errors s (count_read s.thread.errors)) e
        (Live-same k n s _ refl refl refl refl v)

  keeps_alive :
      (libc : Realloc) (cfg : Config) (k n : ℕ) (a : Connecting)
      → Accepted p l a
      → Keeps p libc cfg a (standing (Answered (Accepted p l) n)) (λ t. LiveAt k n)
  keeps_alive libc cfg k n a x = record {
    later = λ t t' s h v. v;
    response = λ t s r v. Live-same k n s _ refl refl refl refl v;
    complete = λ t m s s' call (z, acc) v e.
        subst (λ i. LiveAt k i s') (sym z)
          (response_complete-Live k cfg m s s' call acc (subst (λ i. LiveAt k i s) z v) e);
    failed = λ t s v. read_failed-Live libc cfg k n a s x v;
    bytes = λ t i s v. Live-same k n s _ refl refl refl refl v;
  }

  pub readable_loop-Live :
      (libc : Realloc) (cfg : Config) (k : ℕ) (a : Connecting) (rs : List Reading) (s s' : State p)
      → Accepted p l a
      → AllReadings (Answered (Accepted p l) s.conn.written) rs
      → Live p l k s
      → readable_loop p libc cfg a rs s ≡ some s'
      → Live p l k s'
  readable_loop-Live libc cfg k a rs s s' x h v e =
      let Ok = Answered (Accepted p l) s.conn.written in
      let (w, u) =
        readable_loop-Keeps p libc cfg a (standing Ok) (λ t. LiveAt k s.conn.written) rs 0 0 s s'
          (keeps_alive libc cfg k s.conn.written a x) (AllReadings-ReadingsFrom Ok rs h) (refl, v)
          e in
      u
