-- ===== src/Thread/Refused.antt =====
-- What is left of a connection whose renewal the system refuses (wrk.c: `reconnect_socket`,
-- `connect_socket`, `delay_request`).
use wrkx.Prelude.{
  ℕ, ◌≡◌, ◌≢◌, refl, ap, sym, subst, ◌∙◌, ◌⊎◌, inl, inr, true, Bool-cases, none, some, Option, ◌==◌,
  add32,
}
use wrkx.Buffer.Defs.{Realloc}
use wrkx.EventLoop.{LoopLaws, socket_writeable, writable}
use wrkx.Connection.Pacing.{usec_to_next_send}
use wrkx.Thread.State.{Platform, Config, State}
use wrkx.Thread.Socket.{Connecting, reconnect_socket, delay_request_at}
use wrkx.Thread.Arming.{reconnect_refused, fd-usec_to_next_send}
use wrkx.Thread.Turns.{Call, connected, writeable, readable, delayed}

module _ (p : Platform) (l : LoopLaws p.ae) (libc : Realloc) (cfg : Config) where
  open p use {float, ae}

  -- The timer asks to be called again and nothing writes, or it is done and the write event is set.
  abbrev pub Woken : ℕ → Option ℕ → State p → Type 0
  Woken fd again s =
      ((again ≢ none) × (ae.on_writable s.thread.loop fd ≡ none))
      ⊎ ((again ≡ none) × (ae.on_writable s.thread.loop fd ≡ some socket_writeable))

  delay_request-Woken :
      (fd now : ℕ) (s : State p)
      → s.conn.fd ≡ fd
      → l.fits fd ≡ true
      → ae.on_readable s.thread.loop fd ≡ none
      → ae.on_writable s.thread.loop fd ≡ none
      → let (again, s') = delay_request_at p now s in
        (ae.on_readable s'.thread.loop fd ≡ none) × Woken fd again s'
  unfolding delay_request_at
  delay_request-Woken fd now s q f r w =
      let same = fd-usec_to_next_send p l now s.conn ∙ q in
      elim (Bool-cases ((usec_to_next_send float now s.conn).0 == 0)) [
        | inl z ↦
            rw (z, delay_request_at, same)
              (
                l.create_readable s.thread.loop fd writable socket_writeable f ∙ r,
                inr (refl, l.create_writable s.thread.loop fd writable socket_writeable f),
              )
        | inr z ↦ rw (z, delay_request_at) (r, inl ((λ e. cc), w))
      ]

  -- Without file events, only a timer calls a handler.
  only_delayed :
      {Ok : Connecting → Type 0} {k k' : ℕ} {r s' : State p} (fd : ℕ)
      → r.conn.fd ≡ fd
      → l.fits fd ≡ true
      → ae.on_readable r.thread.loop fd ≡ none
      → ae.on_writable r.thread.loop fd ≡ none
      → Call p l libc cfg Ok k r k' s'
      → (k ≢ 0)
        × ((now : ℕ) × ((again : Option ℕ) × (delay_request_at p now r ≡ (again, s'))
              × (ae.on_readable s'.thread.loop fd ≡ none)
              × Woken fd again s'))
  only_delayed fd q f x y (connected k s s' st a (inl h) o e) =
      let z = sym h ∙ ap (ae.on_readable s.thread.loop) q ∙ x in cc
  only_delayed fd q f x y (connected k s s' st a (inr h) o e) =
      let z = sym h ∙ ap (ae.on_writable s.thread.loop) q ∙ y in cc
  only_delayed fd q f x y (writeable k s s' w a new h o e t) =
      let z = sym h ∙ ap (ae.on_writable s.thread.loop) q ∙ y in cc
  only_delayed fd q f x y (readable k s s' a rs h o g e) =
      let z = sym h ∙ ap (ae.on_readable s.thread.loop) q ∙ x in cc
  only_delayed fd q f x y (delayed j now s s' again e) =
      let (u, v) =
        subst
          (λ (r : Option ℕ × State p).
            (ae.on_readable r.1.thread.loop fd ≡ none) × Woken fd r.0 r.1)
          e (delay_request-Woken fd now s q f x y) in
      ((λ z. cc), (now, (again, e, u, v)))

  -- A renewal of a connection that the system refuses counts an error and leaves the members of the
  -- connection and the timers as they are. The only handler that the loop then calls for the
  -- connection is `delay_request`, by one of the `k` timers that were set for it before: with none,
  -- the connection is given up. Such a timer asks to be called again, or it sets the write event of
  -- the old descriptor, and nothing is called when there is something to read.
  pub refused-Call :
      {Ok : Connecting → Type 0} {k k' : ℕ} {s' : State p} (a : Connecting) (s : State p)
      → a.refused ≡ true
      → l.fits s.conn.fd ≡ true
      → Call p l libc cfg Ok k (reconnect_socket p a s) k' s'
      → let r = reconnect_socket p a s in
        (r.thread.errors.connect ≡ add32 s.thread.errors.connect 1)
        × (r.conn ≡ s.conn)
        × (ae.timers r.thread.loop ≡ ae.timers s.thread.loop)
        × (k ≢ 0)
        × ((now : ℕ) × ((again : Option ℕ) × (delay_request_at p now r ≡ (again, s'))
              × (ae.on_readable s'.thread.loop s.conn.fd ≡ none)
              × Woken s.conn.fd again s'))
  refused-Call a s e f c =
      let (r, w, t, n, same) = reconnect_refused p l a s e in
      let (some_timer, by) = only_delayed s.conn.fd (ap (λ c. c.fd) same) f r w c in
      (n, same, t, some_timer, by)
