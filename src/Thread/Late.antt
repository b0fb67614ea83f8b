-- ===== src/Thread/Late.antt =====
-- `check_timeouts` against a count of the connections whose latest request is too old (wrk.c).
use wrkx.Prelude.{
  ℕ, ◌+◌, ◌*◌, ◌%◌, ◌≤◌, ◌<◌, ◌≡◌, refl, ap, ◌∙◌, Bool, true, false, List, [], ◌∷◌, ltb, leb,
  if◌then◌else◌, u32_mod, u64_mod, sub64, mul64, ◌⊎◌, ◌↔◌, ◌-◌, leb→le, arith, Bool-cases, inl, inr,
}
use wrkx.Connection.State.{Connection, Errors}
use wrkx.EventLoop.{LoopLaws}
use wrkx.Thread.State.{Platform, Config, Thread, count_timeout}
use wrkx.Thread.Timers.{count_late, check_timeouts_at}

-- how many connections began their latest request more than `timeout` milliseconds before `now`
abbrev pub late : {F : Type 0} → ℕ → ℕ → List (Connection F) → ℕ
late timeout now [] = 0
late timeout now (c ∷ cs) =
    (if ltb (c.start + timeout * 1000) now then 1 else 0) + late timeout now cs

too_old :
    (timeout now start : ℕ)
    → timeout * 1000 ≤ now
    → now < u64_mod
    → ltb start (sub64 now (mul64 timeout 1000)) ≡ ltb (start + timeout * 1000) now
too_old timeout now start h k =
    let e : sub64 now (mul64 timeout 1000) ≡ now - timeout * 1000 = omega arith in
    rw e (ground arith)

abbrev pub more_timeouts : ℕ → Errors → Errors
more_timeouts n e = record e { timeout = (e.timeout + n) % u32_mod }

counted :
    (b : Bool) (n : ℕ) (e : Errors)
    → e.timeout < u32_mod
    → more_timeouts n (if b then count_timeout e else e)
      ≡ more_timeouts ((if b then 1 else 0) + n) e
counted true n e h =
    let k : ((e.timeout + 1) % u32_mod + n) % u32_mod ≡ (e.timeout + (1 + n)) % u32_mod =
      omega arith in
    rw k refl
counted false n e h = let k : n ≡ 0 + n = omega arith in ap (λ m. more_timeouts m e) k

counted_small :
    (b : Bool) (e : Errors)
    → e.timeout < u32_mod
    → (if b then count_timeout e else e).timeout < u32_mod
counted_small true e h = omega arith
counted_small false e h = h

module _ (p : Platform) where
  open p use {float, ae}

  count_late-late :
      (timeout now : ℕ) (cs : List (Connection float.F)) (e : Errors)
      → timeout * 1000 ≤ now
      → now < u64_mod
      → e.timeout < u32_mod
      → count_late p (sub64 now (mul64 timeout 1000)) cs e ≡ more_timeouts (late timeout now cs) e
  unfolding count_late
  count_late-late timeout now [] e h k b =
      let z : (e.timeout + 0) % u32_mod ≡ e.timeout = omega arith in rw z refl
  count_late-late timeout now (c ∷ cs) e h k b =
      let old = ltb (c.start + timeout * 1000) now in
      rw (too_old timeout now c.start h k) (
        count_late-late timeout now cs (if old then count_timeout e else e) h k
          (counted_small old e b)
        ∙ counted old (late timeout now cs) e b)

  -- `check_timeouts` counts each connection of the thread that began its latest request more than
  -- the timeout before, whether or not the request was answered since; it stops the loop exactly if
  -- the test was interrupted or its time is over, touches no other member of the thread, and is
  -- called again after 2 seconds. The timeout has passed since the clock's start.
  pub check_timeouts_at-late :
      (l : LoopLaws ae) (cfg : Config) (stop : Bool) (now : ℕ) (cs : List (Connection float.F))
      (t : Thread p)
      → cfg.timeout * 1000 ≤ now
      → now < u64_mod
      → t.errors.timeout < u32_mod
      → ae.stopped t.loop ≡ false
      → let (again, t') = check_timeouts_at p cfg stop now cs t in
        (again ≡ 2000)
        × (t' ≡ record t {
          loop = t'.loop;
          errors = more_timeouts (late cfg.timeout now cs) t.errors;
        })
        × ((ae.stopped t'.loop ≡ true) ↔ ((stop ≡ true) ⊎ (t.stop_at ≤ now)))
  unfolding check_timeouts_at
  check_timeouts_at-late l cfg true now cs t h k b z = (
    refl,
    ap (λ e. record t { loop = ae.stop t.loop; errors = e })
        (count_late-late cfg.timeout now cs t.errors h k b),
    ((λ x. inl refl), λ y. l.stop_stopped t.loop),
  )
  check_timeouts_at-late l cfg false now cs t h k b z = elim (Bool-cases (leb t.stop_at now)) [
    | inl e ↦
        rw (e, check_timeouts_at)
          (
            refl,
            ap (λ e. record t { loop = ae.stop t.loop; errors = e })
                (count_late-late cfg.timeout now cs t.errors h k b),
            ((λ x. inr (leb→le t.stop_at now e)), λ y. l.stop_stopped t.loop),
          )
    | inr e ↦
        rw (e, check_timeouts_at)
          (
            refl,
            ap (λ e. record t { errors = e }) (count_late-late cfg.timeout now cs t.errors h k b),
            ((λ x. absurd (cc)), λ y. elim y [ inl q ↦ absurd cc | inr q ↦ absurd (ground arith) ]),
          )
  ]
