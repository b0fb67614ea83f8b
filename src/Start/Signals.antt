-- ===== src/Start/Signals.antt =====
-- The signals that `main` ignores and handles, `handler`, and what they do to the threads through
-- the flag `stop` (wrk.c).
use wrkx.Prelude.{
  ℕ, ◌*◌, ◌≤◌, ◌<◌, ◌≡◌, ◌↔◌, ◌⊎◌, inl, inr, refl, Bool, true, false, Option, none, some, List, [],
  ◌∷◌, ◌>>=◌, u32_mod, u64_mod, ap, ◌∙◌,
}
use wrkx.EventLoop.{LoopLaws}
use wrkx.Connection.State.{Connection}
use wrkx.Thread.State.{Platform, Config, Thread}
use wrkx.Thread.Timers.{check_timeouts_at}
use wrkx.Thread.Late.{check_timeouts_at-late}

-- the signals that `main` names
pub data Signal : Type 0 where
  sigpipe sigint : Signal

pub data Disposition : Type 0 where
  ends_process ignored handled : Disposition

pub record Process : Type 0 where
  pub on_sigpipe : Disposition
  pub on_sigint : Disposition
  pub stop : Bool

unfoldable pub handler : Process → Process
handler p = record p { stop = true }

-- `signal(SIGPIPE, SIG_IGN); signal(SIGINT, SIG_IGN);`
unfoldable pub ignore_signals : Process → Process
ignore_signals p = record p { on_sigpipe = ignored; on_sigint = ignored }

-- `sigaction(SIGINT, &sa, NULL)`, when the threads are created
unfoldable pub handle_sigint : Process → Process
handle_sigint p = record p { on_sigint = handled }

abbrev act : Disposition → Process → Option Process
act ends_process p = none
act ignored p = some p
act handled p = some (handler p)

-- signals that arrive; `none` where one ends the process
abbrev pub arrive : List Signal → Process → Option Process
arrive [] p = some p
arrive (sigpipe ∷ more) p = act p.on_sigpipe p >>= arrive more
arrive (sigint ∷ more) p = act p.on_sigint p >>= arrive more

abbrev pub Interrupts : List Signal → Type 0
Interrupts [] = ⊥
Interrupts (sigpipe ∷ more) = Interrupts more
Interrupts (sigint ∷ more) = Unit {0}

act_as :
    (more : List Signal) (p : Process) {d d' : Disposition}
    → d ≡ d'
    → (act d p >>= arrive more) ≡ (act d' p >>= arrive more)
act_as more p e = ap (λ d. act d p >>= arrive more) e

arrive-ignored :
    (signals : List Signal) (p : Process)
    → p.on_sigpipe ≡ ignored
    → p.on_sigint ≡ ignored
    → arrive signals p ≡ some p
arrive-ignored [] p e f = refl
arrive-ignored (sigpipe ∷ more) p e f = act_as more p e ∙ arrive-ignored more p e f
arrive-ignored (sigint ∷ more) p e f = act_as more p f ∙ arrive-ignored more p e f

arrive-handled :
    (signals : List Signal) (p : Process)
    → p.on_sigpipe ≡ ignored
    → p.on_sigint ≡ handled
    → (p' : Process) × (arrive signals p ≡ some p')
      × ((p'.stop ≡ true) ↔ ((p.stop ≡ true) ⊎ Interrupts signals))
unfolding handler
arrive-handled [] p e f = (p, refl, ((λ h. inl h), λ h. elim h [ inl q ↦ q | inr q ↦ absurd q ]))
arrive-handled (sigpipe ∷ more) p e f =
    let (p', q, g) = arrive-handled more p e f in (p', act_as more p e ∙ q, g)
arrive-handled (sigint ∷ more) p e f =
    let (p', q, (g, h)) = arrive-handled more (handler p) e f in
    (p', act_as more p f ∙ q, ((λ _. inr tt), λ _. h (inl refl)))

-- Whatever of the signals SIGPIPE and SIGINT arrive while `main` starts the threads and afterwards:
-- they do not end the process, those during the start change nothing, and a check of a thread's
-- timeouts stops its loop exactly if a SIGINT has arrived since, or the thread's time is over. It
-- rests on times and counts that fit their types, and on a loop that has not been stopped.
pub interrupted :
    (q : Platform) (l : LoopLaws q.ae) (cfg : Config) (now : ℕ) (cs : List (Connection q.float.F))
    (t : Thread q) (early late : List Signal) (p : Process)
    → p.stop ≡ false
    → cfg.timeout * 1000 ≤ now
    → now < u64_mod
    → t.errors.timeout < u32_mod
    → q.ae.stopped t.loop ≡ false
    → (arrive early (ignore_signals p) ≡ some (ignore_signals p))
      × ((p' : Process) × (arrive late (handle_sigint (ignore_signals p)) ≡ some p')
          × ((q.ae.stopped (check_timeouts_at q cfg p'.stop now cs t).1.loop ≡ true)
              ↔ (Interrupts late ⊎ (t.stop_at ≤ now))))
unfolding ignore_signals handle_sigint
interrupted q l cfg now cs t early late p z h k b s =
    let (p', e, (f, g)) = arrive-handled late (handle_sigint (ignore_signals p)) refl refl in
    let (_, _, (x, y)) = check_timeouts_at-late q l cfg p'.stop now cs t h k b s in
    (
      arrive-ignored early (ignore_signals p) refl refl,
      (
        p',
        e,
        (
          (λ o. elim (x o) [
            | inl w ↦ elim (f w) [ inl v ↦ absurd cc | inr v ↦ inl v ]
            | inr w ↦ inr w
          ]),
          λ o. elim o [ inl w ↦ y (inl (g (inr w))) | inr w ↦ y (inr w) ],
        ),
      ),
    )
