-- ===== src/Start/Affinity.antt =====
-- The CPUs of the threads: the list that `parse_args` leaves in `cfg.affinity`, the loop of `main`
-- over the threads, and the start of `thread_main` (wrk.c).
use wrkx.Prelude.{
  ℕ, zero, suc, ◌≡◌, ◌≢◌, refl, subst, Bool, true, false, Option, none, some, List, [], ◌∷◌, map,
  length, replicate, ◌==◌, ◌>>=◌, ◌⊎◌, inl, inr, arith,
}
use wrkx.Args.Defs.{Flag, Settings, Parts, parse_args}
use wrkx.Args.Usable.{parse_args_iff}

-- `cpu_set` of the `n` threads that follow: the null pointer, or the set of the next item.
-- `none` where `assert(as_item != NULL)` fails.
unfoldable pub assign_cpus :
    (has_head : Bool) → List (Option ℕ) → ℕ → Option (List (Option (Option ℕ)))
assign_cpus has_head items zero = some []
assign_cpus false items (suc n) = assign_cpus false items n >>= λ sets. some (none ∷ sets)
assign_cpus true [] (suc n) = none
assign_cpus true (set ∷ items) (suc n) = assign_cpus true items n >>= λ sets. some (some set ∷ sets)

-- The head is null if no CPUs were given.
abbrev pub is_given : List (Option ℕ) → Bool
is_given [] = false
is_given (set ∷ items) = true

unfoldable pub thread_cpus : Settings → Option (List (Option (Option ℕ)))
unfolding assign_cpus
thread_cpus s = assign_cpus (is_given s.affinity) s.affinity s.threads

-- `if (thread->cpu_set != NULL) { ... }`: whether the thread goes on, with what
-- `pthread_setaffinity_np` returns
unfoldable pub set_affinity : (Option ℕ → ℕ) → Option (Option ℕ) → Bool
set_affinity answer none = true
set_affinity answer (some set) = answer set == 0

assign_cpus-none :
    (items : List (Option ℕ)) (n : ℕ) → assign_cpus false items n ≡ some (replicate n none)
unfolding assign_cpus
assign_cpus-none items zero = refl
assign_cpus-none items (suc n) = rw (assign_cpus-none items n)

assign_cpus-all :
    (items : List (Option ℕ)) → assign_cpus true items (length items) ≡ some (map some items)
unfolding assign_cpus
assign_cpus-all [] = refl
assign_cpus-all (set ∷ items) = rw (assign_cpus-all items)

assign_cpus-Usable :
    (items : List (Option ℕ)) (n : ℕ)
    → (length items ≢ 0 → length items ≡ n)
    → ((items ≡ []) × (assign_cpus (is_given items) items n ≡ some (replicate n none)))
      ⊎ ((assign_cpus (is_given items) items n ≡ some (map some items)) × (length items ≡ n))
assign_cpus-Usable [] n h = inl (refl, assign_cpus-none [] n)
assign_cpus-Usable (set ∷ items) n h =
    let e : length (set ∷ items) ≡ n = h (λ z. omega arith) in
    inr (
      subst (λ k. assign_cpus true (set ∷ items) k ≡ some (map some (set ∷ items))) e
          (assign_cpus-all (set ∷ items)),
      e,
    )

-- Behind a command line that `parse_args` accepts, the assertion of `main` on the list of CPUs holds
-- for every thread: if CPUs were given, the threads get their sets, one each, in the order of the
-- option, and all are used; if none were given, no thread gets a set.
pub thread_cpus-assigned :
    (parse : List ℕ → Option Parts) (flags : List (Flag × List ℕ)) (args : List (List ℕ))
    (s : Settings) (url : List ℕ) (parts : Parts)
    → parse_args parse flags args ≡ some (s, url, parts)
    → ((s.affinity ≡ []) × (thread_cpus s ≡ some (replicate s.threads none)))
      ⊎ ((thread_cpus s ≡ some (map some s.affinity)) × (length s.affinity ≡ s.threads))
unfolding thread_cpus
thread_cpus-assigned parse flags args s url parts h =
    let (e, u, good, rest) = (parse_args_iff parse flags args s url parts).0 h in
    assign_cpus-Usable s.affinity s.threads u.fits
