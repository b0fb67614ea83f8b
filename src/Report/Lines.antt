-- ===== src/Report/Lines.antt =====
-- The lines of the report that count errors (wrk.c).
use wrkx.Prelude.{
  ℕ, ◌%◌, ◌≡◌, ◌↔◌, refl, Bool, true, false, List, [], ◌∷◌, ◌==◌, ==_iff, if◌then◌else◌, not, ◌||◌,
  codes, ◌++◌, ◌⊎◌, inl, inr, Bool-cases, u64_mod, u32_mod, arith,
}
use wrkx.Connection.State.{Errors}
use wrkx.Thread.State.{Platform, Thread}
use wrkx.Start.Totals.{total}
use wrkx.Report.Defs.{Printf, print_errors, print_status}

if-nil {ℓ} :
    {A : Type ℓ} (b : Bool) (x : A) (xs : List A) → ((if b then x ∷ xs else []) ≡ []) ↔ (b ≡ false)
if-nil true x xs = ((λ q. cc), λ q. cc)
if-nil false x xs = ((λ q. refl), λ q. refl)

else-nil {ℓ} :
    {A : Type ℓ} (b : Bool) (x : A) (xs : List A) → ((if b then [] else x ∷ xs) ≡ []) ↔ (b ≡ true)
else-nil true x xs = ((λ q. refl), λ q. refl)
else-nil false x xs = ((λ q. cc), λ q. cc)

all_zero :
    (e : Errors)
    → ((not (e.connect == 0) || not (e.read == 0) || not (e.write == 0) || not (e.timeout == 0))
        ≡ false)
      ↔ ((e.connect ≡ 0) × (e.read ≡ 0) × (e.write ≡ 0) × (e.timeout ≡ 0))
all_zero e = ((λ q. ground arith), λ q. ground arith)

module _ (p : Platform) (printf : Printf p.float) where
  -- the line of the socket errors, by the sums of the threads' counts
  abbrev pub socket_errors_line : List (Thread p) → List ℕ
  socket_errors_line threads =
      codes "  Socket errors: connect "
      ++ printf.print_int (total p (λ t. t.errors.connect) threads % u32_mod)
      ++ codes ", read "
      ++ printf.print_int (total p (λ t. t.errors.read) threads % u32_mod)
      ++ codes ", write "
      ++ printf.print_int (total p (λ t. t.errors.write) threads % u32_mod)
      ++ codes ", timeout "
      ++ printf.print_int (total p (λ t. t.errors.timeout) threads % u32_mod)
      ++ (10 ∷ [])

  abbrev pub status_line : List (Thread p) → List ℕ
  status_line threads =
      codes "  Non-2xx or 3xx responses: "
      ++ printf.print_int (total p (λ t. t.errors.status) threads % u32_mod)
      ++ (10 ∷ [])

  -- What the end of `main` prints: from the latencies on, the sum of the threads' requests, the line
  -- of the socket errors or nothing, that of the status codes or nothing, and the rates.
  pub record Shows (threads : List (Thread p)) (text : List ℕ) : Type 0 where
    pub before : List ℕ
    pub duration : List ℕ
    pub size : List ℕ
    pub socket : List ℕ
    pub status : List ℕ
    pub rate : List ℕ
    pub transfer : List ℕ
    pub shown :
        text
        ≡ before
          ++ (codes "  "
              ++ printf.print_u64 (total p (λ t. t.complete) threads % u64_mod)
              ++ codes " requests in "
              ++ duration
              ++ codes ", "
              ++ size
              ++ codes "B read\n"
              ++ socket
              ++ status
              ++ codes "Requests/sec: "
              ++ rate
              ++ codes "\nTransfer/sec: "
              ++ transfer
              ++ codes "B\n")
    pub socket_line : (socket ≡ []) ⊎ (socket ≡ socket_errors_line threads)
    pub no_socket : (socket ≡ []) ↔ (
        (total p (λ t. t.errors.connect) threads % u32_mod ≡ 0)
        × (total p (λ t. t.errors.read) threads % u32_mod ≡ 0)
        × (total p (λ t. t.errors.write) threads % u32_mod ≡ 0)
        × (total p (λ t. t.errors.timeout) threads % u32_mod ≡ 0))
    pub status_shown : (status ≡ []) ⊎ (status ≡ status_line threads)
    pub no_status_line : (status ≡ []) ↔ (total p (λ t. t.errors.status) threads % u32_mod ≡ 0)

  pub print_errors-none :
      (e : Errors)
      → (print_errors p printf e ≡ [])
        ↔ ((e.connect ≡ 0) × (e.read ≡ 0) × (e.write ≡ 0) × (e.timeout ≡ 0))
  unfolding print_errors
  print_errors-none e =
      let (f, g) = if-nil _ _ _ in let (h, k) = all_zero e in ((λ q. h (f q)), λ q. g (k q))

  pub print_status-none : (e : Errors) → (print_status p printf e ≡ []) ↔ (e.status ≡ 0)
  unfolding print_status
  print_status-none e =
      let (f, g) = else-nil _ _ _ in
      ((λ q. (==_iff e.status 0).0 (f q)), λ q. g ((==_iff e.status 0).1 q))

  pub print_errors-line :
      (threads : List (Thread p)) (e : Errors)
      → e.connect ≡ total p (λ t. t.errors.connect) threads % u32_mod
      → e.read ≡ total p (λ t. t.errors.read) threads % u32_mod
      → e.write ≡ total p (λ t. t.errors.write) threads % u32_mod
      → e.timeout ≡ total p (λ t. t.errors.timeout) threads % u32_mod
      → (print_errors p printf e ≡ []) ⊎ (print_errors p printf e ≡ socket_errors_line threads)
  unfolding print_errors
  print_errors-line threads e c r w o =
      elim (Bool-cases
        (not (e.connect == 0) || not (e.read == 0) || not (e.write == 0) || not (e.timeout == 0))) [
          | inl t ↦ rw (t, print_errors) (inr (rw (c, r, w, o) refl))
          | inr t ↦ rw (t, print_errors) (inl refl)
        ]

  pub print_status-line :
      (threads : List (Thread p)) (e : Errors)
      → e.status ≡ total p (λ t. t.errors.status) threads % u32_mod
      → (print_status p printf e ≡ []) ⊎ (print_status p printf e ≡ status_line threads)
  unfolding print_status
  print_status-line threads e s = elim (Bool-cases (e.status == 0)) [
    | inl t ↦ rw (t, print_status) (inl refl)
    | inr t ↦ rw (t, print_status) (inr (rw s refl))
  ]
