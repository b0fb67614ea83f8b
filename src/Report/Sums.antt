-- ===== src/Report/Sums.antt =====
-- What the report counts, against the counts of the threads (wrk.c).
use wrkx.Prelude.{
  ℕ, ◌%◌, ◌≡◌, ◌↔◌, ap, some, List, [], sym, codes, subst, ◌++◌, sub64, >>=-eq-some, some_value,
  u64_mod, u32_mod, arith,
}
use wrkx.Stats.Defs.{Stats}
use wrkx.Thread.State.{Platform, Thread}
use wrkx.Start.Defs.{Totals, add_threads}
use wrkx.Start.Totals.{total, add_threads-total}
use wrkx.Units.Defs.{format_time_us, format_metric, format_binary}
use wrkx.Report.Defs.{
  Printf, message_of, pad_left, merge, latency_stats, print_stats, print_stats_header, print_totals,
  print_errors, print_status,
}
use wrkx.Report.End.{Wanted, new_totals, latency_part, u_latency_part, Ended, end_of_main}
use wrkx.Report.Printed.{Wide, end_of_main-Succeeds}
use wrkx.Report.Lines.{
  Shows, print_errors-none, print_status-none, print_errors-line, print_status-line,
}

module _ (p : Platform) (printf : Printf p.float) where
  -- A line of errors is left out exactly if its sums are multiples of 2 ^ 32.
  pub record Sums (threads : List (Thread p)) (r : Totals p) : Type 0 where
    pub complete : r.complete ≡ total p (λ t. t.complete) threads % u64_mod
    pub bytes : r.bytes ≡ total p (λ t. t.bytes) threads % u64_mod
    pub no_socket_errors : (print_errors p printf r.errors ≡ []) ↔ (
        (total p (λ t. t.errors.connect) threads % u32_mod ≡ 0)
        × (total p (λ t. t.errors.read) threads % u32_mod ≡ 0)
        × (total p (λ t. t.errors.write) threads % u32_mod ≡ 0)
        × (total p (λ t. t.errors.timeout) threads % u32_mod ≡ 0))
    pub no_status :
        (print_status p printf r.errors ≡ [])
        ↔ (total p (λ t. t.errors.status) threads % u32_mod ≡ 0)

  -- the totals and the text at the end
  totals-end_of_main :
      (qsort : (ℕ → ℕ → ℕ) → List ℕ → List ℕ) (spectrum : p.hdr.H → List ℕ) (cfg : Wanted)
      (empty : p.hdr.H) (start now : ℕ) (threads : List (Thread p)) (requests : Stats p.hdr.H)
      (r : Ended p printf)
      → end_of_main p printf qsort spectrum cfg empty start now threads requests ≡ some r
      → (r.totals ≡ add_threads p threads (new_totals p printf))
        × ((before : List ℕ) × (r.text
              ≡ before
                ++ print_totals p printf
                    (sub64 now start)
                    (add_threads p threads (new_totals p printf))))
  unfolding end_of_main
  totals-end_of_main qsort spectrum cfg empty start now threads requests r e =
      let (latency, u_latency) = merge p printf threads (empty, empty) in
      let ((a, _), _, e₁) =
        >>=-eq-some
          (print_stats p printf qsort (codes "Latency") (latency_stats p printf latency)
            (format_time_us p.float))
          _ e in
      let ((b, _), _, e₂) =
        >>=-eq-some (print_stats p printf qsort (codes "Req/Sec") requests (format_metric p.float))
          _ e₁ in
      let (c, _, e₃) = >>=-eq-some (latency_part p printf spectrum cfg.latency latency) _ e₂ in
      let (d, _, e₄) =
        >>=-eq-some (u_latency_part p printf spectrum cfg.u_latency u_latency) _ e₃ in
      (
        sym (ap (λ (x : Ended p printf). x.totals) (some_value e₄)),
        (
          print_stats_header ++ a ++ b ++ c ++ d,
          sym (ap (λ (x : Ended p printf). x.text) (some_value e₄)),
        ),
      )

  add_threads-Sums :
      (threads : List (Thread p)) → Sums threads (add_threads p threads (new_totals p printf))
  add_threads-Sums threads =
      let s = add_threads p threads (new_totals p printf) in
      let (complete, bytes, c, r, w, status, o) =
        add_threads-total p threads (new_totals p printf) (omega arith) (omega arith) (omega arith)
          (omega arith) (omega arith) (omega arith) (omega arith) in
      let (f, g) = print_errors-none p printf s.errors in
      let (h, k) = print_status-none p printf s.errors in
      record {
        complete = omega (arith, complete);
        bytes = omega (arith, bytes);
        no_socket_errors = (
          (λ q.
              let (c', r', w', o') = f q in
              (
                omega (arith, c, c'),
                omega (arith, r, r'),
                omega (arith, w, w'),
                omega (arith, o, o'),
              )),
          λ (c', r', w', o'). g (
            omega (arith, c, c'),
            omega (arith, r, r'),
            omega (arith, w, w'),
            omega (arith, o, o'),
          ),
        );
        no_status = ((λ q. omega (arith, status, h q)), λ q. k (omega (arith, status, q)));
      }

  shown_totals :
      (runtime_us : ℕ) (threads : List (Thread p)) (before : List ℕ)
      → Shows p printf threads
          (before ++ print_totals p printf runtime_us (add_threads p threads (new_totals p printf)))
  unfolding print_totals
  shown_totals runtime_us threads before =
      let s = add_threads p threads (new_totals p printf) in
      let (complete, bytes, c, r, w, status, o) =
        add_threads-total p threads (new_totals p printf) (omega arith) (omega arith) (omega arith)
          (omega arith) (omega arith) (omega arith) (omega arith) in
      let sums = add_threads-Sums threads in
      let runtime_s = p.float.div (p.float.of_u64 runtime_us) (p.float.lit 1_000_000 1) in
      record {
        before = before;
        duration = message_of p printf (format_time_us p.float (p.float.of_u64 runtime_us));
        size = message_of p printf (format_binary p.float (p.float.of_u64 s.bytes));
        socket = print_errors p printf s.errors;
        status = print_status p printf s.errors;
        rate = printf.print_float 9 2 (p.float.div (p.float.of_u64 s.complete) runtime_s);
        transfer = pad_left 10 (
            message_of p printf
              (format_binary p.float (p.float.div (p.float.of_u64 s.bytes) runtime_s)));
        shown =
            ap
              (λ n.
                before
                ++ (codes "  "
                    ++ printf.print_u64 n
                    ++ codes " requests in "
                    ++ message_of p printf (format_time_us p.float (p.float.of_u64 runtime_us))
                    ++ codes ", "
                    ++ message_of p printf (format_binary p.float (p.float.of_u64 s.bytes))
                    ++ codes "B read\n"
                    ++ print_errors p printf s.errors
                    ++ print_status p printf s.errors
                    ++ codes "Requests/sec: "
                    ++ printf.print_float 9 2 (p.float.div (p.float.of_u64 s.complete) runtime_s)
                    ++ codes "\nTransfer/sec: "
                    ++ pad_left 10 (
                        message_of p printf
                          (format_binary p.float (p.float.div (p.float.of_u64 s.bytes) runtime_s)))
                    ++ codes "B\n"))
              sums.complete;
        socket_line =
            print_errors-line p printf threads s.errors (omega (arith, c)) (omega (arith, r))
              (omega (arith, w)) (omega (arith, o));
        no_socket = sums.no_socket_errors;
        status_shown = print_status-line p printf threads s.errors (omega (arith, status));
        no_status_line = sums.no_status;
      }

  -- The end of `main` makes its report without a read outside a message, whatever the threads
  -- counted. Its totals are the sums of the threads' requests and bytes, modulo 2 ^ 64. Its text ends
  -- in the sum of the requests, the line of the socket errors, that of the status codes, and the
  -- rates; a line of errors shows the sums of the threads' counts modulo 2 ^ 32, and is left out
  -- exactly if each of them is 0. It rests on a `printf` that prints a number with decimal places
  -- in two characters at least.
  pub end_of_main-Sums :
      (qsort : (ℕ → ℕ → ℕ) → List ℕ → List ℕ) (spectrum : p.hdr.H → List ℕ) (cfg : Wanted)
      (empty : p.hdr.H) (start now : ℕ) (threads : List (Thread p)) (requests : Stats p.hdr.H)
      → Wide p.float printf
      → (r : Ended p printf) × (end_of_main p printf qsort spectrum cfg empty start now threads
            requests
          ≡ some r)
        × Sums threads r.totals
        × Shows p printf threads r.text
  end_of_main-Sums qsort spectrum cfg empty start now threads requests wide =
      let (r, e) =
        end_of_main-Succeeds p printf wide qsort spectrum cfg empty start now threads requests in
      let (t, (before, u)) =
        totals-end_of_main qsort spectrum cfg empty start now threads requests r e in
      (
        r,
        e,
        subst (Sums threads) (sym t) (add_threads-Sums threads),
        subst (Shows p printf threads) (sym u) (shown_totals (sub64 now start) threads before),
      )
