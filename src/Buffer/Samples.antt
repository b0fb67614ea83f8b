-- ===== src/Buffer/Samples.antt =====
-- A `realloc` and a buffer for the tests.
use wrkx.Prelude.{
  ℕ, ◌-◌, none, ◌++◌, length, replicate, length-append, length-replicate, take-append, arith,
}
use wrkx.Buffer.Defs.{Realloc, Buffer}

-- a `realloc` that clears the new bytes
abbrev pub clearing : Realloc
clearing = record {
  grow = λ bs n. bs ++ replicate (n - length bs) 0;
  length-grow = λ bs n h. omega (
    arith,
    length-append bs (replicate (n - length bs) 0),
    length-replicate {A = ℕ} (n - length bs) 0,
  );
  take-grow = λ bs n h. take-append bs (replicate (n - length bs) 0);
}

abbrev pub no_buffer : Buffer
no_buffer = record { block = none; length = 0; cursor = 0 }
