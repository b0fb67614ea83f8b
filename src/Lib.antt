-- ===== src/Lib.antt =====
-- wrkx, an HTTP load generator that sends at a constant rate (a C program: src/wrk.c, src/script.c,
-- src/stats.c and src/net.c over an event loop, an HTTP parser, a histogram and LuaJIT). A thread
-- runs an event loop over its connections. Each connection follows a plan: request n is due at the
-- connection's start plus n over its rate; a connection that has fallen behind catches up at a
-- second rate. The handlers connect, delay, write a batch of pipelined requests and feed what they
-- read to the parser, whose callbacks collect the headers and the body in two buffers and count a
-- finished response, record its latency against the plan and arm the next batch.
--
-- Files and code:
--   Prelude        shared names, lists, options, Boolean tests and 64-bit arithmetic
--   Buffer         wrk.h `buffer`; script.c `buffer_append`, `buffer_reset`, `buffer_pushlstring`
--   Response       wrk.c `header_field`, `header_value`, `response_body`, the call of the script in
--                  `response_complete`; script.c `script_response`
--   Stats          stats.c: Defs has the ring, Summary the mean, the deviation and the percentiles,
--                  Sampling `stats_sample`, Random `rand64`
--   Float          the platform's floating-point arithmetic, a parameter with its laws
--   Histogram      the histogram, a parameter
--   EventLoop      the event loop, a parameter with its laws
--   Connection     wrk.h `connection`; wrk.c `usec_to_next_send`
--   Thread         wrk.h `thread`; wrk.c `connect_socket`, `reconnect_socket`,
--                  `delayed_initial_connect`, `socket_connected`, `socket_writeable`,
--                  `delay_request`, `response_complete`, `socket_readable`, and the timers
--                  `calibrate`, `check_timeouts`, `sample_rate`; Run has the runs of a connection's
--                  handlers, World those of a whole thread
--   Start          wrk.c `main`: Setup has the Lua states up to the threads, Affinity their CPUs,
--                  Signals the signals and `handler`, Defs the loops over the threads and their
--                  totals, and `thread_main` up to `aeMain`; Clock has `time_us`
--   Args           wrk.c `longopts`, `parse_args`; units.c `scan_affinity`; script.c
--                  `script_parse_url`
--   Units          units.c `scan_units`, `format_units` and the functions that call them
--   Lua            LuaJIT behind its API, a parameter; the effect of the API on the stack
--   Script         script.c: Fields and Create up to `script_create`, Calls the calls that the
--                  program makes, Verify `script_verify_request`, Copy `script_copy_value`, Stores
--                  and Objects the methods that a script calls, Addresses who owns an address, Known
--                  what a script may do with one
--   Report         wrk.c: what `main` prints, the columns in Defs, the whole of it in End
--   Message        aprintf.c `aprintf`
--   Transport      net.c, ssl.c, and wrk.c `sock`: how an answer becomes a status in Defs, the set-up
--                  of OpenSSL, its locks and what the calls do to a session in Sessions
--
-- A function of the model has the name of the C function, with a suffix where the model's argument
-- takes the place of a call's answer (`socket_connected_as` takes what `sock.connect` returns). A
-- handler's state is the thread and its connection. The clock's readings, what the system and the
-- transport return, and the calls that the parser makes for the bytes it is given are arguments, so
-- a theorem holds for all of them. A write or read outside a block is `none`, which the theorems
-- exclude. uint64_t, size_t and uint32_t are natural numbers with their wrap written out; an int64_t
-- is given by its 64 bits, and the int of a wait in milliseconds by its 32 bits. The loop of
-- `buffer_append` runs on fuel, as many rounds as there are bytes to add, and is shown to end within
-- it; `rand64` ends one round after the refused draws.
--
-- Not modelled: messages printed on the way and the usage text, the exit where a thread cannot be
-- created, the release of memory (`stats_free`), and memory that cannot be had (`realloc`
-- succeeds). `script_header_done` is called by nothing. The HTTP parser, the event loop, the
-- histogram, the random generator, the allocator and LuaJIT are copies of other projects and stay
-- parameters, as do OpenSSL and what `getopt_long` and `qsort` do. A Lua error and an index
-- outside a Lua stack are `none`. `script_copy_value` runs on fuel, one unit for each entry of a
-- table and each value in it, and its theorems ask for the number of entries and two more.
pub mod Prelude
pub mod Buffer
pub mod Response
pub mod Stats
pub mod Float
pub mod Histogram
pub mod EventLoop
pub mod Connection
pub mod Thread
pub mod Units
pub mod Start
pub mod Args
pub mod Lua
pub mod Script
pub mod Transport
pub mod Report
pub mod Message
