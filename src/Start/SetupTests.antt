-- ===== src/Start/SetupTests.antt =====
-- A start of `main` on a small interpreter, with two threads.
use wrkx.Prelude.{ℕ, ◌≡◌, refl, Option, none, some, List, [], ◌∷◌, length, map, codes}
use wrkx.Script.Fields.{push_field, set_fields, push_url_part, set_field}
use wrkx.Script.Create.{
  script_create, register, set_url, url_path, fields, set_header, set_headers, split_header,
  split_colon, load,
}
use wrkx.Script.Calls.{
  script_resolve, script_push_thread, push_args, set_thread, call_setup, call_init, script_init,
  script_request, script_is_function, script_is_static, script_want_response,
}
use wrkx.Script.Verify.{Parsing, verify, script_verify_request}
use wrkx.Script.Headers.{written}
use wrkx.Script.Samples.{listing, new_state, url, parts, headers}
use wrkx.Start.Setup.{
  Outcome, running, bad_request, unresolved, copy_url_part, service_of, inspect, set_up,
  set_up_threads, verified, start_threads, start,
}

-- a parser that finds one message in every text
abbrev whole_text : List ℕ → Parsing
whole_text text = record { parsed = length text; count = 1; error = none }

abbrev outcome_or : Outcome listing → Option (Outcome listing) → Outcome listing
outcome_or x none = x
outcome_or x (some y) = y

abbrev started : Outcome listing
started =
    outcome_or unresolved
      (start none url parts (map written headers) (codes "a" ∷ []) new_state whole_text 1)

abbrev states_of : Outcome listing → ℕ
states_of (running plan main owns) = length owns
states_of unresolved = 0
states_of (bad_request message line column) = 0

two_states : states_of started ≡ 2
unfolding start start_threads verified set_up_threads set_up inspect service_of copy_url_part
    script_create register set_url set_field push_url_part set_fields push_field fields url_path
    set_headers set_header split_header split_colon load script_resolve script_init set_thread
    call_setup call_init script_push_thread push_args script_verify_request verify script_request
    script_is_static script_want_response script_is_function
two_states = refl
