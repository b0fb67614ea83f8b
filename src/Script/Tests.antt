-- ===== src/Script/Tests.antt =====
-- Runs of script.c's model on a small interpreter, and its theorems at concrete values.
use wrkx.Prelude.{
  ℕ, ◌<◌, ◌≡◌, ◌≢◌, refl, ◌⊎◌, true, Option, none, some, List, [], ◌∷◌, ◌++◌, map, get_elem?,
  length, ◌≤◌, ◌^◌, ◌>>=◌, codes, arith,
}
use wrkx.Connection.State.{Errors}
use wrkx.Lua.Api.{LuaState, Value, boolean, number, string, table, closure, of_thread, userdata}
use wrkx.Script.Fields.{push_field, set_fields, push_url_part, set_field}
use wrkx.Script.Create.{
  script_create, register, set_url, url_path, fields, set_header, set_headers, split_header,
  split_colon, load,
}
use wrkx.Script.Headers.{written, pair_of, prepare, assign, script_create-headers}
use wrkx.Script.Calls.{script_resolve, script_request, finish}
use wrkx.Script.Life.{Call, resolve, request, run_call, run_calls, run_calls-stack, finish-misled}
use wrkx.Script.Verify.{
  Parsing, refused, accepted, message, script_verify_request, script_verify_request-position,
}
use wrkx.Script.Copy.{script_copy_value}
use wrkx.Script.Tables.{assign_swapped, script_copy_value-swaps}
use wrkx.Lua.Api.{Content, of_stats, of_addr, Addr, lua_pushnumber, lua_pushinteger}
use wrkx.Stats.Defs.{Stats}
use wrkx.Thread.Samples.{listed}
use wrkx.Script.Stores.{script_stats_get, script_stats_len, script_stats_get-index}
use wrkx.Script.Objects.{script_thread_index, script_thread_newindex, script_thread_index-newindex}
use wrkx.Script.Addresses.{Blocks, Use, lookup, give, collect, fetch, OwnedOnce}
use wrkx.Script.Owners.{no_blocks, use_addrs, use_addrs-OwnedOnce}
use wrkx.Script.Samples.{url, parts, headers, World, listing, new_state, prelude, state_or}

abbrev created : LuaState listing
created = state_or new_state (script_create none url parts (map written headers) new_state)

created_is : script_create none url parts (map written headers) new_state ≡ some created
unfolding script_create register set_url set_field push_url_part set_fields push_field fields
    url_path set_headers set_header split_header split_colon load
created_is = refl

created_empty : created.stack ≡ []
unfolding script_create register set_url set_field push_url_part set_fields push_field fields
    url_path set_headers set_header split_header split_colon load
created_empty = refl

script_create-headers_example :
    (t : Value ℕ) × (p : LuaState listing) × (prepare listing url parts new_state ≡ some p)
    × (get_elem? p.stack 0 ≡ some t)
    × (assign listing t (map pair_of headers) p.world ≡ some created.world)
    × (created.stack ≡ [])
script_create-headers_example =
    script_create-headers listing url parts headers new_state created refl created_is

abbrev calls : List Call
calls = resolve (codes "h") (codes "80") ∷ request ∷ []

abbrev called : LuaState listing
called = state_or new_state (run_calls calls created)

called_is : run_calls calls created ≡ some called
unfolding script_create register set_url set_field push_url_part set_fields push_field fields
    url_path set_headers set_header split_header split_colon load run_calls run_call script_resolve
    script_request
called_is = refl

run_calls-stack_example : called.stack ≡ []
run_calls-stack_example =
    run_calls-stack url parts headers calls new_state created called refl created_is called_is

abbrev no_errors : Errors
no_errors = record { connect = 0; read = 0; write = 0; status = 0; timeout = 0 }

abbrev after_file : World
after_file = record created.world {
  slots = (table 0, string (codes "done"), closure 1) ∷ created.world.slots;
}

finish-misled_example :
    (script_create (some (codes "f.lua")) url parts (map written headers) new_state
      >>= finish 10 20 30 no_errors 0 1)
    ≡ none
finish-misled_example =
    finish-misled (codes "f.lua") url parts (map written headers) new_state created 10 20 30
      no_errors 0 1 (boolean true) (closure 1) after_file after_file created_is created_empty refl
      refl refl (λ u k x. refl)

-- The script's request is "GET /", a newline and an empty line; the parser stops behind the newline.
abbrev stops_early : List ℕ → Parsing
stops_early text = record { parsed = 6; count = 0; error = none }

request_is : script_request new_state ≡ some (codes "GET /\n\n", new_state)
unfolding script_request
request_is = refl

script_verify_request-position_example :
    (((codes "\n" ≡ [])
        × (◌≢◌ {A = ℕ} 0 0)
        × (script_verify_request stops_early new_state ≡ some (accepted 0 new_state)))
      ⊎ (((codes "\n" ≢ []) ⊎ (◌≡◌ {A = ℕ} 0 0))
          × (script_verify_request stops_early new_state ≡ some (refused (message none) 2 1))))
script_verify_request-position_example =
    script_verify_request-position stops_early new_state new_state (codes "\n") []
      (codes "GET /" ∷ []) request_is ((refl, (refl, (refl, (refl, (refl, tt))))), tt) tt refl

-- { [1] = "x", [2] = "y" }
abbrev entries : List (Value ℕ × Value ℕ)
entries = (number 1, string (codes "x")) ∷ (number 2, string (codes "y")) ∷ []

abbrev with_table : World
with_table = record {
  slots =
      (table 0, string (codes "k"), table 5)
      ∷ (table 5, number 1, string (codes "x"))
      ∷ (table 5, number 2, string (codes "y"))
      ∷ [];
  tables = 6;
  contents = of_thread 3 ∷ [];
}

script_copy_value-swaps_example :
    script_copy_value {l = listing} 4 1
      (record { stack = table 5 ∷ []; world = with_table }, new_state)
    ≡ (assign_swapped listing (table 4) entries (record prelude { tables = 5 }) >>= λ u'.
        some
          (record { stack = []; world = with_table }, record { stack = table 4 ∷ []; world = u' }))
script_copy_value-swaps_example =
    script_copy_value-swaps listing 4 5 entries [] with_table new_state (omega arith)
      (refl, tt, tt, (refl, tt, tt, refl))

-- a full store of three samples
abbrev store : Stats (List ℕ)
store = record {
  samples = 3;
  index = 1;
  limit = 3;
  min = 2;
  max = 9;
  histogram = none;
  values = 7 ∷ 9 ∷ 2 ∷ [];
}

abbrev with_store : World
with_store = record { slots = []; tables = 1; contents = of_stats 0 ∷ [] }

abbrev index_call : LuaState listing
index_call = record { stack = number 3 ∷ userdata 0 ∷ []; world = with_store }

script_stats_get-index_example :
    (script_stats_len {l = listing} listed (λ x. x) (λ x. x) (λ p. store) index_call
      ≡ lua_pushinteger 3 index_call)
    × (((0 < 3)
          × (3 ≤ 3)
          × (3 < 2 ^ 31)
          × ((x : ℕ) × (get_elem? store.values 2 ≡ some x)
              × (script_stats_get {l = listing} listed (λ n. n) (λ n. n) (λ p. store) index_call
                  ≡ lua_pushnumber x index_call)))
        ⊎ (((◌≡◌ {A = ℕ} 3 0) ⊎ (3 < 3) ⊎ (2 ^ 31 ≤ 3))
            × (script_stats_get {l = listing} listed (λ n. n) (λ n. n) (λ p. store) index_call
                ≡ none)))
script_stats_get-index_example =
    script_stats_get-index {l = listing} listed (λ n. n) (λ n. n) (λ p. store) 0 3 3 (userdata 0)
      with_store refl refl refl refl

last_content : (cs : List Content) (c : Content) → get_elem? (cs ++ c ∷ []) (length cs) ≡ some c
last_content [] c = refl
last_content (d ∷ cs) c = last_content cs c

abbrev address : Addr
address = record { ai_family = 2; ai_socktype = 1; ai_protocol = 6; ai_addr = 127 ∷ 0 ∷ 0 ∷ 1 ∷ [] }

abbrev with_thread : World
with_thread = record { slots = []; tables = 1; contents = of_thread 3 ∷ of_addr address ∷ [] }

abbrev no_addrs : ℕ → Option Addr
no_addrs t = none

script_thread_index-newindex_example :
    let key : Value ℕ = string (codes "addr") in
    (addrs' : ℕ → Option Addr) × (script_thread_newindex {l = listing} no_addrs
        (record { stack = userdata 1 ∷ key ∷ userdata 0 ∷ []; world = with_thread })
      ≡ some addrs')
    × ((s : LuaState listing) × (n : Value ℕ) × (script_thread_index {l = listing} addrs'
            (record { stack = key ∷ userdata 0 ∷ []; world = with_thread })
          ≡ some s)
        × (s.stack ≡ n ∷ key ∷ userdata 0 ∷ [])
        × (listing.check s.world n (codes "wrk.addr") ≡ some (of_addr address)))
    × ((o : ℕ) → o ≢ 3 → addrs' o ≡ no_addrs o)
script_thread_index-newindex_example =
    script_thread_index-newindex listing 3 address (userdata 0) (userdata 1) with_thread with_thread
      no_addrs (λ x c name. last_content x.contents c) refl refl refl

-- Userdata 1 is looked up, given to thread 5 and collected; then thread 5 gives its address back to
-- userdata 2, gets it once more, and userdata 2 is collected.
abbrev uses : List Use
uses = lookup 1 ∷ give 5 1 ∷ collect 1 ∷ fetch 5 2 ∷ give 5 2 ∷ collect 2 ∷ []

use_addrs-OwnedOnce_example : (s' : Blocks) × (use_addrs uses no_blocks ≡ some s') × OwnedOnce s'
use_addrs-OwnedOnce_example =
    use_addrs-OwnedOnce uses (refl, (refl, (refl, ((refl, refl), (refl, (refl, tt))))))
