-- ===== src/Script/Calls.antt =====
-- script.c: `script_resolve`, `script_push_thread`, `script_init`, `script_request`,
-- `script_is_function` and its callers, `script_summary`, `script_errors`, `script_done`.
use wrkx.Prelude.{
  none, ℕ, suc, Bool, not, Option, some, List, [], ◌∷◌, ◌>>=◌, if◌then◌else◌, codes, ltb,
}
use wrkx.Connection.State.{Errors}
use wrkx.Response.Defs.{ScriptCall}
use wrkx.Lua.Api.{
  bytes_of_value, lua_rawset, lua_pushinteger, Lua, LuaState, Index, at, back, of_thread, of_stats,
  value_at, lua_getglobal, lua_getfield, lua_pushstring, lua_call, lua_objlen, lua_pop,
  lua_newuserdata, lua_l_getmetatable, lua_setmetatable, lua_setfield, lua_newtable, lua_rawseti,
  lua_isfunction, lua_pushvalue,
}
use wrkx.Script.Fields.{of_number, set_fields}

abbrev pub bytes_or_none : Option (List ℕ) → List ℕ
bytes_or_none none = []
bytes_or_none (some b) = b

module _ {l : Lua} where
  unfoldable pub script_resolve : List ℕ → List ℕ → LuaState l → Option (Bool × LuaState l)
  script_resolve host service s =
      lua_getglobal (codes "wrk") s
      >>= lua_getfield (back 1) (codes "resolve")
      >>= lua_pushstring host
      >>= lua_pushstring service
      >>= lua_call 2 0
      >>= lua_getfield (back 1) (codes "addrs")
      >>= λ s'. lua_objlen (back 1) s' >>= λ count. lua_pop 2 s' >>= λ s''. some (ltb 0 count, s'')

  -- `t` stands for the pointer to the thread.
  unfoldable pub script_push_thread : ℕ → LuaState l → Option (LuaState l)
  script_push_thread t s =
      lua_newuserdata (of_thread t) s
      >>= lua_l_getmetatable (codes "wrk.thread")
      >>= lua_setmetatable (back 2)

  -- the loop of `script_init`, from argument `i` on
  unfoldable pub push_args : ℕ → List (List ℕ) → LuaState l → Option (LuaState l)
  push_args i [] s = some s
  push_args i (arg ∷ args) s =
      lua_pushstring arg s >>= lua_rawseti (back 2) i >>= λ s'. push_args (suc i) args s'

  -- the calls on the thread's state, on the main one, and on the thread's again
  unfoldable pub set_thread : ℕ → LuaState l → Option (LuaState l)
  unfolding script_push_thread
  set_thread t s =
      lua_getglobal (codes "wrk") s
      >>= script_push_thread t
      >>= lua_setfield (back 2) (codes "thread")

  unfoldable pub call_setup : ℕ → LuaState l → Option (LuaState l)
  unfolding script_push_thread
  call_setup t s =
      lua_getglobal (codes "wrk") s
      >>= lua_getfield (back 1) (codes "setup")
      >>= script_push_thread t
      >>= lua_call 1 0
      >>= lua_pop 1

  unfoldable pub call_init : List (List ℕ) → LuaState l → Option (LuaState l)
  unfolding push_args
  call_init args s =
      lua_getfield (back 1) (codes "init") s
      >>= lua_newtable
      >>= push_args 0 args
      >>= lua_call 1 0
      >>= lua_pop 1

  -- `script_init(L, t, argc, argv)`, with the states `L` and `t->L`
  unfoldable pub script_init :
      ℕ → List (List ℕ) → LuaState l × LuaState l → Option (LuaState l × LuaState l)
  unfolding set_thread call_setup call_init
  script_init t args (main, own) = set_thread t own >>= λ own'.
      call_setup t main >>= λ main'. call_init args own' >>= λ own''. some (main', own'')

  -- The bytes of the request: `*buf` and `*len`, which is 0 if the value has none.
  unfoldable pub script_request : LuaState l → Option (List ℕ × LuaState l)
  script_request s = lua_getglobal (codes "request") s >>= λ s₁.
      lua_isfunction (back 1) s₁ >>= λ is_function.
      (if is_function
        then some (1, s₁)
        else (lua_getglobal (codes "wrk") s₁ >>= lua_getfield (back 1) (codes "request") >>= λ s₂.
            some (3, s₂)))
      >>= λ (pop, s₃). lua_call 0 1 s₃ >>= λ s₄. value_at (back 1) s₄.stack >>= λ v.
          lua_pop pop s₄ >>= λ s₅. some (bytes_or_none (bytes_of_value l v), s₅)

  unfoldable pub script_is_function : List ℕ → LuaState l → Option (Bool × LuaState l)
  script_is_function name s = lua_getglobal name s >>= λ s'.
      lua_isfunction (back 1) s' >>= λ is_function. lua_pop 1 s' >>= λ s''. some (is_function, s'')

  unfoldable pub script_is_static : LuaState l → Option (Bool × LuaState l)
  unfolding script_is_function
  script_is_static s =
      script_is_function (codes "request") s >>= λ (is_function, s'). some (not is_function, s')

  unfoldable pub script_want_response : LuaState l → Option (Bool × LuaState l)
  unfolding script_is_function
  script_want_response s = script_is_function (codes "response") s

  unfoldable pub script_has_done : LuaState l → Option (Bool × LuaState l)
  unfolding script_is_function
  script_has_done s = script_is_function (codes "done") s

  unfoldable pub script_summary : ℕ → ℕ → ℕ → LuaState l → Option (LuaState l)
  unfolding set_fields
  script_summary duration requests bytes s =
      lua_newtable s
      >>= set_fields (at 1) (
          (codes "duration", of_number duration)
          ∷ (codes "requests", of_number requests)
          ∷ (codes "bytes", of_number bytes)
          ∷ [])

  unfoldable pub script_errors : Errors → LuaState l → Option (LuaState l)
  unfolding set_fields
  script_errors e s =
      lua_newtable s
      >>= set_fields (at 2) (
          (codes "connect", of_number e.connect)
          ∷ (codes "read", of_number e.read)
          ∷ (codes "write", of_number e.write)
          ∷ (codes "status", of_number e.status)
          ∷ (codes "timeout", of_number e.timeout)
          ∷ [])
      >>= lua_setfield (at 1) (codes "errors")

  -- `lua_newuserdata` of a pointer to a store, and its metatable, at an index
  unfoldable pub push_stats : Index → ℕ → LuaState l → Option (LuaState l)
  push_stats index stats s =
      lua_newuserdata (of_stats stats) s
      >>= lua_l_getmetatable (codes "wrk.stats")
      >>= lua_setmetatable index

  unfoldable pub script_done : ℕ → ℕ → LuaState l → Option (LuaState l)
  unfolding push_stats
  script_done latency requests s =
      lua_getglobal (codes "done") s
      >>= lua_pushvalue (at 1)
      >>= push_stats (at 4) latency
      >>= push_stats (at 5) requests
      >>= lua_call 3 0
      >>= lua_pop 1

  -- the loop of `script_response`
  unfoldable pub raw_set_all : List (List ℕ × List ℕ) → LuaState l → Option (LuaState l)
  raw_set_all [] s = some s
  raw_set_all ((name, value) ∷ hs) s =
      lua_pushstring name s >>= lua_pushstring value >>= lua_rawset (back 3) >>= λ s'.
      raw_set_all hs s'

  -- what `script_response` does with the arguments that it has read from the buffers
  unfoldable pub call_response : ScriptCall → LuaState l → Option (LuaState l)
  unfolding raw_set_all
  call_response c s =
      lua_getglobal (codes "response") s
      >>= lua_pushinteger c.status
      >>= lua_newtable
      >>= raw_set_all c.headers
      >>= lua_pushstring c.body
      >>= lua_call 3 0

  unfoldable pub report : ℕ → ℕ → ℕ → Errors → ℕ → ℕ → LuaState l → Option (LuaState l)
  unfolding script_summary script_errors script_done
  report runtime complete bytes e latency requests s =
      script_summary runtime complete bytes s >>= script_errors e >>= script_done latency requests

  -- the end of `main`: `if (script_has_done(L)) { ... }`
  unfoldable pub finish : ℕ → ℕ → ℕ → Errors → ℕ → ℕ → LuaState l → Option (LuaState l)
  unfolding script_has_done report
  finish runtime complete bytes e latency requests s = script_has_done s >>= λ (has_done, s').
      if has_done then report runtime complete bytes e latency requests s' else some s'
