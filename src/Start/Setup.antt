-- ===== src/Start/Setup.antt =====
-- wrk.c: `copy_url_part`, and `main` from the parts of the URL to the threads' Lua states. A new Lua
-- state, in which the libraries and `wrk` are loaded, is an argument.
use wrkx.Prelude.{
  ℕ, zero, suc, Bool, true, false, not, Option, none, some, List, [], ◌∷◌, if◌then◌else◌, ◌>>=◌,
}
use wrkx.Lua.Api.{Lua, LuaState}
use wrkx.Script.Fields.{UrlField, UrlParts, schema, host, port, part}
use wrkx.Script.Create.{script_create}
use wrkx.Script.Calls.{
  script_resolve, script_init, script_is_static, script_want_response, script_request,
}
use wrkx.Script.Verify.{Parsing, Verdict, accepted, refused, script_verify_request}

unfoldable pub copy_url_part : List ℕ → UrlParts → UrlField → Option (List ℕ)
copy_url_part url parts field = if parts.has field then some (part url parts field) else none

-- `port ? port : schema`
unfoldable pub service_of : Option (List ℕ) → List ℕ → List ℕ
service_of none scheme = scheme
service_of (some number) scheme = number

-- what the first thread's script says: the members of `cfg`, and whether the parser gets callbacks
pub record Plan : Type 0 where
  pub pipeline : ℕ
  pub dynamic : Bool
  pub callbacks : Bool

-- how `main` goes on: with the threads, whose states are listed, or it exits
pub data Outcome (l : Lua) : Type 0 where
  running : Plan → LuaState l → List (LuaState l) → Outcome l
  unresolved : Outcome l
  bad_request : List ℕ → ℕ → ℕ → Outcome l

module _ {l : Lua} where
  -- `if (i == 0) { ... }`, behind `script_verify_request`
  unfoldable pub inspect : ℕ → LuaState l → Option (Plan × LuaState l)
  unfolding script_is_static script_want_response
  inspect pipeline s = script_is_static s >>= λ (is_static, s').
      script_want_response s' >>= λ (want, s'').
      some (record { pipeline = pipeline; dynamic = not is_static; callbacks = want }, s'')

  -- the options, and a new Lua state
  module _ (file : Option (List ℕ)) (url : List ℕ) (parts : UrlParts) (headers args : List (List ℕ))
      (new : LuaState l) where
    -- `script_create` and `script_init` of thread `t`, with the main state
    unfoldable pub set_up : ℕ → LuaState l → Option (LuaState l × LuaState l)
    unfolding script_create script_init
    set_up t main =
        script_create file url parts headers new >>= λ own. script_init t args (main, own)

    -- the loop over the threads from thread `t` on
    unfoldable pub set_up_threads : ℕ → ℕ → LuaState l → Option (LuaState l × List (LuaState l))
    unfolding set_up
    set_up_threads t zero main = some (main, [])
    set_up_threads t (suc n) main = set_up t main >>= λ (main', own).
        set_up_threads (suc t) n main' >>= λ (main'', owns). some (main'', own ∷ owns)

    unfoldable pub verified : ℕ → LuaState l → Verdict l → Option (Outcome l)
    unfolding inspect set_up_threads
    verified n main (refused message line column) = some (bad_request message line column)
    verified n main (accepted count own) = inspect count own >>= λ (plan, own').
        set_up_threads 1 n main >>= λ (main', owns). some (running plan main' (own' ∷ owns))

    -- one thread and `n` more
    unfoldable pub start_threads : (List ℕ → Parsing) → ℕ → LuaState l → Option (Outcome l)
    unfolding set_up verified script_verify_request
    start_threads parse n main =
        set_up 0 main >>= λ (main', own). script_verify_request parse own >>= verified n main'

    -- `main` from `script_create` to the threads; `parts` has a schema and a host
    unfoldable pub start : (List ℕ → Parsing) → ℕ → Option (Outcome l)
    unfolding start_threads script_resolve copy_url_part service_of
    start parse n = script_create file url parts headers new >>= λ main.
        copy_url_part url parts schema >>= λ scheme. copy_url_part url parts host >>= λ name.
        script_resolve name (service_of (copy_url_part url parts port) scheme) main
        >>= λ (found, main'). if found then start_threads parse n main' else some unresolved

-- `if (!cfg.dynamic) { ... }` of `thread_main`: the request that its connections share, and the
-- thread's Lua state
unfoldable pub shared_request : {l : Lua} → Bool → LuaState l → Option (List ℕ × LuaState l)
unfolding script_request
shared_request true s = some ([], s)
shared_request false s = script_request s
