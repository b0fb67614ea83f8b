-- ===== src/Script/Copy.antt =====
-- script.c: `script_copy_value`, `script_thread_get` and `script_thread_set`, which pass values
-- between the Lua states of the main program and of a thread.
use wrkx.Prelude.{ℕ, zero, suc, ◌+◌, true, false, Option, none, some, ◌>>=◌, codes, until_nul}
use wrkx.Lua.Api.{
  lua_tostring, bytes_of_value, Lua, LuaState, nil, boolean, number, string, table, closure,
  cfunction, userdata, back, at, value_at, lua_pushnil, lua_pushboolean, lua_pushnumber,
  lua_pushstring, lua_newtable, lua_next, lua_settable, lua_pop, lua_getglobal, lua_setglobal,
  lua_l_checkudata,
}

-- to copy the value at index -k, or the entries that remain of the table that lies at index -k
-- below the key
pub data Task : Type 0 where
  value entries : ℕ → Task

module _ {l : Lua} where
  -- `script_copy_value(src, dst, -k)`; a round of the loop and a value inside a table take one unit
  -- of fuel each.
  unfoldable pub copy : ℕ → Task → LuaState l × LuaState l → Option (LuaState l × LuaState l)
  copy zero task st = none
  copy (suc fuel) (value k) (src, dst) = value_at (back k) src.stack >>= λ v. elim v [
    | boolean b ↦ lua_pushboolean b dst >>= λ d. some (src, d)
    | nil ↦ lua_pushnil dst >>= λ d. some (src, d)
    | number n ↦ lua_pushnumber n dst >>= λ d. some (src, d)
    | string b ↦ lua_pushstring (until_nul b) dst >>= λ d. some (src, d)
    | table t ↦ lua_newtable dst >>= λ d. lua_pushnil src >>= λ s.
        copy fuel (entries k) (s, d) >>= λ (s', d'). lua_pop 1 s' >>= λ s''. some (s'', d')
    | closure r ↦ none
    | cfunction c ↦ none
    | userdata u ↦ none
  ]
  copy (suc fuel) (entries k) (src, dst) = lua_next (back (k + 1)) src >>= λ (more, s). elim more [
    | true ↦ copy fuel (value 1) (s, dst) >>= λ st. copy fuel (value 2) st >>= λ (s', d).
        lua_settable (back 3) d >>= λ d'. lua_pop 1 s' >>= λ s''. copy fuel (entries k) (s'', d')
    | false ↦ some (s, dst)
  ]

  -- the function as it is called, with the sign of the index turned
  unfoldable pub script_copy_value :
      ℕ → ℕ → LuaState l × LuaState l → Option (LuaState l × LuaState l)
  unfolding copy
  script_copy_value fuel k st = copy fuel (value k) st

  -- `script_thread_get(L)`, with the states `L` and `t->L`
  unfoldable pub script_thread_get : ℕ → LuaState l × LuaState l → Option (LuaState l × LuaState l)
  unfolding script_copy_value
  script_thread_get fuel (caller, own) =
      lua_l_checkudata (at 1) (codes "wrk.thread") caller >>= λ t.
      lua_tostring caller >>= λ (key, c). lua_getglobal key own >>= λ o.
      script_copy_value fuel 1 (o, c) >>= λ (o', caller').
      lua_pop 1 o' >>= λ o''. some (caller', o'')

  unfoldable pub script_thread_set : ℕ → LuaState l × LuaState l → Option (LuaState l × LuaState l)
  unfolding script_copy_value
  script_thread_set fuel (caller, own) =
      lua_l_checkudata (at 1) (codes "wrk.thread") caller >>= λ t.
      value_at (back 2) caller.stack >>= bytes_of_value l >>= λ name.
      script_copy_value fuel 1 (caller, own) >>= λ (caller', o).
      lua_setglobal (until_nul name) o >>= λ o'. some (caller', o')
