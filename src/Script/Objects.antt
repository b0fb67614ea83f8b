-- ===== src/Script/Objects.antt =====
-- script.c: the methods of an address and of a thread, and the functions that `wrk` gets. What the
-- system answers is an argument.
use wrkx.Prelude.{
  ℕ, suc, ◌+◌, ◌*◌, ◌%◌, ◌≡◌, ◌≢◌, refl, Bool, false, Option, none, some, List, [], ◌∷◌, ◌++◌, ◌==◌,
  if◌then◌else◌, ◌>>=◌, codes, equal_bytes, until_nul, u64_mod, arith,
}
use wrkx.EventLoop.{EventLoop}
use wrkx.Lua.Api.{
  Lua, LuaState, Value, string, Content, of_thread, of_stats, of_addr, Addr, thread_get, thread_set,
  thread_stop, at, back, value_at, bytes_of_value, lua_tostring, lua_l_checkudata,
  lua_l_getmetatable, lua_setmetatable, lua_newuserdata, lua_newtable, lua_rawseti, lua_pushinteger,
  lua_pushboolean, lua_pushstring, lua_pushcfunction,
}

abbrev pub addr_of : Content → Option Addr
addr_of (of_addr a) = some a
addr_of (of_thread t) = none
addr_of (of_stats p) = none

abbrev pub thread_of : Content → Option ℕ
thread_of (of_thread t) = some t
thread_of (of_addr a) = none
thread_of (of_stats p) = none

-- the addresses of the threads, `t->addr`
abbrev pub set_addr : ℕ → Addr → (ℕ → Option Addr) → ℕ → Option Addr
set_addr t a addrs u = if u == t then some a else addrs u

-- the C string of a value, or a null pointer
abbrev pub name_of : (l : Lua) → Value l.N → Option (List ℕ)
name_of l v = bytes_of_value l v >>= λ b. some (until_nul b)

module _ {l : Lua} where
  unfoldable pub checkaddr : LuaState l → Option Addr
  checkaddr s = lua_l_checkudata (back 1) (codes "wrk.addr") s >>= addr_of

  unfoldable pub checkthread : LuaState l → Option ℕ
  checkthread s = lua_l_checkudata (at 1) (codes "wrk.thread") s >>= thread_of

  -- a new userdata with a copy of the address
  unfoldable pub script_addr_clone : Addr → LuaState l → Option (LuaState l)
  script_addr_clone a s =
      lua_newuserdata (of_addr a) s
      >>= lua_l_getmetatable (codes "wrk.addr")
      >>= lua_setmetatable (back 2)

  -- `getnameinfo` gives a host and a service, or fails, which raises an error.
  unfoldable pub script_addr_tostring :
      (Addr → Option (List ℕ × List ℕ)) → LuaState l → Option (LuaState l)
  unfolding checkaddr
  script_addr_tostring getnameinfo s =
      checkaddr s >>= getnameinfo >>= λ (host, service). lua_pushstring (host ++ b':' ∷ service) s

  unfoldable pub script_thread_stop :
      (ae : EventLoop) (loops : ℕ → ae.L) → LuaState l → Option (ℕ → ae.L)
  unfolding checkthread
  script_thread_stop ae loops s =
      checkthread s >>= λ t. some (λ u. if u == t then ae.stop (loops u) else loops u)

  -- `if (!strcmp(name, key)) push`
  unfoldable pub on_key :
      List ℕ → List ℕ → (LuaState l → Option (LuaState l)) → LuaState l → Option (LuaState l)
  on_key name key push s = if equal_bytes name key then push s else some s

  -- `thread.key`, with `t->addr`; to copy from a null pointer is a fault. The metamethod returns the
  -- top of the stack.
  unfoldable pub push_member : Option Addr → List ℕ → LuaState l → Option (LuaState l)
  unfolding on_key script_addr_clone
  push_member addr key s =
      on_key (codes "get") key (lua_pushcfunction thread_get) s
      >>= on_key (codes "set") key (lua_pushcfunction thread_set)
      >>= on_key (codes "stop") key (lua_pushcfunction thread_stop)
      >>= on_key (codes "addr") key (λ s'. addr >>= λ a. script_addr_clone a s')

  -- the key is the second of two arguments, so it is on top
  unfoldable pub script_thread_index : (ℕ → Option Addr) → LuaState l → Option (LuaState l)
  unfolding checkthread push_member
  script_thread_index addrs s =
      checkthread s >>= λ t. lua_tostring s >>= λ (key, s'). push_member (addrs t) key s'

  -- `thread.key = value`
  unfoldable pub set_member : ℕ → List ℕ → (ℕ → Option Addr) → LuaState l → Option (ℕ → Option Addr)
  unfolding checkaddr
  set_member t key addrs s =
      if equal_bytes (codes "addr") key
      then (checkaddr s >>= λ a. some (set_addr t a addrs))
      else none

  unfoldable pub script_thread_newindex : (ℕ → Option Addr) → LuaState l → Option (ℕ → Option Addr)
  unfolding checkthread set_member
  script_thread_newindex addrs s = checkthread s >>= λ t.
      value_at (back 2) s.stack >>= bytes_of_value l >>= λ key. set_member t (until_nul key) addrs s

  -- the loop over the addresses, from `index` on
  unfoldable pub push_addrs : ℕ → List Addr → LuaState l → Option (LuaState l)
  unfolding script_addr_clone
  push_addrs index [] s = some s
  push_addrs index (a ∷ addrs) s =
      script_addr_clone a s >>= lua_rawseti (back 2) index >>= λ s'. push_addrs (suc index) addrs s'

  -- `getaddrinfo` gives the addresses of a host and a service, or fails: the program exits, which is
  -- `none` too.
  unfoldable pub script_wrk_lookup :
      (Option (List ℕ) → Option (List ℕ) → Option (List Addr)) → LuaState l → Option (LuaState l)
  unfolding push_addrs
  script_wrk_lookup getaddrinfo s = value_at (back 2) s.stack >>= λ host.
      value_at (back 1) s.stack >>= λ service.
      getaddrinfo (name_of l host) (name_of l service) >>= λ addrs.
      lua_newtable s >>= push_addrs 1 addrs

  -- `socket` gives a descriptor or fails, and `connect` succeeds on it or not.
  unfoldable pub script_wrk_connect :
      (Addr → Option ℕ) → (ℕ → Addr → Bool) → LuaState l → Option (LuaState l)
  unfolding checkaddr
  script_wrk_connect socket connect s = checkaddr s >>= λ a. elim (socket a) [
    | none ↦ lua_pushboolean false s
    | some fd ↦ lua_pushboolean (connect fd a) s
  ]

  unfoldable pub script_wrk_time_us : ℕ → ℕ → LuaState l → Option (LuaState l)
  script_wrk_time_us tv_sec tv_usec s = lua_pushinteger ((tv_sec * 1_000_000 + tv_usec) % u64_mod) s

-- what a userdata with a metatable of that name holds
abbrev pub Holds : (l : Lua) → Type 0
Holds l =
    (x : l.W) (c : Content) (name : List ℕ)
    → let (n, y) = l.new_userdata x c in
      l.check (l.set_metatable y n (l.metatable y name)) n name ≡ some c

set_addr_self : (t : ℕ) (a : Addr) (addrs : ℕ → Option Addr) → set_addr t a addrs t ≡ some a
set_addr_self t a addrs = ground arith

set_addr_other :
    (t : ℕ) (a : Addr) (addrs : ℕ → Option Addr) (o : ℕ) → o ≢ t → set_addr t a addrs o ≡ addrs o
set_addr_other t a addrs o h = ground arith

module _ (l : Lua) where
  -- After `thread.addr = a`, `thread.addr` gives the script a new userdata with the address that it
  -- set, whatever happened to the interpreter in between; the other threads keep their addresses.
  -- `u` is the thread's userdata and `v` that of the address.
  pub script_thread_index-newindex :
      (t : ℕ) (a : Addr) (u v : Value l.N) (w w' : l.W) (addrs : ℕ → Option Addr)
      → Holds l
      → l.check w u (codes "wrk.thread") ≡ some (of_thread t)
      → l.check w v (codes "wrk.addr") ≡ some (of_addr a)
      → l.check w' u (codes "wrk.thread") ≡ some (of_thread t)
      → let key : Value l.N = string (codes "addr") in
        (addrs' : ℕ → Option Addr) × (script_thread_newindex {l = l} addrs
            (record { stack = v ∷ key ∷ u ∷ []; world = w })
          ≡ some addrs')
        × ((s : LuaState l) × (n : Value l.N) × (script_thread_index {l = l} addrs'
                (record { stack = key ∷ u ∷ []; world = w' })
              ≡ some s)
            × (s.stack ≡ n ∷ key ∷ u ∷ [])
            × (l.check s.world n (codes "wrk.addr") ≡ some (of_addr a)))
        × ((o : ℕ) → o ≢ t → addrs' o ≡ addrs o)
  unfolding script_thread_newindex set_member checkaddr checkthread script_thread_index push_member
      on_key script_addr_clone
  script_thread_index-newindex t a u v w w' addrs holds c d e =
      let (n, y) = l.new_userdata w' (of_addr a) in
      (
        set_addr t a addrs,
        rw (c, d) refl,
        (
          record {
            stack = n ∷ string (codes "addr") ∷ u ∷ [];
            world = l.set_metatable y n (l.metatable y (codes "wrk.addr"));
          },
          n,
          rw (e, set_addr_self t a addrs) refl,
          refl,
          holds w' (of_addr a) (codes "wrk.addr"),
        ),
        set_addr_other t a addrs,
      )
