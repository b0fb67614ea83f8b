-- ===== src/Lua/Api.antt =====
-- What script.c sees of Lua: values, the stack of a `lua_State`, and, behind it, an interpreter that
-- is another project's and so a parameter. The functions below have the names of the API and the
-- effect on the stack that its manual gives; `none` is a fault, which is an index outside the stack
-- or an error that Lua raises, and ends the C function.
use wrkx.Prelude.{
  ℕ, zero, suc, ◌+◌, ◌-◌, Bool, true, false, Option, none, some, List, [], ◌∷◌, ◌++◌, length, take,
  drop, get_elem?, leb, if◌then◌else◌, ◌>>=◌, until_nul,
}
use mathlib.Core.List.{reverse}

-- the C functions that script.c gives to Lua
pub data CFunction : Type 0 where
  addr_tostring addr_gc stats_get stats_len stats_percentile thread_index thread_newindex thread_get
        thread_set thread_stop wrk_lookup wrk_connect wrk_time_us :
      CFunction

-- Tables, functions of Lua and userdata are references into the interpreter.
pub data Value (N : Type 0) : Type 0 where
  nil : Value N
  boolean : Bool → Value N
  number : N → Value N
  string : List ℕ → Value N
  table : ℕ → Value N
  closure : ℕ → Value N
  cfunction : CFunction → Value N
  userdata : ℕ → Value N

-- `struct addrinfo`, with the bytes that `ai_addr` points to
pub record Addr : Type 0 where
  pub ai_family : ℕ
  pub ai_socktype : ℕ
  pub ai_protocol : ℕ
  pub ai_addr : List ℕ

-- what a userdata of script.c holds: a pointer to a thread or to a store, or an address
pub data Content : Type 0 where
  of_thread of_stats : ℕ → Content
  of_addr : Addr → Content

pub record Lua : Type 1 where
  -- `lua_Number`, from and to the bits of an int64_t
  pub N : Type 0
  pub of_int : ℕ → N
  pub to_int : N → ℕ
  -- conversions between numbers and strings
  pub parse_number : List ℕ → Option N
  pub print_number : N → List ℕ
  -- tables, globals, userdata and the registry
  pub W : Type 0
  pub get_global : W → List ℕ → Option (Value N × W)
  pub set_global : W → List ℕ → Value N → Option W
  pub get : W → Value N → Value N → Option (Value N × W)
  pub set : W → Value N → Value N → Value N → Option W
  pub raw_set : W → Value N → Value N → Value N → W
  pub new_table : W → Value N × W
  pub new_userdata : W → Content → Value N × W
  pub objlen : W → Value N → ℕ
  -- the entry behind a key, the first one behind nil
  pub next : W → Value N → Value N → Option (Value N × Value N)
  -- `luaL_newmetatable` with `luaL_register`, `luaL_getmetatable`, `lua_setmetatable`
  pub new_metatable : W → List ℕ → List (List ℕ × CFunction) → Value N × W
  pub metatable : W → List ℕ → Value N
  pub set_metatable : W → Value N → Value N → W
  -- the content of a userdata with the metatable of that name
  pub check : W → Value N → List ℕ → Option Content
  -- `luaL_dofile`: whether it failed, and what it leaves on the stack, which are the values that the
  -- file returns, or a message
  pub run_file : W → List ℕ → Bool × List (Value N) × W
  -- what a function returns for its arguments
  pub call : W → Value N → List (Value N) → Option (List (Value N) × W)

-- an index: from the bottom, 1 first, or from the top, with the sign turned
pub data Index : Type 0 where
  at back : ℕ → Index

module _ {N : Type 0} where
  abbrev pub is_function : Value N → Bool
  is_function (closure r) = true
  is_function (cfunction c) = true
  is_function _ = false

  -- the value at an index, top first; `nth` counts from 1
  abbrev pub nth : ℕ → List (Value N) → Option (Value N)
  nth zero vs = none
  nth (suc k) vs = get_elem? vs k

  abbrev pub value_at : Index → List (Value N) → Option (Value N)
  value_at (back k) vs = nth k vs
  value_at (at k) vs = if leb k (length vs) then nth (length vs + 1 - k) vs else none

  -- `n` values of a list pushed on a stack, with nil for those missing
  abbrev pub returned : ℕ → List (Value N) → List (Value N) → List (Value N)
  returned zero vs stack = stack
  returned (suc n) [] stack = returned n [] (nil ∷ stack)
  returned (suc n) (v ∷ vs) stack = returned n vs (v ∷ stack)

  -- the stack without its top, and the top
  abbrev pub top : List (Value N) → Option (Value N × List (Value N))
  top [] = none
  top (v ∷ vs) = some (v, vs)

  -- the stack without `n` values
  abbrev pub popped : ℕ → List (Value N) → Option (List (Value N))
  popped zero vs = some vs
  popped (suc n) [] = none
  popped (suc n) (v ∷ vs) = popped n vs

-- a `lua_State`: its stack, the top first, and the interpreter
pub record LuaState (l : Lua) : Type 0 where
  pub stack : List (Value l.N)
  pub world : l.W

module _ {l : Lua} where
  open l use {N, W}

  abbrev pub push : Value N → LuaState l → Option (LuaState l)
  push v s = some (record s { stack = v ∷ s.stack })

  abbrev pub pushed : Value N × W → LuaState l → Option (LuaState l)
  pushed (v, w) s = some (record { stack = v ∷ s.stack; world = w })

  abbrev pub lua_pop : ℕ → LuaState l → Option (LuaState l)
  lua_pop n s = popped n s.stack >>= λ vs. some (record s { stack = vs })

  abbrev pub lua_pushnil : LuaState l → Option (LuaState l)
  lua_pushnil = push nil

  abbrev pub lua_pushboolean : Bool → LuaState l → Option (LuaState l)
  lua_pushboolean b = push (boolean b)

  abbrev pub lua_pushnumber : N → LuaState l → Option (LuaState l)
  lua_pushnumber n = push (number n)

  abbrev pub lua_pushinteger : ℕ → LuaState l → Option (LuaState l)
  lua_pushinteger n = push (number (l.of_int n))

  -- also `lua_pushlstring`
  abbrev pub lua_pushstring : List ℕ → LuaState l → Option (LuaState l)
  lua_pushstring bytes = push (string bytes)

  abbrev pub lua_pushcfunction : CFunction → LuaState l → Option (LuaState l)
  lua_pushcfunction c = push (cfunction c)

  abbrev pub lua_pushvalue : Index → LuaState l → Option (LuaState l)
  lua_pushvalue i s = value_at i s.stack >>= λ v. push v s

  abbrev pub lua_newtable : LuaState l → Option (LuaState l)
  lua_newtable s = pushed (l.new_table s.world) s

  abbrev pub lua_newuserdata : Content → LuaState l → Option (LuaState l)
  lua_newuserdata c s = pushed (l.new_userdata s.world c) s

  abbrev pub lua_getglobal : List ℕ → LuaState l → Option (LuaState l)
  lua_getglobal name s = l.get_global s.world name >>= λ r. pushed r s

  abbrev pub lua_setglobal : List ℕ → LuaState l → Option (LuaState l)
  lua_setglobal name s = top s.stack >>= λ (v, vs).
      l.set_global s.world name v >>= λ w. some (record { stack = vs; world = w })

  abbrev pub lua_getfield : Index → List ℕ → LuaState l → Option (LuaState l)
  lua_getfield i name s =
      value_at i s.stack >>= λ t. l.get s.world t (string name) >>= λ r. pushed r s

  abbrev pub lua_setfield : Index → List ℕ → LuaState l → Option (LuaState l)
  lua_setfield i name s = value_at i s.stack >>= λ t. top s.stack >>= λ (v, vs).
      l.set s.world t (string name) v >>= λ w. some (record { stack = vs; world = w })

  abbrev pub lua_settable : Index → LuaState l → Option (LuaState l)
  lua_settable i s = value_at i s.stack >>= λ t. top s.stack >>= λ (v, vs).
      top vs >>= λ (k, rest). l.set s.world t k v >>= λ w. some (record { stack = rest; world = w })

  abbrev pub lua_rawseti : Index → ℕ → LuaState l → Option (LuaState l)
  lua_rawseti i n s = value_at i s.stack >>= λ t. top s.stack >>= λ (v, vs).
      some (record { stack = vs; world = l.raw_set s.world t (number (l.of_int n)) v })

  abbrev pub lua_rawset : Index → LuaState l → Option (LuaState l)
  lua_rawset i s = value_at i s.stack >>= λ t. top s.stack >>= λ (v, vs).
      top vs >>= λ (k, rest). some (record { stack = rest; world = l.raw_set s.world t k v })

  -- `lua_next`, and whether there was an entry
  abbrev pub lua_next : Index → LuaState l → Option (Bool × LuaState l)
  lua_next i s = value_at i s.stack >>= λ t. top s.stack >>= λ (k, vs). elim (l.next s.world t k) [
    | none ↦ some (false, record s { stack = vs })
    | some (k', v) ↦ some (true, record s { stack = v ∷ k' ∷ vs })
  ]

  abbrev pub lua_l_newmetatable :
      List ℕ → List (List ℕ × CFunction) → LuaState l → Option (LuaState l)
  lua_l_newmetatable name lib s = pushed (l.new_metatable s.world name lib) s

  abbrev pub lua_l_getmetatable : List ℕ → LuaState l → Option (LuaState l)
  lua_l_getmetatable name s = push (l.metatable s.world name) s

  abbrev pub lua_setmetatable : Index → LuaState l → Option (LuaState l)
  lua_setmetatable i s = value_at i s.stack >>= λ v.
      top s.stack >>= λ (m, vs). some (record { stack = vs; world = l.set_metatable s.world v m })

  -- `lua_call`: the function lies under its `n` arguments.
  abbrev pub lua_call : ℕ → ℕ → LuaState l → Option (LuaState l)
  lua_call n results s = value_at (back (n + 1)) s.stack >>= λ f.
      l.call s.world f (reverse (take n s.stack)) >>= λ (vs, w).
      some (record { stack = returned results vs (drop (n + 1) s.stack); world = w })

  abbrev pub lua_l_dofile : List ℕ → LuaState l → Option (LuaState l)
  lua_l_dofile file s =
      let (_, vs, w) = l.run_file s.world file in some (record { stack = vs ++ s.stack; world = w })

  -- `lua_isfunction`, `lua_objlen`, `luaL_checkudata`
  abbrev pub lua_isfunction : Index → LuaState l → Option Bool
  lua_isfunction i s = value_at i s.stack >>= λ v. some (is_function v)

  abbrev pub lua_objlen : Index → LuaState l → Option ℕ
  lua_objlen i s = value_at i s.stack >>= λ v. some (l.objlen s.world v)

  abbrev pub lua_l_checkudata : Index → List ℕ → LuaState l → Option Content
  lua_l_checkudata i name s = value_at i s.stack >>= λ v. l.check s.world v name

module _ (l : Lua) where
  open l use {N}

  -- `lua_tolstring` and `lua_tonumber` of a value; `lua_isnumber` says whether there is a number
  abbrev pub bytes_of_value : Value N → Option (List ℕ)
  bytes_of_value (string b) = some b
  bytes_of_value (number n) = some (l.print_number n)
  bytes_of_value _ = none

  abbrev pub number_of_value : Value N → Option N
  number_of_value (number n) = some n
  number_of_value (string b) = l.parse_number b
  number_of_value _ = none

module _ {l : Lua} where
  -- `lua_tostring` at the top, where a number becomes a string
  abbrev pub lua_tostring : LuaState l → Option (List ℕ × LuaState l)
  lua_tostring s = top s.stack >>= λ (v, vs).
      bytes_of_value l v >>= λ b. some (until_nul b, record s { stack = string b ∷ vs })
