-- ===== src/Script/Create.antt =====
-- script.c: `script_create`.
use wrkx.Prelude.{ℕ, Option, none, some, List, [], ◌∷◌, drop, ◌==◌, ◌>>=◌, if◌then◌else◌, codes}
use wrkx.Lua.Api.{
  Lua, LuaState, at, CFunction, addr_tostring, addr_gc, stats_get, stats_len, thread_index,
  thread_newindex, wrk_lookup, wrk_connect, wrk_time_us, lua_l_newmetatable, lua_getglobal,
  lua_getfield, lua_pushstring, lua_settable, lua_pop, lua_l_dofile,
}
use wrkx.Script.Fields.{
  Field, of_function, of_string, UrlParts, schema, host, port, path, set_fields, push_url_part,
  set_field,
}

abbrev pub addrlib : List (List ℕ × CFunction)
addrlib = (codes "__tostring", addr_tostring) ∷ (codes "__gc", addr_gc) ∷ []

abbrev pub statslib : List (List ℕ × CFunction)
statslib = (codes "__index", stats_get) ∷ (codes "__len", stats_len) ∷ []

abbrev pub threadlib : List (List ℕ × CFunction)
threadlib = (codes "__index", thread_index) ∷ (codes "__newindex", thread_newindex) ∷ []

-- the bytes before the first colon and those behind it, if there is one
unfoldable pub split_colon : List ℕ → Option (List ℕ × List ℕ)
split_colon [] = none
split_colon (b ∷ s) =
    let rest = split_colon s in
    if b == b':' then some ([], s) else (rest >>= λ (name, value). some (b ∷ name, value))

-- `p && p[1] == ' '`: the name and the value of a header
abbrev pub behind_space : List ℕ × List ℕ → Option (List ℕ × List ℕ)
behind_space (name, []) = none
behind_space (name, b ∷ value) = if b == b' ' then some (name, value) else none

unfoldable pub split_header : List ℕ → Option (List ℕ × List ℕ)
unfolding split_colon
split_header h = split_colon h >>= behind_space

-- `char *path`: the rest of the URL from its path on
unfoldable pub url_path : List ℕ → UrlParts → List ℕ
url_path url parts = if parts.has path then drop (parts.off path) url else codes "/"

unfoldable pub fields : List ℕ → List (List ℕ × Field)
fields from_path =
    (codes "lookup", of_function wrk_lookup)
    ∷ (codes "connect", of_function wrk_connect)
    ∷ (codes "time_us", of_function wrk_time_us)
    ∷ (codes "path", of_string from_path)
    ∷ []

module _ {l : Lua} where
  -- the loop over the headers
  unfoldable pub set_header : Option (List ℕ × List ℕ) → LuaState l → Option (LuaState l)
  set_header none s = some s
  set_header (some (name, value)) s =
      lua_pushstring name s >>= lua_pushstring value >>= lua_settable (at 5)

  unfoldable pub set_headers : List (List ℕ) → LuaState l → Option (LuaState l)
  unfolding set_header split_header
  set_headers [] s = some s
  set_headers (h ∷ headers) s = set_header (split_header h) s >>= λ s'. set_headers headers s'

  -- the three metatables
  unfoldable pub register : LuaState l → Option (LuaState l)
  register s =
      lua_l_newmetatable (codes "wrk.addr") addrlib s
      >>= lua_l_newmetatable (codes "wrk.stats") statslib
      >>= lua_l_newmetatable (codes "wrk.thread") threadlib

  unfoldable pub set_url : List ℕ → UrlParts → LuaState l → Option (LuaState l)
  unfolding set_field push_url_part set_fields fields url_path
  set_url url parts s =
      set_field (at 4) (codes "scheme") (push_url_part url parts schema) s
      >>= set_field (at 4) (codes "host") (push_url_part url parts host)
      >>= set_field (at 4) (codes "port") (push_url_part url parts port)
      >>= set_fields (at 4) (fields (url_path url parts))

  unfoldable pub load : Option (List ℕ) → LuaState l → Option (LuaState l)
  load none s = some s
  load (some file) s = lua_l_dofile file s

  -- from a state in which the libraries and `wrk` are loaded; a message for a file that fails is only
  -- printed
  unfoldable pub script_create :
      Option (List ℕ) → List ℕ → UrlParts → List (List ℕ) → LuaState l → Option (LuaState l)
  unfolding register set_url set_headers load
  script_create file url parts headers s =
      register s
      >>= lua_getglobal (codes "wrk")
      >>= set_url url parts
      >>= lua_getfield (at 4) (codes "headers")
      >>= set_headers headers
      >>= lua_pop 5
      >>= load file
