-- ===== src/Script/Fields.antt =====
-- script.c: `table_field`, `set_field`, `set_fields`, `push_url_part`.
use wrkx.Prelude.{ℕ, Bool, Option, some, List, [], ◌∷◌, take, drop, ◌>>=◌, if◌then◌else◌}
use wrkx.Lua.Api.{
  Lua, LuaState, Index, CFunction, lua_setfield, lua_pushcfunction, lua_pushinteger, lua_pushstring,
  lua_pushnil,
}

-- the value of a `table_field`, by its type; `absent` is the null pointer
pub data Field : Type 0 where
  of_function : CFunction → Field
  of_number : ℕ → Field
  of_string : List ℕ → Field
  absent : Field

-- the parts of a URL, and where the parser found each of them
pub data UrlField : Type 0 where
  schema host port path : UrlField

pub record UrlParts : Type 0 where
  pub has : UrlField → Bool
  pub off : UrlField → ℕ
  pub len : UrlField → ℕ

-- `len` bytes of the URL from `off` on
abbrev pub part : List ℕ → UrlParts → UrlField → List ℕ
part url parts field = take (parts.len field) (drop (parts.off field) url)

module _ {l : Lua} where
  unfoldable pub push_field : Field → LuaState l → Option (LuaState l)
  push_field (of_function c) s = lua_pushcfunction c s
  push_field (of_number n) s = lua_pushinteger n s
  push_field (of_string b) s = lua_pushstring b s
  push_field absent s = lua_pushnil s

  unfoldable pub set_fields : Index → List (List ℕ × Field) → LuaState l → Option (LuaState l)
  unfolding push_field
  set_fields index [] s = some s
  set_fields index ((name, value) ∷ fields) s =
      push_field value s >>= lua_setfield index name >>= λ s'. set_fields index fields s'

  unfoldable pub push_url_part : List ℕ → UrlParts → UrlField → LuaState l → Option (LuaState l)
  push_url_part url parts field s =
      if parts.has field then lua_pushstring (part url parts field) s else lua_pushnil s

  -- `set_field(L, index, name, push_url_part(...))`
  unfoldable pub set_field :
      Index → List ℕ → (LuaState l → Option (LuaState l)) → LuaState l → Option (LuaState l)
  set_field index name value s = value s >>= lua_setfield index name
