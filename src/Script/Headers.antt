-- ===== src/Script/Headers.antt =====
-- What `script_create` sets (script.c).
use wrkx.Prelude.{
  ℕ, suc, ◌≡◌, refl, ap, sym, ◌∙◌, false, Option, none, some, List, [], ◌∷◌, ◌++◌, ◌==◌, ◌>>=◌,
  codes, arith, get_elem?, map, Option-cases, length, >>=-eq-some, some_value, inl, inr,
}
use wrkx.Lua.Api.{Lua, LuaState, Value, string, at, lua_getglobal, lua_getfield, lua_pop}
use wrkx.Script.Fields.{UrlParts, set_fields, push_field, push_url_part, set_field}
use wrkx.Script.Create.{
  split_colon, split_header, set_headers, register, set_url, load, script_create, fields,
}

-- a header's name, which holds no colon
abbrev pub NoColon : List ℕ → Type 0
NoColon [] = Unit {0}
NoColon (b ∷ s) = ((b == b':') ≡ false) × NoColon s

split_colon_lem :
    (name rest : List ℕ) → NoColon name → split_colon (name ++ b':' ∷ rest) ≡ some (name, rest)
unfolding split_colon
split_colon_lem [] rest h = refl
split_colon_lem (b ∷ name) rest (e, h) = rw (e, split_colon_lem name rest h) refl

split_colon-none : (s : List ℕ) → NoColon s → split_colon s ≡ none
unfolding split_colon
split_colon-none [] h = refl
split_colon-none (b ∷ s) (e, h) = rw (e, split_colon-none s h) refl

-- what a `-H` option can hold: a name and a value, a text with no colon, or a colon with no space
-- behind it
pub data Header : Type 0 where
  pair : (name value : List ℕ) → NoColon name → Header
  plain : (text : List ℕ) → NoColon text → Header
  ended : (name : List ℕ) → NoColon name → Header
  tight : (name : List ℕ) (b : ℕ) (rest : List ℕ) → NoColon name → (b == b' ') ≡ false → Header

abbrev pub written : Header → List ℕ
written (pair name value h) = name ++ (b':' ∷ (b' ' ∷ value))
written (plain text h) = text
written (ended name h) = name ++ (b':' ∷ [])
written (tight name b rest h k) = name ++ (b':' ∷ (b ∷ rest))

abbrev pub pair_of : Header → Option (List ℕ × List ℕ)
pair_of (pair name value h) = some (name, value)
pair_of (plain text h) = none
pair_of (ended name h) = none
pair_of (tight name b rest h k) = none

split_header-written : (h : Header) → split_header (written h) ≡ pair_of h
unfolding split_header
split_header-written (pair name value h) = rw (split_colon_lem name (b' ' ∷ value) h) refl
split_header-written (plain text h) = rw (split_colon-none text h) refl
split_header-written (ended name h) = rw (split_colon_lem name [] h) refl
split_header-written (tight name b rest h k) = rw (split_colon_lem name (b ∷ rest) h, k) refl

module _ (l : Lua) where
  -- `t[name] = value` for the pairs, in order
  abbrev pub assign : Value l.N → List (Option (List ℕ × List ℕ)) → l.W → Option l.W
  assign t [] w = some w
  assign t (none ∷ hs) w = assign t hs w
  assign t (some (name, value) ∷ hs) w =
      l.set w t (string name) (string value) >>= λ w'. assign t hs w'

  set_headers-assign :
      (a b c d t : Value l.N) (hs : List Header) (w : l.W)
      → set_headers {l = l} (map written hs) (record { stack = t ∷ d ∷ c ∷ b ∷ a ∷ []; world = w })
        ≡ (assign t (map pair_of hs) w >>= λ w'.
            some (record { stack = t ∷ d ∷ c ∷ b ∷ a ∷ []; world = w' }))
  unfolding set_headers
  set_headers-assign a b c d t [] w = refl
  set_headers-assign a b c d t (pair name value h ∷ hs) w =
      rw (split_header-written (pair name value h))
        (elim (Option-cases (l.set w t (string name) (string value))) [
          | inl e ↦ rw e refl
          | inr (w', e) ↦ rw e (set_headers-assign a b c d t hs w')
        ])
  set_headers-assign a b c d t (plain text h ∷ hs) w =
      rw (split_header-written (plain text h)) (set_headers-assign a b c d t hs w)
  set_headers-assign a b c d t (ended name h ∷ hs) w =
      rw (split_header-written (ended name h)) (set_headers-assign a b c d t hs w)
  set_headers-assign a b c d t (tight name x rest h k ∷ hs) w =
      rw (split_header-written (tight name x rest h k)) (set_headers-assign a b c d t hs w)

  -- what `script_create` does before the headers
  abbrev pub prepare : List ℕ → UrlParts → LuaState l → Option (LuaState l)
  prepare url parts s =
      register s
      >>= lua_getglobal (codes "wrk")
      >>= set_url url parts
      >>= lua_getfield (at 4) (codes "headers")

  register-length :
      (s s' : LuaState l)
      → register s ≡ some s'
      → length s'.stack ≡ suc (suc (suc (length s.stack)))
  unfolding register
  register-length s s' h = ground arith

  set_url-stack :
      (url : List ℕ) (parts : UrlParts) (s s' : LuaState l)
      → set_url url parts s ≡ some s'
      → length s.stack ≡ 4
      → s'.stack ≡ s.stack
  unfolding set_url set_field push_url_part set_fields push_field fields
  set_url-stack url parts s s' h e = ground arith

  prepare-length :
      (url : List ℕ) (parts : UrlParts) (s s' : LuaState l)
      → prepare url parts s ≡ some s'
      → s.stack ≡ []
      → length s'.stack ≡ 5
  prepare-length url parts s s' h e =
      let (u, f, g) =
        >>=-eq-some (register s >>= lua_getglobal (codes "wrk") >>= set_url url parts)
          (lua_getfield (at 4) (codes "headers")) h in
      let (v, f', g') =
        >>=-eq-some (register s >>= lua_getglobal (codes "wrk")) (set_url url parts) f in
      let (w, f'', g'') = >>=-eq-some (register s) (lua_getglobal (codes "wrk")) f' in
      let three = register-length s w f'' in
      let four : length v.stack ≡ 4 = ground arith in
      let same = set_url-stack url parts v u g' four in ground arith

  -- the loop over the headers, and the `lua_pop` behind it
  headers_popped :
      (vs : List (Value l.N)) (w : l.W) (hs : List Header) (v u : LuaState l)
      → length vs ≡ 5
      → set_headers (map written hs) (record { stack = vs; world = w }) ≡ some v
      → lua_pop 5 v ≡ some u
      → (t : Value l.N) × (get_elem? vs 0 ≡ some t)
        × (assign t (map pair_of hs) w ≡ some u.world)
        × (u.stack ≡ [])
  headers_popped (t ∷ d ∷ c ∷ b ∷ a ∷ []) w hs v u e h k =
      let (w', m, n) =
        >>=-eq-some (assign t (map pair_of hs) w) _ (sym (set_headers-assign a b c d t hs w) ∙ h) in
      let done = some_value (ap (λ (o : Option (LuaState l)). o >>= lua_pop 5) n ∙ k) in
      (
        t,
        refl,
        m ∙ ap (λ (x : LuaState l). some x.world) done,
        ap (λ (x : LuaState l). x.stack) (sym done),
      )
  headers_popped [] w hs v u h q k = absurd (omega arith)
  headers_popped (t ∷ []) w hs v u h q k = absurd (omega arith)
  headers_popped (t ∷ d ∷ []) w hs v u h q k = absurd (omega arith)
  headers_popped (t ∷ d ∷ c ∷ []) w hs v u h q k = absurd (omega arith)
  headers_popped (t ∷ d ∷ c ∷ b ∷ []) w hs v u h q k = absurd (omega arith)
  headers_popped (t ∷ d ∷ c ∷ b ∷ a ∷ e ∷ vs) w hs v u h q k = absurd (omega arith)

  -- `script_create` with no script file, from an empty stack: if it returns, the stack is empty
  -- again, and what it did last is to assign, in the table that it found in `wrk.headers`, the value
  -- of each header of the form "name: value" to its name, in the order of the options; headers of any
  -- other form are passed over.
  pub script_create-headers :
      (url : List ℕ) (parts : UrlParts) (hs : List Header) (s s' : LuaState l)
      → s.stack ≡ []
      → script_create none url parts (map written hs) s ≡ some s'
      → (t : Value l.N) × (p : LuaState l) × (prepare url parts s ≡ some p)
        × (get_elem? p.stack 0 ≡ some t)
        × (assign t (map pair_of hs) p.world ≡ some s'.world)
        × (s'.stack ≡ [])
  unfolding script_create load
  script_create-headers url parts hs s s' e h =
      let (u, f, g) =
        >>=-eq-some (prepare url parts s >>= set_headers (map written hs) >>= lua_pop 5) (load none)
          h in
      let (v, f', g') =
        >>=-eq-some (prepare url parts s >>= set_headers (map written hs)) (lua_pop 5) f in
      let (p, q, k) = >>=-eq-some (prepare url parts s) (set_headers (map written hs)) f' in
      let (t, w, m, n) =
        headers_popped p.stack p.world hs v u (prepare-length url parts s p q e) k g' in
      let same = some_value g in
      (
        t,
        p,
        q,
        w,
        m ∙ ap (λ (x : LuaState l). some x.world) same,
        ap (λ (x : LuaState l). x.stack) (sym same) ∙ n,
      )
