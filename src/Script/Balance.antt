-- ===== src/Script/Balance.antt =====
-- The glue leaves the Lua stack as it found it (script.c).
use wrkx.Prelude.{
  ℕ, suc, ◌≡◌, ap, ◌∙◌, Bool, true, false, some, List, [], ◌∷◌, ◌>>=◌, arith, if◌then◌else◌, codes,
  >>=-eq-some, some_value, sym, drop, length,
}
use wrkx.Response.Defs.{ScriptCall}
use wrkx.Lua.Api.{
  lua_getglobal, Lua, LuaState, back, lua_pushstring, lua_rawseti, lua_getfield, lua_newtable,
  lua_call, lua_pop, lua_rawset, lua_pushinteger, of_thread,
}
use wrkx.Connection.State.{Errors}
use wrkx.Script.Fields.{set_fields, push_field}
use wrkx.Script.Calls.{
  script_resolve, script_push_thread, push_args, set_thread, call_setup, call_init, script_init,
  script_request, script_is_function, script_summary, script_errors, script_done, push_stats,
  raw_set_all, call_response, finish, report, script_has_done,
}

module _ {l : Lua} where
  script_push_thread-stack :
      (t : ℕ) (s s' : LuaState l)
      → script_push_thread t s ≡ some s'
      → s'.stack ≡ (l.new_userdata s.world (of_thread t)).0 ∷ s.stack
  unfolding script_push_thread
  script_push_thread-stack t s s' h = ground arith

  pub script_is_function-stack :
      (name : List ℕ) (b : Bool) (s s' : LuaState l)
      → script_is_function name s ≡ some (b, s')
      → s'.stack ≡ s.stack
  unfolding script_is_function
  script_is_function-stack name b s s' h = ground arith

  pub script_request-stack :
      (b : List ℕ) (s s' : LuaState l) → script_request s ≡ some (b, s') → s'.stack ≡ s.stack
  unfolding script_request
  script_request-stack b s s' h = ground arith

  pub script_resolve-stack :
      (host service : List ℕ) (b : Bool) (s s' : LuaState l)
      → script_resolve host service s ≡ some (b, s')
      → s'.stack ≡ s.stack
  unfolding script_resolve
  script_resolve-stack host service b s s' h = ground arith

  push_args-stack :
      (i : ℕ) (args : List (List ℕ)) (s s' : LuaState l)
      → push_args i args s ≡ some s'
      → s'.stack ≡ s.stack
  unfolding push_args
  push_args-stack i [] s s' h = ground arith
  push_args-stack i (arg ∷ args) s s' h =
      let (t, e, k) = >>=-eq-some (lua_pushstring arg s >>= lua_rawseti (back 2) i) _ h in
      let same : t.stack ≡ s.stack = ground arith in push_args-stack (suc i) args t s' k ∙ same

  pub set_thread-stack :
      (t : ℕ) (s s' : LuaState l) → set_thread t s ≡ some s' → drop 1 s'.stack ≡ s.stack
  unfolding set_thread script_push_thread
  set_thread-stack t s s' h = ground arith

  pub call_setup-stack : (t : ℕ) (s s' : LuaState l) → call_setup t s ≡ some s' → s'.stack ≡ s.stack
  unfolding call_setup script_push_thread
  call_setup-stack t s s' h = ground arith

  pub call_init-stack :
      (args : List (List ℕ)) (s s' : LuaState l)
      → call_init args s ≡ some s'
      → s'.stack ≡ drop 1 s.stack
  unfolding call_init
  call_init-stack args s s' h =
      let pushed = lua_getfield (back 1) (codes "init") s >>= lua_newtable in
      let (v, e, k) = >>=-eq-some (pushed >>= push_args 0 args >>= lua_call 1 0) (lua_pop 1) h in
      let (u, f, g) = >>=-eq-some (pushed >>= push_args 0 args) (lua_call 1 0) e in
      let (t, d, c) = >>=-eq-some pushed (push_args 0 args) f in
      let same = push_args-stack 0 args t u c in
      let new : drop 2 t.stack ≡ s.stack = ground arith in ground arith

  pub script_init-stack :
      (t : ℕ) (args : List (List ℕ)) (m o m' o' : LuaState l)
      → script_init t args (m, o) ≡ some (m', o')
      → (m'.stack ≡ m.stack) × (o'.stack ≡ o.stack)
  unfolding script_init
  script_init-stack t args m o m' o' h =
      let (o₁, e, k) = >>=-eq-some (set_thread t o) _ h in
      let (m₁, f, k') = >>=-eq-some (call_setup t m) _ k in
      let (o₂, g, k'') = >>=-eq-some (call_init args o₁) _ k' in
      (
        ap (λ (x : LuaState l × LuaState l). x.0.stack) (sym (some_value k''))
            ∙ call_setup-stack t m m₁ f,
        ap (λ (x : LuaState l × LuaState l). x.1.stack) (sym (some_value k''))
            ∙ call_init-stack args o₁ o₂ g
            ∙ set_thread-stack t o o₁ e,
      )

  script_summary-stack :
      (d r b : ℕ) (s s' : LuaState l)
      → script_summary d r b s ≡ some s'
      → s.stack ≡ []
      → s'.stack ≡ (l.new_table s.world).0 ∷ []
  unfolding script_summary set_fields push_field
  script_summary-stack d r b s s' h e = ground arith

  script_errors-stack :
      (x : Errors) (s s' : LuaState l)
      → script_errors x s ≡ some s'
      → length s.stack ≡ 1
      → s'.stack ≡ s.stack
  unfolding script_errors set_fields push_field
  script_errors-stack x s s' h e = ground arith

  script_done-stack :
      (a b : ℕ) (s s' : LuaState l)
      → script_done a b s ≡ some s'
      → length s.stack ≡ 1
      → s'.stack ≡ []
  unfolding script_done push_stats
  script_done-stack a b s s' h e = ground arith

  raw_set_all-stack :
      (hs : List (List ℕ × List ℕ)) (s s' : LuaState l)
      → raw_set_all hs s ≡ some s'
      → s'.stack ≡ s.stack
  unfolding raw_set_all
  raw_set_all-stack [] s s' h = ground arith
  raw_set_all-stack ((name, v) ∷ hs) s s' h =
      let (t, e, k) =
        >>=-eq-some (lua_pushstring name s >>= lua_pushstring v >>= lua_rawset (back 3)) _ h in
      let same : t.stack ≡ s.stack = ground arith in raw_set_all-stack hs t s' k ∙ same

  pub call_response-stack :
      (c : ScriptCall) (s s' : LuaState l) → call_response c s ≡ some s' → s'.stack ≡ s.stack
  unfolding call_response
  call_response-stack c s s' h =
      let pushed =
        lua_getglobal (codes "response") s >>= lua_pushinteger c.status >>= lua_newtable in
      let (v, e, k) =
        >>=-eq-some (pushed >>= raw_set_all c.headers >>= lua_pushstring c.body) (lua_call 3 0) h in
      let (u, f, g) = >>=-eq-some (pushed >>= raw_set_all c.headers) (lua_pushstring c.body) e in
      let (t, d, b) = >>=-eq-some pushed (raw_set_all c.headers) f in
      let same = raw_set_all-stack c.headers t u b in
      let new : drop 3 t.stack ≡ s.stack = ground arith in ground arith

  report-stack :
      (r c b : ℕ) (e : Errors) (i j : ℕ) (s s' : LuaState l)
      → s.stack ≡ []
      → report r c b e i j s ≡ some s'
      → s'.stack ≡ []
  unfolding report
  report-stack r c b e i j s s' z h =
      let (u, f, g) =
        >>=-eq-some (script_summary r c b s >>= script_errors e) (script_done i j) h in
      let (t, f', g') = >>=-eq-some (script_summary r c b s) (script_errors e) f in
      let one : length t.stack ≡ 1 = ap length (script_summary-stack r c b s t f' z) in
      script_done-stack i j u s' g (ap length (script_errors-stack e t u g' one) ∙ one)

  if_report :
      (has : Bool) (r c b : ℕ) (e : Errors) (i j : ℕ) (s s' : LuaState l)
      → s.stack ≡ []
      → (if has then report r c b e i j s else some s) ≡ some s'
      → s'.stack ≡ []
  if_report true r c b e i j s s' z h = report-stack r c b e i j s s' z h
  if_report false r c b e i j s s' z h = ap (λ (x : LuaState l). x.stack) (sym (some_value h)) ∙ z

  pub finish-stack :
      (r c b : ℕ) (e : Errors) (i j : ℕ) (s s' : LuaState l)
      → s.stack ≡ []
      → finish r c b e i j s ≡ some s'
      → s'.stack ≡ []
  unfolding finish script_has_done
  finish-stack r c b e i j s s' z h =
      let ((has, t), f, g) = >>=-eq-some (script_is_function (codes "done") s) _ h in
      if_report has r c b e i j t s' (script_is_function-stack (codes "done") has s t f ∙ z) g
