-- ===== src/Script/Life.antt =====
-- The life of a Lua state in the program (script.c, and wrk.c `main`): the calls that are made on it.
use wrkx.Prelude.{
  ℕ, ◌≡◌, refl, ap, sym, ◌∙◌, true, false, Option, none, some, List, [], ◌∷◌, ◌>>=◌, codes,
  >>=-eq-some, some_value, map,
}
use wrkx.Response.Defs.{ScriptCall}
use wrkx.Connection.State.{Errors}
use wrkx.Lua.Api.{Lua, LuaState, Value, is_function, lua_pop, lua_l_dofile}
use wrkx.Script.Fields.{UrlParts, set_fields, push_field}
use wrkx.Script.Create.{script_create, load, set_headers}
use wrkx.Script.Headers.{Header, written, prepare, script_create-headers}
use wrkx.Script.Calls.{
  script_resolve, script_request, script_is_function, set_thread, call_setup, call_init,
  call_response, finish, report, script_has_done, script_summary,
}
use wrkx.Script.Balance.{
  script_resolve-stack, script_request-stack, script_is_function-stack, set_thread-stack,
  call_setup-stack, call_init-stack, call_response-stack, finish-stack,
}

-- a call by the C program
pub data Call : Type 0 where
  resolve : (host service : List ℕ) → Call
  request : Call
  -- `script_is_static`, `script_want_response`, `script_has_done`
  has_function : (name : List ℕ) → Call
  response : ScriptCall → Call
  setup : (thread : ℕ) → Call
  init : (thread : ℕ) (args : List (List ℕ)) → Call
  ending : (runtime complete bytes : ℕ) (e : Errors) (latency requests : ℕ) → Call

module _ {l : Lua} where
  unfoldable pub run_call : Call → LuaState l → Option (LuaState l)
  run_call (resolve host service) s = script_resolve host service s >>= λ (b, s'). some s'
  run_call request s = script_request s >>= λ (b, s'). some s'
  run_call (has_function name) s = script_is_function name s >>= λ (b, s'). some s'
  run_call (response c) s = call_response c s
  run_call (setup t) s = call_setup t s
  run_call (init t args) s = set_thread t s >>= call_init args
  run_call (ending r c b e i j) s = finish r c b e i j s

  unfoldable pub run_calls : List Call → LuaState l → Option (LuaState l)
  unfolding run_call
  run_calls [] s = some s
  run_calls (c ∷ cs) s = run_call c s >>= λ s'. run_calls cs s'

  run_call-stack :
      (c : Call) (s s' : LuaState l) → run_call c s ≡ some s' → s.stack ≡ [] → s'.stack ≡ []
  unfolding run_call
  run_call-stack (resolve host service) s s' h e =
      let ((b, t), f, g) = >>=-eq-some (script_resolve host service s) _ h in
      ap (λ (x : LuaState l). x.stack) (sym (some_value g))
      ∙ script_resolve-stack host service b s t f
      ∙ e
  run_call-stack request s s' h e =
      let ((b, t), f, g) = >>=-eq-some (script_request s) _ h in
      ap (λ (x : LuaState l). x.stack) (sym (some_value g)) ∙ script_request-stack b s t f ∙ e
  run_call-stack (has_function name) s s' h e =
      let ((b, t), f, g) = >>=-eq-some (script_is_function name s) _ h in
      ap (λ (x : LuaState l). x.stack) (sym (some_value g))
      ∙ script_is_function-stack name b s t f
      ∙ e
  run_call-stack (response c) s s' h e = call_response-stack c s s' h ∙ e
  run_call-stack (setup t) s s' h e = call_setup-stack t s s' h ∙ e
  run_call-stack (init t args) s s' h e =
      let (u, f, g) = >>=-eq-some (set_thread t s) (call_init args) h in
      call_init-stack args u s' g ∙ set_thread-stack t s u f ∙ e
  run_call-stack (ending r c b x i j) s s' h e = finish-stack r c b x i j s s' e h

  run_calls_empty :
      (cs : List Call) (s s' : LuaState l) → s.stack ≡ [] → run_calls cs s ≡ some s' → s'.stack ≡ []
  unfolding run_calls
  run_calls_empty [] s s' e h = ap (λ (x : LuaState l). x.stack) (sym (some_value h)) ∙ e
  run_calls_empty (c ∷ cs) s s' e h =
      let (t, f, g) = >>=-eq-some (run_call c s) _ h in
      run_calls_empty cs t s' (run_call-stack c s t f e) g

  -- A Lua state that `script_create` made without a script file, after any calls of the glue: if
  -- none of them raised an error, its stack is empty again, so that the absolute indices of
  -- `script_summary`, `script_errors` and `script_done` hit what they mean.
  pub run_calls-stack :
      (url : List ℕ) (parts : UrlParts) (hs : List Header) (cs : List Call) (new s s' : LuaState l)
      → new.stack ≡ []
      → script_create none url parts (map written hs) new ≡ some s
      → run_calls cs s ≡ some s'
      → s'.stack ≡ []
  run_calls-stack url parts hs cs new s s' e h k =
      let (_, _, _, _, _, empty) = script_create-headers l url parts hs new s e h in
      run_calls_empty cs s s' empty k

  misled :
      (r c b : ℕ) (e : Errors) (i j : ℕ) (v f : Value l.N) (w w' : l.W)
      → l.get_global w (codes "done") ≡ some (f, w')
      → is_function f ≡ true
      → ((u : l.W) (k x : Value l.N) → l.set u v k x ≡ none)
      → finish {l = l} r c b e i j (record { stack = v ∷ []; world = w }) ≡ none
  unfolding finish report script_has_done script_is_function script_summary set_fields push_field
  misled r c b e i j v f w w' g q n = rw (g, q, n) refl

  script_create-file :
      (file url : List ℕ) (parts : UrlParts) (headers : List (List ℕ)) (new s : LuaState l)
      → script_create none url parts headers new ≡ some s
      → script_create (some file) url parts headers new ≡ lua_l_dofile file s
  unfolding script_create load
  script_create-file file url parts headers new s h =
      let (u, f, g) =
        >>=-eq-some (prepare l url parts new >>= set_headers headers >>= lua_pop 5) (load none) h in
      ap (λ (o : Option (LuaState l)). o >>= load (some file)) f
      ∙ ap (lua_l_dofile file) (some_value g)

  -- A script file that ends by returning one value leaves it on the stack. If the script has a `done`
  -- function and no field can be set in that value (it is no table, say), the report at the end of
  -- the program raises an error: `script_summary` sets its fields in the value, not in its new table.
  pub finish-misled :
      (file url : List ℕ) (parts : UrlParts) (headers : List (List ℕ)) (new s : LuaState l)
      (r c b : ℕ) (e : Errors) (i j : ℕ) (v f : Value l.N) (w w' : l.W)
      → script_create none url parts headers new ≡ some s
      → s.stack ≡ []
      → l.run_file s.world file ≡ (false, v ∷ [], w)
      → l.get_global w (codes "done") ≡ some (f, w')
      → is_function f ≡ true
      → ((u : l.W) (k x : Value l.N) → l.set u v k x ≡ none)
      → (script_create (some file) url parts headers new >>= finish r c b e i j) ≡ none
  finish-misled file url parts headers new s r c b e i j v f w w' h z d g q n =
      rw (script_create-file file url parts headers new s h, d, z)
        (misled r c b e i j v f w w' g q n)
