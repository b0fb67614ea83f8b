-- ===== src/Start/Balanced.antt =====
-- The Lua states when the threads run (wrk.c `main`).
use wrkx.Prelude.{ℕ, suc, ◌≡◌, ◌≢◌, false, some, List, [], ◌∷◌, length, ◌⊎◌}
use wrkx.Lua.Api.{Lua, LuaState}
use wrkx.Script.Calls.{script_resolve, script_request}
use wrkx.Script.Verify.{Parsing, Verdict, accepted, refused}
use wrkx.Start.Setup.{Outcome, running, unresolved, bad_request}

abbrev pub AllEmpty : {l : Lua} → List (LuaState l) → Type 0
AllEmpty [] = Unit {0}
AllEmpty (s ∷ ss) = (s.stack ≡ []) × AllEmpty ss

-- The host was looked up and not found.
pub record NotFound (l : Lua) : Type 0 where
  pub name : List ℕ
  pub service : List ℕ
  pub state : LuaState l
  pub left : LuaState l
  pub resolved : script_resolve name service state ≡ some (false, left)

-- A request was made that the parser does not read to its end, or in which it finds no message.
pub record NotParsed (l : Lua) (parse : List ℕ → Parsing) : Type 0 where
  pub state : LuaState l
  pub left : LuaState l
  pub request : List ℕ
  pub made : script_request state ≡ some (request, left)
  pub wrong : ((parse request).parsed ≢ length request) ⊎ ((parse request).count ≡ 0)

module _ {l : Lua} where
  -- what the state of an accepted request is like, or why a request is refused
  abbrev Sound : (List ℕ → Parsing) → Verdict l → Type 0
  Sound parse (accepted n s) = (n ≢ 0) × (s.stack ≡ [])
  Sound parse (refused message line column) = NotParsed l parse

  -- what the program goes on with, or why it exits
  abbrev pub Ready : (List ℕ → Parsing) → ℕ → Outcome l → Type 0
  Ready parse n (running plan main owns) =
      (main.stack ≡ []) × AllEmpty owns × (length owns ≡ suc n) × (plan.pipeline ≢ 0)
  Ready parse n unresolved = NotFound l
  Ready parse n (bad_request message line column) = NotParsed l parse
