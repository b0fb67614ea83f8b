-- ===== src/Script/Verify.antt =====
-- script.c: `verify_request` and `script_verify_request`. The HTTP parser is another library: how
-- far it reads a request, how many messages it completes and its error are an argument.
use wrkx.Prelude.{
  ℕ, ◌+◌, ◌≡◌, ◌≢◌, refl, ap, ◌∙◌, true, false, Option, none, some, List, [], ◌∷◌, ◌++◌, take,
  length, ◌==◌, ◌||◌, not, ◌>>=◌, if◌then◌else◌, codes, arith, ◌⊎◌, inl, inr, ==_iff, take-append,
  length-append, Bool-cases,
}
use wrkx.Lua.Api.{Lua, LuaState}
use wrkx.Script.Calls.{script_request}

-- what the parser makes of a request: `verify_request` counts the messages
pub record Parsing : Type 0 where
  pub parsed : ℕ
  pub count : ℕ
  -- the description of an error other than HPE_OK
  pub error : Option (List ℕ)

-- `script_verify_request` returns a count, or prints a message and a position and exits
pub data Verdict (l : Lua) : Type 0 where
  accepted : ℕ → LuaState l → Verdict l
  refused : List ℕ → ℕ → ℕ → Verdict l

-- the loop over what was parsed
unfoldable pub position : List ℕ → ℕ → ℕ → ℕ × ℕ
position [] line column = (line, column)
position (c ∷ text) line column =
    if c == 10 then position text (line + 1) 1 else position text line (column + 1)

unfoldable pub message : Option (List ℕ) → List ℕ
message (some description) = description
message none = codes "incomplete request"

module _ {l : Lua} where
  unfoldable pub verify : Parsing → List ℕ → LuaState l → Verdict l
  unfolding position message
  verify p request s =
      if not (p.parsed == length request) || (p.count == 0)
      then (let (line, column) = position (take p.parsed request) 1 1 in
          refused (message p.error) line column)
      else accepted p.count s

  unfoldable pub script_verify_request : (List ℕ → Parsing) → LuaState l → Option (Verdict l)
  unfolding verify
  script_verify_request parse s =
      script_request s >>= λ (request, s'). some (verify (parse request) request s')

abbrev pub NoNewline : List ℕ → Type 0
NoNewline [] = Unit {0}
NoNewline (c ∷ text) = ((c == 10) ≡ false) × NoNewline text

-- lines, each ended, and the start of one more
abbrev pub unlines : List (List ℕ) → List ℕ → List ℕ
unlines [] last = last
unlines (line ∷ lines) last = line ++ (10 ∷ unlines lines last)

abbrev pub NoNewlines : List (List ℕ) → Type 0
NoNewlines [] = Unit {0}
NoNewlines (line ∷ lines) = NoNewline line × NoNewlines lines

position_last :
    (text : List ℕ) (line column : ℕ)
    → NoNewline text
    → position text line column ≡ (line, column + length text)
unfolding position
position_last [] line column h = ap (λ k. (line, k)) (omega arith)
position_last (c ∷ text) line column (e, h) =
    rw e (position_last text line (column + 1) h ∙ ap (λ k. (line, k)) (omega arith))

position_line :
    (text rest : List ℕ) (line column : ℕ)
    → NoNewline text
    → position (text ++ (10 ∷ rest)) line column ≡ position rest (line + 1) 1
unfolding position
position_line [] rest line column h = refl
position_line (c ∷ text) rest line column (e, h) =
    rw e (position_line text rest line (column + 1) h)

position_lem :
    (lines : List (List ℕ)) (last : List ℕ) (line : ℕ)
    → NoNewlines lines
    → NoNewline last
    → position (unlines lines last) line 1 ≡ (line + length lines, 1 + length last)
position_lem [] last line h k =
    position_last last line 1 k ∙ ap (λ n. (n, 1 + length last)) (omega arith)
position_lem (text ∷ lines) last line (h, hs) k =
    position_line text (unlines lines last) line 1 h
    ∙ position_lem lines last (line + 1) hs k
    ∙ ap (λ n. (n, 1 + length last)) (omega arith)

module _ {l : Lua} where
  verify_refused :
      (q : Parsing) (s : LuaState l) (rest last : List ℕ) (lines : List (List ℕ))
      → NoNewlines lines
      → NoNewline last
      → q.parsed ≡ length (unlines lines last)
      → (not (q.parsed == length (unlines lines last ++ rest)) || (q.count == 0)) ≡ true
      → verify q (unlines lines last ++ rest) s
        ≡ refused (message q.error) (1 + length lines) (1 + length last)
  unfolding verify
  verify_refused q s rest last lines h k p t =
      let read : take q.parsed (unlines lines last ++ rest) ≡ unlines lines last =
        ap (λ n. take n (unlines lines last ++ rest)) p ∙ take-append (unlines lines last) rest in
      rw (t, read, position_lem lines last 1 h k) refl

  verify_lem :
      (q : Parsing) (s : LuaState l) (rest last : List ℕ) (lines : List (List ℕ))
      → NoNewlines lines
      → NoNewline last
      → q.parsed ≡ length (unlines lines last)
      → ((rest ≡ [])
          × (q.count ≢ 0)
          × (verify q (unlines lines last ++ rest) s ≡ accepted q.count s))
        ⊎ (((rest ≢ []) ⊎ (q.count ≡ 0))
            × (verify q (unlines lines last ++ rest) s
                ≡ refused (message q.error) (1 + length lines) (1 + length last)))
  unfolding verify
  verify_lem q s (c ∷ rest) last lines h k p =
      let longer : (q.parsed == length (unlines lines last ++ c ∷ rest)) ≡ false =
        ground (arith, length-append {0} (unlines lines last) (c ∷ rest)) in
      inr (inl (λ w. cc), verify_refused q s (c ∷ rest) last lines h k p (ground arith))
  verify_lem q s [] last lines h k p =
      let all : (q.parsed == length (unlines lines last ++ [])) ≡ true =
        ground (arith, length-append {0} (unlines lines last) []) in
      elim (Bool-cases (q.count == 0)) [
        | inl z ↦
            inr
              (inr ((==_iff q.count 0).0 z), verify_refused q s [] last lines h k p (ground arith))
        | inr z ↦ inl (refl, (λ w. ground arith), rw (all, z) refl)
      ]

  -- A request that the parser reads to its end, completing messages, is accepted with their number.
  -- Otherwise the program stops with the parser's message, or "incomplete request", and the line and
  -- column just behind what was parsed, counted from 1: behind `lines` whole lines and the start
  -- `last` of one more. The script's request function is taken to return a request.
  pub script_verify_request-position :
      (parse : List ℕ → Parsing) (s s' : LuaState l) (rest last : List ℕ) (lines : List (List ℕ))
      → script_request s ≡ some (unlines lines last ++ rest, s')
      → NoNewlines lines
      → NoNewline last
      → (parse (unlines lines last ++ rest)).parsed ≡ length (unlines lines last)
      → let q = parse (unlines lines last ++ rest) in
        ((rest ≡ []) × (q.count ≢ 0) × (script_verify_request parse s ≡ some (accepted q.count s')))
        ⊎ (((rest ≢ []) ⊎ (q.count ≡ 0))
            × (script_verify_request parse s
                ≡ some (refused (message q.error) (1 + length lines) (1 + length last))))
  unfolding script_verify_request verify
  script_verify_request-position parse s s' rest last lines e h k p =
      rw e (elim (verify_lem (parse (unlines lines last ++ rest)) s' rest last lines h k p) [
        | inl (a, b, c) ↦ inl (a, b, ap some c)
        | inr (a, c) ↦ inr (a, ap some c)
      ])
