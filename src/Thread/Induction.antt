-- ===== src/Thread/Induction.antt =====
-- What every round of `socket_readable` keeps, the whole loop keeps (wrk.c).
use wrkx.Prelude.{
  ℕ, ◌≡◌, refl, ap, ◌∙◌, Bool, true, false, Option, some, List, [], ◌∷◌, ◌==◌, ◌&&◌, subst,
  >>=-eq-some, some_value,
}
use wrkx.Buffer.Defs.{Realloc}
use wrkx.Response.Defs.{Response, ScriptCall, callback}
use wrkx.Connection.State.{ok, error, retry, read_eof, Status}
use wrkx.Thread.State.{Platform, Config, State, with_conn}
use wrkx.Thread.Socket.{Connecting}
use wrkx.Thread.Completion.{
  Completing, ParserCall, on_callback, on_message_complete, Reading, response_complete, parser_call,
  parser_calls, read_failed, end_of_reading, Switch, goes_on, to_error, returns, switch_read,
  readable_loop, recvbuf, add_bytes,
}

-- Responses that complete one after the other: what holds of a response at the time that is reached,
-- the time behind it, and which times may pass in between.
pub record Pace : Type 1 where
  pub Ok : ℕ → Completing → Type 0
  pub next : ℕ → Completing → ℕ
  pub Le : ℕ → ℕ → Type 0
  pub Le-next : (t : ℕ) (m : Completing) → Ok t m → Le t (next t m)
  pub Le-trans : (t u v : ℕ) → Le t u → Le u v → Le t v

module _ (q : Pace) where
  abbrev pub CallsFrom : ℕ → List ParserCall → ℕ → Type 0
  CallsFrom t [] t' = q.Le t t'
  CallsFrom t (on_callback e ∷ es) t' = CallsFrom t es t'
  CallsFrom t (on_message_complete m ∷ es) t' = q.Ok t m × CallsFrom (q.next t m) es t'

  abbrev pub ReadingsFrom : ℕ → List Reading → ℕ → Type 0
  ReadingsFrom t [] t' = q.Le t t'
  ReadingsFrom t (r ∷ rs) t' = (u : ℕ) × CallsFrom t r.calls u × ReadingsFrom u rs t'

  CallsFrom-Le : (t t' : ℕ) (es : List ParserCall) → CallsFrom t es t' → q.Le t t'
  CallsFrom-Le t t' [] h = h
  CallsFrom-Le t t' (on_callback e ∷ es) h = CallsFrom-Le t t' es h
  CallsFrom-Le t t' (on_message_complete m ∷ es) (o, h) =
      q.Le-trans t (q.next t m) t' (q.Le-next t m o) (CallsFrom-Le (q.next t m) t' es h)

  ReadingsFrom-Le : (t t' : ℕ) (rs : List Reading) → ReadingsFrom t rs t' → q.Le t t'
  ReadingsFrom-Le t t' [] h = h
  ReadingsFrom-Le t t' (r ∷ rs) (u, c, h) =
      q.Le-trans t u t' (CallsFrom-Le t u r.calls c) (ReadingsFrom-Le u t' rs h)

module _ (p : Platform) (libc : Realloc) (cfg : Config) (a : Connecting) (q : Pace)
    (P : ℕ → State p → Type 0) where
  -- what a handler does as time passes, between two responses, at a response and at an error
  pub record Keeps : Type 0 where
    pub later : (t t' : ℕ) (s : State p) → q.Le t t' → P t s → P t' s
    pub response :
        (t : ℕ) (s : State p) (r : Response)
        → P t s
        → P t (with_conn s (record s.conn { response = r }))
    pub complete :
        (t : ℕ) (m : Completing) (s s' : State p) (call : Option ScriptCall)
        → q.Ok t m
        → P t s
        → response_complete p cfg m s ≡ some (call, s')
        → P (q.next t m) s'
    pub failed : (t : ℕ) (s : State p) → P t s → P t (read_failed p libc cfg a s)
    pub bytes : (t n : ℕ) (s : State p) → P t s → P t (add_bytes p libc cfg n s)

  parser_calls-Keeps :
      (es : List ParserCall) (t t' : ℕ) (s s' : State p)
      → Keeps
      → CallsFrom q t es t'
      → P t s
      → parser_calls p libc cfg es s ≡ some s'
      → P t' s'
  unfolding parser_calls parser_call
  parser_calls-Keeps [] t t' s s' k h v e = subst (P t') (some_value e) (k.later t t' s h v)
  parser_calls-Keeps (on_callback c ∷ es) t t' s s' k h v e =
      let (s₁, d, j) =
        >>=-eq-some (parser_call p libc cfg (on_callback c) s) (parser_calls p libc cfg es) e in
      let (r, d', j') = >>=-eq-some (callback libc s.conn.response c) _ d in
      parser_calls-Keeps es t t' s₁ s' k h (subst (P t) (some_value j') (k.response t s r v)) j
  parser_calls-Keeps (on_message_complete m ∷ es) t t' s s' k (o, h) v e =
      let (s₁, d, j) =
        >>=-eq-some (parser_call p libc cfg (on_message_complete m) s) (parser_calls p libc cfg es)
          e in
      let (x, d', j') = >>=-eq-some (response_complete p cfg m s) _ d in
      parser_calls-Keeps es (q.next t m) t' s₁ s' k h
        (k.complete t m s s₁ x.0 o v (d' ∙ ap (λ v. some (x.0, v)) (some_value j'))) j

  end_of_reading-Keeps :
      (st : Status) (t : ℕ) (s : State p) → Keeps → P t s → P t (end_of_reading p libc cfg a st s)
  unfolding end_of_reading
  end_of_reading-Keeps read_eof t s k v = k.failed t s v
  end_of_reading-Keeps ok t s k v = v
  end_of_reading-Keeps error t s k v = v
  end_of_reading-Keeps retry t s k v = v

  -- the rest of a round, once the parser has run: to the label `error`, on, or to the end
  after_parser :
      (r : Reading) (rs : List Reading) (t t' : ℕ) (s s' : State p)
      → Keeps
      → q.Le t t'
      → P t s
      → (readable_loop p libc cfg a rs (add_bytes p libc cfg r.count s) ≡ some s' → P t' s')
      → (parsed more : Bool)
      → elim parsed as (λ _. Option (State p)) [
        | false ↦ some (read_failed p libc cfg a s)
        | true ↦ elim more as (λ _. Option (State p)) [
          | true ↦ readable_loop p libc cfg a rs (add_bytes p libc cfg r.count s)
          | false ↦ some (end_of_reading p libc cfg a r.status (add_bytes p libc cfg r.count s))
        ]
      ]
        ≡ some s'
      → P t' s'
  after_parser r rs t t' s s' k f v again false more e =
      subst (P t') (some_value e) (k.later t t' _ f (k.failed t s v))
  after_parser r rs t t' s s' k f v again true true e = again e
  after_parser r rs t t' s s' k f v again true false e =
      subst (P t') (some_value e)
        (k.later t t' _ f (end_of_reading-Keeps r.status t _ k (k.bytes t r.count s v)))

  -- one round; `again` is what the later rounds keep
  read_round :
      (r : Reading) (rs : List Reading) (t u t' : ℕ) (s s' : State p)
      → Keeps
      → CallsFrom q t r.calls u
      → ReadingsFrom q u rs t'
      → P t s
      → ((s₁ : State p) → P u s₁ → readable_loop p libc cfg a rs s₁ ≡ some s' → P t' s')
      → readable_loop p libc cfg a (r ∷ rs) s ≡ some s'
      → (w : Switch) → switch_read r.status ≡ w
      → P t' s'
  unfolding readable_loop
  read_round r rs t u t' s s' k c h v again e returns z =
      subst (P t') (some_value (rw (z, readable_loop) at e))
        (k.later t t' s (ReadingsFrom-Le q t t' (r ∷ rs) (u, c, h)) v)
  read_round r rs t u t' s s' k c h v again e to_error z =
      subst (P t') (some_value (rw (z, readable_loop) at e))
        (k.later t t' _ (ReadingsFrom-Le q t t' (r ∷ rs) (u, c, h)) (k.failed t s v))
  read_round r rs t u t' s s' k c h v again e goes_on z =
      let (s₁, d, j) =
        >>=-eq-some (parser_calls p libc cfg r.calls s) _ (rw (z, readable_loop) at e) in
      let v₁ = parser_calls-Keeps r.calls t u s s₁ k c v d in
      after_parser r rs u t' s₁ s' k (ReadingsFrom-Le q u t' rs h) v₁
        (again (add_bytes p libc cfg r.count s₁) (k.bytes u r.count s₁ v₁)) (r.parsed == r.count)
        ((r.count == recvbuf) && r.more) j

  pub readable_loop-Keeps :
      (rs : List Reading) (t t' : ℕ) (s s' : State p)
      → Keeps
      → ReadingsFrom q t rs t'
      → P t s
      → readable_loop p libc cfg a rs s ≡ some s'
      → P t' s'
  unfolding readable_loop
  readable_loop-Keeps [] t t' s s' k h v e = cc
  readable_loop-Keeps (r ∷ rs) t t' s s' k (u, c, h) v e =
      read_round r rs t u t' s s' k c h v (λ s₁ v₁. readable_loop-Keeps rs u t' s₁ s' k h v₁) e
        (switch_read r.status) refl
