-- ===== src/Response/Defs.antt =====
-- wrk.c: `header_field`, `header_value`, `response_body` and the part of `response_complete` that
-- calls the script; script.c: `script_response`.
use wrkx.Prelude.{ℕ, zero, suc, true, false, Option, none, some, List, [], ◌∷◌, ltb, ◌>>=◌, take}
use wrkx.Buffer.Defs.{
  Realloc, Buffer, bytes, put_nul, buffer_append, buffer_reset, Pointer, buffer_pushlstring,
}

-- the enum of `connection.state`
pub data HeaderState : Type 0 where
  field value : HeaderState

-- the members of `connection` that hold a response
pub record Response : Type 0 where
  pub state : HeaderState
  pub headers : Buffer
  pub body : Buffer

-- the arguments of the call of the script's `response`: the status, the assignments that fill the
-- table of headers, in order, and the body
pub record ScriptCall : Type 0 where
  pub status : ℕ
  pub headers : List (List ℕ × List ℕ)
  pub body : List ℕ

-- a call by the HTTP parser, with the bytes `at[0 .. len)`
pub data Callback : Type 0 where
  on_header_field on_header_value on_body : List ℕ → Callback

-- The loop of `script_response`: a name and a value from `c` on, while `c < headers->cursor`.
-- Each round moves `c`, so `cursor` rounds are enough.
unfoldable pub read_headers : ℕ → Pointer → ℕ → Option (List (List ℕ × List ℕ))
read_headers zero c cursor = elim (ltb c.offset cursor) [ true ↦ none | false ↦ some [] ]
read_headers (suc fuel) c cursor = elim (ltb c.offset cursor) [
  | true ↦ buffer_pushlstring c >>= λ (k, c'). buffer_pushlstring c' >>= λ (v, c'').
      read_headers fuel c'' cursor >>= λ more. some ((k, v) ∷ more)
  | false ↦ some []
]

-- `script_response`: the call of the script, and both buffers reset.
unfoldable pub script_response : ℕ → Buffer → Buffer → Option (ScriptCall × Buffer × Buffer)
script_response status headers body =
    read_headers headers.cursor (record { offset = 0; ahead = bytes headers }) headers.cursor
    >>= λ hs. some (
      record { status = status; headers = hs; body = take body.cursor (bytes body) },
      buffer_reset headers,
      buffer_reset body,
    )

-- `if (c->state == s) { *c->headers.cursor++ = '\0'; c->state = ...; }`
unfoldable pub end_of_value : HeaderState → Buffer → Option Buffer
unfolding put_nul
end_of_value value b = put_nul b
end_of_value field b = some b

unfoldable pub end_of_field : HeaderState → Buffer → Option Buffer
unfolding put_nul
end_of_field field b = put_nul b
end_of_field value b = some b

module _ (libc : Realloc) where
  unfoldable pub header_field : Response → List ℕ → Option Response
  unfolding end_of_value buffer_append
  header_field r at = end_of_value r.state r.headers >>= λ b.
      buffer_append libc b at >>= λ b'. some (record r { state = field; headers = b' })

  unfoldable pub header_value : Response → List ℕ → Option Response
  unfolding end_of_field buffer_append
  header_value r at = end_of_field r.state r.headers >>= λ b.
      buffer_append libc b at >>= λ b'. some (record r { state = value; headers = b' })

  unfoldable pub response_body : Response → List ℕ → Option Response
  unfolding buffer_append
  response_body r at = buffer_append libc r.body at >>= λ b'. some (record r { body = b' })

  unfoldable pub callback : Response → Callback → Option Response
  unfolding header_field header_value response_body
  callback r (on_header_field at) = header_field r at
  callback r (on_header_value at) = header_value r at
  callback r (on_body at) = response_body r at

  -- the parser's calls in order
  unfoldable pub callbacks : Response → List Callback → Option Response
  unfolding callback
  callbacks r [] = some r
  callbacks r (e ∷ es) = callback r e >>= λ r'. callbacks r' es

-- `if (c->headers.buffer) { ... }` of `response_complete`: with no block there is no call.
unfoldable pub deliver : ℕ → Response → Option (Option ScriptCall × Response)
deliver status r = elim r.headers.block [
  | none ↦ some (none, r)
  | some _ ↦ put_nul r.headers >>= λ b. script_response status b r.body >>= λ (call, h, d).
      some (some call, record { state = field; headers = h; body = d })
]
