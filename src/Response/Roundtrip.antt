-- ===== src/Response/Roundtrip.antt =====
-- From the parser's callbacks to the arguments of the script's `response` (wrk.c, script.c).
use wrkx.Prelude.{
  ℕ, ◌+◌, ◌<◌, ◌≡◌, refl, ap, sym, ◌∙◌, inl, some, none, Option, List, [], ◌∷◌, ◌++◌, map, length,
  length-append, drop, take-append-drop, u64_mod, ◌>>=◌, arith,
}
use wrkx.Buffer.Defs.{Realloc, Buffer, bytes, bytes_of, put_nul, buffer_reset}
use wrkx.Response.Defs.{
  Response, field, ScriptCall, on_body, callbacks, read_headers, script_response, deliver,
}
use wrkx.Response.Steps.{
  Holds, HasRoom, cursor-Holds, put_nul-Holds, flatten, Header, callbacks-append,
}
use wrkx.Response.Encoding.{headers_calls, encode_all, sent, NulFreeAll, read_headers_lem}
use wrkx.Response.Calls.{headers-calls, body-calls}

-- Both buffers are valid and empty, as after `zcalloc` and after every call of the script.
pub record IsClean (r : Response) : Type 0 where
  pub state : r.state ≡ field
  pub headers : Holds r.headers []
  pub body : Holds r.body []

-- The block of a buffer that holds a text is the text and what lies behind it.
block-Holds : (b : Buffer) (t : List ℕ) → Holds b t → bytes b ≡ t ++ drop b.cursor (bytes b)
block-Holds b t h =
    sym (take-append-drop b.cursor (bytes b)) ∙ ap (λ u. u ++ drop b.cursor (bytes b)) h.text

block_of_nonempty :
    (block : Option (List ℕ)) → 0 < length (bytes_of block) → block ≡ some (bytes_of block)
block_of_nonempty none h = elim h [ ]
block_of_nonempty (some bs) h = refl

reset-Holds : (b : Buffer) (t : List ℕ) → Holds b t → Holds (buffer_reset b) []
unfolding buffer_reset
reset-Holds b t h = record {
  valid = record { sized = h.valid.sized; within = omega arith };
  text = refl;
}

-- What a delivery leaves: clean buffers, the headers' text still at the start of its block.
pub record Delivered (text : List ℕ) (r : Response) : Type 0 where
  pub clean : IsClean r
  pub behind : List ℕ
  pub block : r.headers.block ≡ some (text ++ behind)

script_response_lem :
    (status : ℕ) (hs : List Header) (b c : Buffer) (d : List ℕ)
    → Holds b (encode_all hs)
    → Holds c d
    → NulFreeAll hs
    → script_response status b c
      ≡ some (
        record { status = status; headers = map sent hs; body = d },
        buffer_reset b,
        buffer_reset c,
      )
unfolding script_response
script_response_lem status hs b c d w k f =
    let n = cursor-Holds b (encode_all hs) w in
    let reads : read_headers b.cursor (record { offset = 0; ahead = bytes b }) b.cursor
        ≡ some (map sent hs) =
      rw (block-Holds b (encode_all hs) w)
        (read_headers_lem hs b.cursor 0 b.cursor _ f (omega (arith, n)) (omega (arith, n))) in
    rw (reads, k.text)

pub deliver-some :
    (status : ℕ) (r : Response) (bs : List ℕ) (b : Buffer) (call : ScriptCall) (h d : Buffer)
    → r.headers.block ≡ some bs
    → put_nul r.headers ≡ some b
    → script_response status b r.body ≡ some (call, h, d)
    → deliver status r ≡ some (some call, record { state = field; headers = h; body = d })
unfolding deliver
deliver-some status r bs b call h d e p s = ground arith

deliver_lem :
    (status : ℕ) (hs : List Header) (r : Response) (u d : List ℕ)
    → HasRoom r.headers u
    → encode_all hs ≡ u ++ (0 ∷ [])
    → Holds r.body d
    → NulFreeAll hs
    → (r' : Response) × (deliver status r
        ≡ some (some (record { status = status; headers = map sent hs; body = d }), r'))
      × Delivered (encode_all hs) r'
unfolding buffer_reset
deliver_lem status hs r u d h q k f =
    let e = block_of_nonempty r.headers.block (omega (arith, h.room, h.holds.valid.sized)) in
    let (b, p, w) = put_nul-Holds r.headers u h in
    let w' : Holds b (encode_all hs) = rw q w in
    let filled = block_of_nonempty b.block (
      omega (arith, w.valid.sized, w.valid.within, cursor-Holds b _ w, length-append u (0 ∷ []))) in
    (
      record { state = field; headers = buffer_reset b; body = buffer_reset r.body },
      deliver-some status r _ b _ _ _ e p (script_response_lem status hs b r.body d w' k f),
      record {
        clean = record {
          state = refl;
          headers = reset-Holds b _ w';
          body = reset-Holds r.body d k;
        };
        behind = drop b.cursor (bytes b);
        block = filled ∙ ap some (block-Holds b _ w');
      },
    )

-- For every response with at least one header, cut into callbacks at any places, the script's
-- `response` is called with exactly the status, the headers in the order in which they came and
-- the body; no access is out of bounds, every loop ends, and the buffers are left clean. Names and
-- values hold no NUL byte, the buffers were clean, and the sizes stay below 2 ^ 64.
pub script-gets-response :
    (libc : Realloc) (status : ℕ) (h : Header) (hs : List Header) (bs : List (List ℕ))
    (r : Response)
    → IsClean r
    → NulFreeAll (h ∷ hs)
    → length (encode_all (h ∷ hs)) + 1026 < u64_mod
    → length (flatten bs) + 1026 < u64_mod
    → (r' : Response) × ((callbacks libc r (headers_calls (h ∷ hs) ++ map on_body bs)
          >>= deliver status)
        ≡ some
            (some (record { status = status; headers = map sent (h ∷ hs); body = flatten bs }), r'))
      × Delivered (encode_all (h ∷ hs)) r'
script-gets-response libc status h hs bs r c f o o' =
    let (r₁, e₁, d₁, u, a, q) =
      headers-calls libc hs h r [] (inl (c.state, c.headers)) (omega arith) in
    let (b, e₂, k) = body-calls libc bs r₁ [] (rw d₁ c.body) (omega arith) in
    let (r₂, e₃, v) =
      deliver_lem status (h ∷ hs) (record r₁ { body = b }) u (flatten bs) a.1 q k f in
    (r₂, rw (callbacks-append libc (headers_calls (h ∷ hs)) (map on_body bs) r, e₁, e₂) e₃, v)
