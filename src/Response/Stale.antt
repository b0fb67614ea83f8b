-- ===== src/Response/Stale.antt =====
-- A response without headers after one with headers (wrk.c: `response_complete`, script.c:
-- `script_response`). The lone NUL that `response_complete` writes is one string of a pair; for the
-- other one `script_response` reads on behind the cursor.
use wrkx.Prelude.{
  ℕ, ◌+◌, ◌<◌, ◌≡◌, refl, ap, ◌∙◌, some, List, [], ◌∷◌, ◌++◌, map, append_assoc, length, u64_mod,
  ◌>>=◌, arith,
}
use wrkx.Buffer.Defs.{Realloc, Buffer, put_nul, memcpy, buffer_pushlstring, buffer_reset}
use wrkx.Buffer.Room.{contents}
use wrkx.Buffer.Strings.{NulFree, c_string_lem}
use wrkx.Response.Defs.{Response, on_body, callbacks, read_headers, script_response, deliver}
use wrkx.Response.Steps.{cursor-Holds, flatten, joined, Header}
use wrkx.Response.Encoding.{encode_all}
use wrkx.Response.Calls.{body-calls}
use wrkx.Response.Roundtrip.{Delivered, deliver-some}

-- One pair is read from a block that starts with the NUL.
read_stale :
    (s rest : List ℕ)
    → NulFree s
    → read_headers 1 (record { offset = 0; ahead = 0 ∷ (s ++ (0 ∷ rest)) }) 1 ≡ some (([], s) ∷ [])
unfolding read_headers buffer_pushlstring
read_stale s rest f = rw (c_string_lem s rest f) (ground arith)

stale_block :
    (r : Response) (n : ℕ) (s rest : List ℕ)
    → r.headers.block ≡ some (n ∷ (s ++ (0 ∷ rest)))
    → r.headers.cursor ≡ 0
    → put_nul r.headers
      ≡ some (record r.headers { block = some (0 ∷ (s ++ (0 ∷ rest))); cursor = 1 })
unfolding put_nul memcpy
stale_block r n s rest e z = ground arith

script_response-stale :
    (status : ℕ) (h d : Buffer) (s rest : List ℕ)
    → NulFree s
    → h.block ≡ some (0 ∷ (s ++ (0 ∷ rest)))
    → h.cursor ≡ 1
    → script_response status h d
      ≡ some (
        record { status = status; headers = ([], s) ∷ []; body = contents d },
        buffer_reset h,
        buffer_reset d,
      )
unfolding script_response
script_response-stale status h d s rest f e z = rw (z, e, read_stale s rest f)

deliver-stale :
    (status n : ℕ) (r : Response) (s rest : List ℕ)
    → NulFree s
    → r.headers.block ≡ some (n ∷ (s ++ (0 ∷ rest)))
    → r.headers.cursor ≡ 0
    → (r' : Response) × (deliver status r
        ≡ some
            (some (record { status = status; headers = ([], s) ∷ []; body = contents r.body }), r'))
deliver-stale status n r s rest f e z = (
  _,
  deliver-some status r _ _ _ _ _ e (stale_block r n s rest e z)
      (script_response-stale status _ r.body s rest f refl refl),
)

-- The text of headers of which the first has the name `n ∷ s` begins with that name and a NUL.
encode_all-name :
    (h : Header) (hs : List Header) (n : ℕ) (s behind : List ℕ)
    → joined h.name ≡ n ∷ s
    → encode_all (h ∷ hs) ++ behind
      ≡ n ∷ (s ++ (0 ∷ (joined h.val ++ (0 ∷ (encode_all hs ++ behind)))))
encode_all-name h hs n s behind e = rw e (simp append_assoc)

-- A response with no header at all, after one whose first header had the name `n ∷ s`: the script's
-- `response` is called with one header that the server did not send, with an empty name and the
-- value `s`, the rest of the old name.
pub stale_header :
    (libc : Realloc) (status : ℕ) (h : Header) (hs : List Header) (n : ℕ) (s : List ℕ)
    (bs : List (List ℕ)) (r : Response)
    → Delivered (encode_all (h ∷ hs)) r
    → joined h.name ≡ n ∷ s
    → NulFree s
    → length (flatten bs) + 1026 < u64_mod
    → (r' : Response) × ((callbacks libc r (map on_body bs) >>= deliver status)
        ≡ some (some (record { status = status; headers = ([], s) ∷ []; body = flatten bs }), r'))
stale_header libc status h hs n s bs r v e f o =
    let (b, e₁, k) = body-calls libc bs r [] v.clean.body (omega arith) in
    let z : r.headers.cursor ≡ 0 = omega (arith, cursor-Holds r.headers [] v.clean.headers) in
    let (r', e₂) =
      deliver-stale status n (record r { body = b }) s _ f
        (v.block ∙ ap some (encode_all-name h hs n s v.behind e)) z in
    (r', rw (e₁, ← k.text) e₂)
