-- ===== src/Response/Encoding.antt =====
-- The text of a list of headers in the buffer, and its reading back (script.c: the loop of
-- `script_response`).
use wrkx.Prelude.{
  ℕ, zero, suc, ◌+◌, ◌≤◌, ◌<◌, ◌≡◌, some, List, [], ◌∷◌, ◌++◌, map, append_assoc, length,
  length-append, lt→ltb, arith,
}
use wrkx.Buffer.Defs.{Pointer, buffer_pushlstring}
use wrkx.Buffer.Strings.{NulFree, buffer_pushlstring_lem}
use wrkx.Response.Defs.{Callback, read_headers}
use wrkx.Response.Steps.{joined, Header, header_calls, encode}

abbrev pub headers_calls : List Header → List Callback
headers_calls [] = []
headers_calls (h ∷ hs) = header_calls h ++ headers_calls hs

abbrev pub encode_all : List Header → List ℕ
encode_all [] = []
encode_all (h ∷ hs) = encode h ++ encode_all hs

-- the header that the server sent
abbrev pub sent : Header → List ℕ × List ℕ
sent h = (joined h.name, joined h.val)

abbrev pub NulFreeAll : List Header → Type 0
NulFreeAll [] = Unit {0}
NulFreeAll (h ∷ hs) = NulFree (joined h.name) × NulFree (joined h.val) × NulFreeAll hs

pub length-encode_all :
    (h : Header) (hs : List Header)
    → length (encode_all (h ∷ hs)) ≡ length (encode h) + length (encode_all hs)
length-encode_all h hs = length-append (encode h) (encode_all hs)

length-encode :
    (h : Header) → length (encode h) ≡ length (joined h.name) + length (joined h.val) + 2
length-encode h = omega (
  arith,
  length-append (joined h.name) (0 ∷ (joined h.val ++ (0 ∷ []))),
  length-append (joined h.val) (0 ∷ []),
)

encode-split :
    (h : Header) (hs : List Header) (rest : List ℕ)
    → encode_all (h ∷ hs) ++ rest
      ≡ joined h.name ++ (0 ∷ (joined h.val ++ (0 ∷ (encode_all hs ++ rest))))
encode-split h hs rest = simp append_assoc

read_headers-step :
    (fuel : ℕ) (c c' c'' : Pointer) (cursor : ℕ) (k v : List ℕ) (more : List (List ℕ × List ℕ))
    → c.offset < cursor
    → buffer_pushlstring c ≡ some (k, c')
    → buffer_pushlstring c' ≡ some (v, c'')
    → read_headers fuel c'' cursor ≡ some more
    → read_headers (suc fuel) c cursor ≡ some ((k, v) ∷ more)
unfolding read_headers
read_headers-step fuel c c' c'' cursor k v more l a b m =
    rw (read_headers, lt→ltb c.offset cursor l, a, b, m)

pub read_headers_lem :
    (hs : List Header) (fuel at cursor : ℕ) (rest : List ℕ)
    → NulFreeAll hs
    → length (encode_all hs) ≤ fuel
    → cursor ≡ at + length (encode_all hs)
    → read_headers fuel (record { offset = at; ahead = encode_all hs ++ rest }) cursor
      ≡ some (map sent hs)
unfolding read_headers
read_headers_lem [] zero at cursor rest f l e = ground arith
read_headers_lem [] (suc fuel) at cursor rest f l e = ground arith
read_headers_lem (h ∷ hs) zero at cursor rest f l e =
    absurd (omega (arith, length-encode_all h hs, length-encode h))
read_headers_lem (h ∷ hs) (suc fuel) at cursor rest f l e =
    let n = length-encode_all h hs in
    let k = length-encode h in
    let at' : ℕ = at + length (joined h.name) + 1 in
    let inner : List ℕ = encode_all hs ++ rest in
    rw (encode-split h hs rest) (
      read_headers-step fuel _ _ _ cursor _ _ _ (omega (arith, n, k))
        (buffer_pushlstring_lem at (joined h.name) (joined h.val ++ (0 ∷ inner)) f.0)
        (buffer_pushlstring_lem at' (joined h.val) inner f.1)
        (read_headers_lem hs fuel (at' + length (joined h.val) + 1) cursor rest f.2
          (omega (arith, n, k)) (omega (arith, n, k))))
