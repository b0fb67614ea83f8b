-- ===== src/Buffer/Strings.antt =====
-- What `buffer_pushlstring` reads (script.c).
use wrkx.Prelude.{ℕ, ◌+◌, ◌≡◌, refl, ◌≢◌, some, List, [], ◌∷◌, ◌++◌, length, arith}
use wrkx.Buffer.Defs.{c_string, buffer_pushlstring}

-- no byte of the list is a NUL
abbrev pub NulFree : List ℕ → Type 0
NulFree [] = Unit {0}
NulFree (c ∷ s) = (c ≢ 0) × NulFree s

pub NulFree-append : (s t : List ℕ) → NulFree s → NulFree t → NulFree (s ++ t)
NulFree-append [] t h k = k
NulFree-append (c ∷ s) t h k = (h.0, NulFree-append s t h.1 k)

pub c_string_lem : (s rest : List ℕ) → NulFree s → c_string (s ++ 0 ∷ rest) ≡ some (s, rest)
unfolding c_string
c_string_lem [] rest h = refl
c_string_lem (c ∷ s) rest h = ground (arith, c_string_lem s rest h.1)

pub buffer_pushlstring_lem :
    (at : ℕ) (s rest : List ℕ)
    → NulFree s
    → buffer_pushlstring (record { offset = at; ahead = s ++ 0 ∷ rest })
      ≡ some (s, record { offset = at + length s + 1; ahead = rest })
unfolding buffer_pushlstring
buffer_pushlstring_lem at s rest h = rw (c_string_lem s rest h)
