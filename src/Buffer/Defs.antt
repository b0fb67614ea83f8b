-- ===== src/Buffer/Defs.antt =====
-- script.c: `buffer_append`, `buffer_reset`, `buffer_pushlstring`; wrk.h: `buffer`.
use wrkx.Prelude.{
  ℕ, zero, suc, ◌+◌, ◌≤◌, ◌≡◌, true, false, Option, none, some, List, [], ◌∷◌, length, take, leb,
  ◌==◌, add64, ◌>>=◌,
}

-- `realloc` of libc at a larger size: the old bytes stay, the new ones are unspecified.
pub record Realloc : Type 0 where
  pub grow : List ℕ → ℕ → List ℕ
  pub length-grow : (bs : List ℕ) (n : ℕ) → length bs ≤ n → length (grow bs n) ≡ n
  pub take-grow : (bs : List ℕ) (n : ℕ) → length bs ≤ n → take (length bs) (grow bs n) ≡ bs

-- `buffer`; the block is `none` for the null pointer.
pub record Buffer : Type 0 where
  pub block : Option (List ℕ)
  pub length : ℕ
  pub cursor : ℕ

abbrev pub bytes_of : Option (List ℕ) → List ℕ
bytes_of none = []
bytes_of (some bs) = bs

abbrev pub bytes : Buffer → List ℕ
bytes b = bytes_of b.block

-- `memcpy(bs + i, src, n)`; copying nothing is allowed anywhere.
unfoldable pub memcpy : List ℕ → ℕ → List ℕ → Option (List ℕ)
memcpy bs i [] = some bs
memcpy [] i (x ∷ src) = none
memcpy (b ∷ bs) zero (x ∷ src) = memcpy bs zero src >>= λ r. some (x ∷ r)
memcpy (b ∷ bs) (suc i) (x ∷ src) = memcpy bs i (x ∷ src) >>= λ r. some (b ∷ r)

-- `*b->cursor++ = '\0'`
unfoldable pub put_nul : Buffer → Option Buffer
unfolding memcpy
put_nul b = memcpy (bytes b) b.cursor (0 ∷ []) >>= λ bs.
    some (record b { block = some bs; cursor = b.cursor + 1 })

module _ (libc : Realloc) where
  -- the body of the loop of `buffer_append`; `used` is set before it
  unfoldable pub extend : Buffer → ℕ → Buffer
  extend b used =
      let n = add64 b.length 1024 in
      record { block = some (libc.grow (bytes b) n); length = n; cursor = used }

  -- `while (used + len + 1 >= b->length)`; `none` if the fuel runs out
  unfoldable pub grow_loop : ℕ → ℕ → ℕ → Buffer → Option Buffer
  unfolding extend
  grow_loop zero used len b = none
  grow_loop (suc fuel) used len b = elim (leb b.length (add64 (add64 used len) 1)) [
    | true ↦ grow_loop fuel used len (extend b used)
    | false ↦ some b
  ]

  -- A round makes the buffer longer, so `used + len + 3` rounds are enough.
  unfoldable pub buffer_append : Buffer → List ℕ → Option Buffer
  unfolding grow_loop memcpy
  buffer_append b src =
      let n = length src in
      grow_loop (b.cursor + n + 3) b.cursor n b >>= λ c. memcpy (bytes c) c.cursor src >>= λ bs.
      some (record c { block = some bs; cursor = c.cursor + n })

unfoldable pub buffer_reset : Buffer → Buffer
buffer_reset b = record b { cursor = 0 }

-- `strchr(start, 0)` on the bytes from `start` to the end of the block: the string before the
-- first NUL and the bytes behind that NUL; a fault if there is none.
unfoldable pub c_string : List ℕ → Option (List ℕ × List ℕ)
c_string [] = none
c_string (c ∷ rest) = elim (c == 0) [
  | true ↦ some ([], rest)
  | false ↦ c_string rest >>= λ (s, behind). some (c ∷ s, behind)
]

-- A `char *` into the block: its offset, and the bytes from there to the end of the block.
pub record Pointer : Type 0 where
  pub offset : ℕ
  pub ahead : List ℕ

-- `buffer_pushlstring`: the string that is pushed, and `end + 1`.
unfoldable pub buffer_pushlstring : Pointer → Option (List ℕ × Pointer)
unfolding c_string
buffer_pushlstring p = c_string p.ahead >>= λ (s, behind).
    some (s, record { offset = p.offset + length s + 1; ahead = behind })
