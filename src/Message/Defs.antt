-- ===== src/Message/Defs.antt =====
-- aprintf.c: `aprintf`. The text that `vsnprintf` makes of the format, without its NUL, is an
-- argument; `realloc` succeeds.
use wrkx.Prelude.{
  ℕ, ◌+◌, ◌^◌, Option, none, some, List, [], ◌∷◌, ◌++◌, length, take, leb, if◌then◌else◌, ◌>>=◌,
}
use wrkx.Buffer.Defs.{Realloc, bytes_of, memcpy, c_string}

-- `*s ? strlen(*s) : 0`; the block is `none` for the null pointer
unfoldable pub string_length : Option (List ℕ) → Option ℕ
unfolding c_string
string_length none = some 0
string_length (some bs) = c_string bs >>= λ (s, behind). some (length s)

-- The place of the text in the string, and the block of `*s`. A size that an int does not hold is a
-- fault. A block may be cut to its new size.
unfoldable pub aprintf : Realloc → Option (List ℕ) → List ℕ → Option (ℕ × List ℕ)
unfolding string_length memcpy
aprintf libc s text = string_length s >>= λ len.
    let size = len + (length text + 1) in
    if leb (2 ^ 31) size
    then none
    else (memcpy (libc.grow (take size (bytes_of s)) size) len (text ++ 0 ∷ []) >>= λ bs.
        some (len, bs))

-- calls in a row for one string
unfoldable pub aprintf_all : Realloc → Option (List ℕ) → List (List ℕ) → Option (Option (List ℕ))
unfolding aprintf
aprintf_all libc s [] = some s
aprintf_all libc s (text ∷ texts) =
    aprintf libc s text >>= λ (at, bs). aprintf_all libc (some bs) texts
