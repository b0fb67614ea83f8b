-- ===== src/Message/Printed.antt =====
-- What `aprintf` leaves (aprintf.c).
use wrkx.Prelude.{
  ℕ, ◌+◌, ◌^◌, ◌<◌, ◌≤◌, ◌≡◌, refl, ap, sym, ◌∙◌, Option, none, some, List, [], ◌∷◌, ◌++◌, length,
  take, leb-false, length-take, length-append, take-append, take-all, take-take, append-nil,
  append_assoc, arith,
}
use wrkx.Buffer.Defs.{Realloc, bytes_of}
use wrkx.Buffer.Room.{memcpy_lem}
use wrkx.Buffer.Strings.{NulFree, NulFree-append, c_string_lem}
use wrkx.Message.Defs.{string_length, aprintf, aprintf_all}

-- the string that a block holds, whose size does not matter; the null pointer holds none
pub data Holds : Option (List ℕ) → List ℕ → Type 0 where
  nothing : Holds none []
  string : (s rest : List ℕ) → NulFree s → Holds (some (s ++ 0 ∷ rest)) s

string_length_lem :
    (b : Option (List ℕ)) (s : List ℕ) → Holds b s → string_length b ≡ some (length s)
unfolding string_length
string_length_lem _ _ nothing = refl
string_length_lem _ _ (string s rest h) = rw (c_string_lem s rest h)

take-Holds : (b : Option (List ℕ)) (s : List ℕ) → Holds b s → take (length s) (bytes_of b) ≡ s
take-Holds _ _ nothing = refl
take-Holds _ _ (string s rest h) = take-append s (0 ∷ rest)

-- the old string at the start of the new block
take-grown :
    (libc : Realloc) (bs : List ℕ) (i n : ℕ)
    → i ≤ n
    → i ≤ length bs
    → take i (libc.grow (take n bs) n) ≡ take i bs
take-grown libc bs i n h k =
    let g = libc.grow (take n bs) n in
    let le : length (take n bs) ≤ n = omega (arith, length-take n bs) in
    let le' : i ≤ length (take n bs) = omega (arith, length-take n bs) in
    sym (take-take i (length (take n bs)) g le')
    ∙ ap (take i) (libc.take-grow (take n bs) n le)
    ∙ take-take i n bs h

length-Holds : (b : Option (List ℕ)) (s : List ℕ) → Holds b s → length s ≤ length (bytes_of b)
length-Holds _ _ nothing = omega arith
length-Holds _ _ (string s rest h) = omega (arith, length-append s (0 ∷ rest))

aprintf-Holds :
    (libc : Realloc) (b : Option (List ℕ)) (s text : List ℕ)
    → Holds b s
    → length s + length text + 1 < 2 ^ 31
    → aprintf libc b text ≡ some (length s, (s ++ text) ++ 0 ∷ [])
unfolding aprintf
aprintf-Holds libc b s text h k =
    let n = length s + (length text + 1) in
    let g = libc.grow (take n (bytes_of b)) n in
    let size : length g ≡ n =
      libc.length-grow (take n (bytes_of b)) n (omega (arith, length-take n (bytes_of b))) in
    let src : length (text ++ 0 ∷ []) ≡ length text + 1 = length-append text (0 ∷ []) in
    let (r, e, c) = memcpy_lem g (length s) (text ++ 0 ∷ []) (omega (arith, size, src)) in
    let whole : r ≡ (s ++ text) ++ 0 ∷ [] =
      sym (take-all (length s + length (text ++ 0 ∷ [])) r (omega (arith, c.same_size, size, src)))
      ∙ c.prefix
      ∙ ap (λ x. x ++ (text ++ 0 ∷ []))
          (take-grown libc (bytes_of b) (length s) n (omega arith) (length-Holds b s h)
            ∙ take-Holds b s h)
      ∙ sym (append_assoc s text (0 ∷ [])) in
    rw (string_length_lem b s h, leb-false (2 ^ 31) n (omega arith), e, whole) refl

-- the texts, one behind the other
abbrev pub concat : List (List ℕ) → List ℕ
concat [] = []
concat (text ∷ texts) = text ++ concat texts

abbrev pub AllNulFree : List (List ℕ) → Type 0
AllNulFree [] = Unit {0}
AllNulFree (text ∷ texts) = NulFree text × AllNulFree texts

-- Calls of `aprintf` in a row, at least one, for a string or the null pointer: no byte outside the
-- block is written, whatever its size was, and the block then holds exactly the string, the texts
-- behind it in their order, and a NUL. The texts have no NUL, and all together with the string and
-- the NUL fit an int.
pub aprintf_all-Holds :
    (libc : Realloc) (b : Option (List ℕ)) (s text : List ℕ) (texts : List (List ℕ))
    → Holds b s
    → NulFree s
    → AllNulFree (text ∷ texts)
    → length s + length (concat (text ∷ texts)) + 1 < 2 ^ 31
    → aprintf_all libc b (text ∷ texts) ≡ some (some ((s ++ concat (text ∷ texts)) ++ 0 ∷ []))
unfolding aprintf_all
aprintf_all-Holds libc b s text [] h f (g, _) k =
    rw (aprintf-Holds libc b s text h (omega (arith, length-append text [])), append-nil text) refl
aprintf_all-Holds libc b s text (next ∷ texts) h f (g, gs) k =
    let f' = NulFree-append s text f g in
    rw
      (
        aprintf-Holds libc b s text h (omega (arith, length-append text (concat (next ∷ texts)))),
        sym (append_assoc s text (concat (next ∷ texts))),
      )
      (aprintf_all-Holds libc (some ((s ++ text) ++ 0 ∷ [])) (s ++ text) next texts
        (string (s ++ text) [] f') f' gs
        (omega (arith, length-append s text, length-append text (concat (next ∷ texts)))))
