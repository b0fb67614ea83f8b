-- ===== src/Buffer/Room.antt =====
-- Memory safety and meaning of `buffer_append` and of a NUL put behind the contents (script.c).
use wrkx.Prelude.{
  ℕ, zero, suc, ◌+◌, ◌≤◌, ◌<◌, ◌≡◌, refl, ap, sym, ◌∙◌, inl, inr, some, List, [], ◌∷◌, ◌++◌,
  append-nil, length, take, take-take, leb, leb→le, add64, u64_mod, Bool-cases, arith,
}
use wrkx.Buffer.Defs.{Realloc, Buffer, bytes, memcpy, put_nul, extend, grow_loop, buffer_append}

-- The block has the size that `length` says, and the cursor does not leave it.
pub record IsValid (b : Buffer) : Type 0 where
  pub sized : length (bytes b) ≡ b.length
  pub within : b.cursor ≤ b.length

-- the bytes before the cursor
abbrev pub contents : Buffer → List ℕ
contents b = take b.cursor (bytes b)

-- What a successful `memcpy` leaves.
pub record Copied (bs : List ℕ) (i : ℕ) (src r : List ℕ) : Type 0 where
  pub same_size : length r ≡ length bs
  pub prefix : take (i + length src) r ≡ take i bs ++ src

take_count : (m n : ℕ) (bs : List ℕ) → m ≡ n → take m bs ≡ take n bs
take_count m n bs e = ap (λ k. take k bs) e

pub memcpy_lem :
    (bs : List ℕ) (i : ℕ) (src : List ℕ)
    → i + length src ≤ length bs
    → (r : List ℕ) × (memcpy bs i src ≡ some r) × Copied bs i src r
unfolding memcpy
memcpy_lem bs i [] h = (
  bs,
  refl,
  record {
    same_size = refl;
    prefix = take_count (i + 0) i bs (omega arith) ∙ sym (append-nil (take i bs));
  },
)
memcpy_lem [] i (x ∷ src) h = absurd (omega arith)
memcpy_lem (b ∷ bs) zero (x ∷ src) h =
    let (r, e, c) = memcpy_lem bs zero src (omega arith) in
    (
      x ∷ r,
      rw e,
      record {
        same_size = omega (arith, c.same_size);
        prefix =
            take_count (0 + suc (length src)) (suc (0 + length src)) (x ∷ r) (omega arith)
            ∙ ap (◌∷◌ x) c.prefix;
      },
    )
memcpy_lem (b ∷ bs) (suc i) (x ∷ src) h =
    let (r, e, c) = memcpy_lem bs i (x ∷ src) (omega arith) in
    (
      b ∷ r,
      rw e,
      record {
        same_size = omega (arith, c.same_size);
        prefix =
            take_count (suc i + suc (length src)) (suc (i + suc (length src))) (b ∷ r) (omega arith)
            ∙ ap (◌∷◌ b) c.prefix;
      },
    )

module _ (libc : Realloc) where
  -- What the loop leaves: room for `len` bytes and two more, and the bytes before `used`.
  record Grown (used len : ℕ) (b c : Buffer) : Type 0 where
    sized : length (bytes c) ≡ c.length
    room : used + len + 2 ≤ c.length
    cursor : c.cursor ≡ used
    kept : take used (bytes c) ≡ take used (bytes b)

  extend_lem :
      (used : ℕ) (b : Buffer)
      → length (bytes b) ≡ b.length
      → used ≤ b.length
      → b.length + 1024 < u64_mod
      → (length (bytes (extend libc b used)) ≡ b.length + 1024)
        × ((extend libc b used).length ≡ b.length + 1024)
        × (take used (bytes (extend libc b used)) ≡ take used (bytes b))
  unfolding extend
  extend_lem used b v u o =
      let n : add64 b.length 1024 ≡ b.length + 1024 = omega arith in
      rw n (
        libc.length-grow (bytes b) (b.length + 1024) (omega arith),
        refl,
        sym (
              take-take used (length (bytes b)) (libc.grow (bytes b) (b.length + 1024))
                (omega arith))
            ∙ ap (take used) (libc.take-grow (bytes b) (b.length + 1024) (omega arith)),
      )

  -- The loop ends within its fuel.
  grow_loop_lem :
      (fuel used len : ℕ) (b : Buffer)
      → length (bytes b) ≡ b.length
      → b.cursor ≡ used
      → used ≤ b.length
      → used + len + 1026 < u64_mod
      → 0 < fuel
      → used + len + 2 < fuel + b.length
      → (c : Buffer) × (grow_loop libc fuel used len b ≡ some c) × Grown used len b c
  unfolding grow_loop
  grow_loop_lem zero used len b v e u o p f = elim p [ ]
  grow_loop_lem (suc fuel) used len b v e u o p f =
      elim (Bool-cases (leb b.length (add64 (add64 used len) 1))) [
        | inl more ↦
            let le : b.length ≤ used + len + 1 = omega (arith, leb→le _ _ more) in
            let (s, l, k) = extend_lem used b v u (omega arith) in
            let (c, r, g) =
              grow_loop_lem fuel used len (extend libc b used) (omega (arith, s, l)) refl
                (omega (arith, l)) o (omega arith) (omega (arith, l)) in
            (
              c,
              rw (more, grow_loop) r,
              record { sized = g.sized; room = g.room; cursor = g.cursor; kept = g.kept ∙ k },
            )
        | inr enough ↦ (
          b,
          rw (enough, grow_loop) refl,
          record { sized = v; room = ground arith; cursor = e; kept = refl },
        )
      ]

  -- `buffer_append` of any bytes to a valid buffer returns (its loop ends), faults nowhere, keeps
  -- what was there and puts the bytes behind it; it leaves room for one more byte and a NUL. The
  -- size is taken to stay below 2 ^ 64.
  pub buffer_append_lem :
      (b : Buffer) (src : List ℕ)
      → IsValid b
      → b.cursor + length src + 1026 < u64_mod
      → (c : Buffer) × (buffer_append libc b src ≡ some c)
        × IsValid c
        × (contents c ≡ contents b ++ src)
        × (c.cursor + 2 ≤ c.length)
  unfolding buffer_append
  buffer_append_lem b src v o =
      let (c, e, g) =
        grow_loop_lem (b.cursor + length src + 3) b.cursor (length src) b v.sized refl v.within o
          (omega arith) (omega arith) in
      let (r, m, d) =
        memcpy_lem (bytes c) c.cursor src (omega (arith, g.cursor, g.sized, g.room)) in
      (
        record c { block = some r; cursor = c.cursor + length src },
        rw (e, m),
        record { sized = d.same_size ∙ g.sized; within = omega (arith, g.cursor, g.room) },
        d.prefix ∙ ap (λ t. t ++ src) (ap (λ k. take k (bytes c)) g.cursor ∙ g.kept),
        omega (arith, g.cursor, g.room),
      )

-- Where the cursor is inside the block, `*cursor++ = '\0'` puts one NUL behind the contents.
pub put_nul_lem :
    (b : Buffer)
    → IsValid b
    → b.cursor < b.length
    → (c : Buffer) × (put_nul b ≡ some c)
      × IsValid c
      × (contents c ≡ contents b ++ (0 ∷ []))
      × (c.cursor ≡ b.cursor + 1)
unfolding put_nul
put_nul_lem b v h =
    let (r, m, d) = memcpy_lem (bytes b) b.cursor (0 ∷ []) (omega (arith, v.sized)) in
    (
      record b { block = some r; cursor = b.cursor + 1 },
      rw m,
      record { sized = d.same_size ∙ v.sized; within = omega arith },
      d.prefix,
      refl,
    )
