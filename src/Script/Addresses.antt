-- ===== src/Script/Addresses.antt =====
-- script.c: who owns the blocks that `ai_addr` points to. Each userdata of an address and each
-- thread with an address has a block of its own; `none` is a use of a block that was freed, or an
-- address that is not there.
use wrkx.Prelude.{
  ℕ, suc, ◌≤◌, ◌<◌, ◌≡◌, refl, ap, Bool, true, false, Option, none, some, List, [], ◌∷◌, ◌==◌,
  ==_refl, ==_iff, if◌then◌else◌, ◌>>=◌, arith, Bool-cases, inl, inr,
}

pub data Owner : Type 0 where
  object thread : ℕ → Owner

abbrev pub same_owner : Owner → Owner → Bool
same_owner (object i) (object j) = i == j
same_owner (thread t) (thread u) = t == u
same_owner (object i) (thread u) = false
same_owner (thread t) (object j) = false

-- the blocks that are not freed, the next one, and the block of each owner
pub record Blocks : Type 0 where
  pub live : List ℕ
  pub next : ℕ
  pub owners : List (Owner × ℕ)

abbrev pub block_of : Owner → List (Owner × ℕ) → Option ℕ
block_of o [] = none
block_of o ((p, b) ∷ owners) =
    let rest = block_of o owners in if same_owner o p then some b else rest

abbrev pub without : Owner → List (Owner × ℕ) → List (Owner × ℕ)
without o [] = []
without o ((p, b) ∷ owners) =
    let rest = without o owners in if same_owner o p then owners else (p, b) ∷ rest

abbrev pub is_live : ℕ → List ℕ → Bool
is_live b [] = false
is_live b (c ∷ live) = let rest = is_live b live in if b == c then true else rest

-- `zfree`
abbrev pub free : ℕ → List ℕ → Option (List ℕ)
free b [] = none
free b (c ∷ live) =
    let rest = free b live in if b == c then some live else (rest >>= λ l. some (c ∷ l))

-- a copy of the system's own address
unfoldable pub script_addr_new : Owner → Blocks → Blocks
script_addr_new o s = record {
  live = s.next ∷ s.live;
  next = suc s.next;
  owners = (o, s.next) ∷ s.owners;
}

-- a copy of the address in a block
unfoldable pub script_addr_copy : ℕ → Owner → Blocks → Option Blocks
unfolding script_addr_new
script_addr_copy src o s = if is_live src s.live then some (script_addr_new o s) else none

unfoldable pub release : Owner → Blocks → Option Blocks
release o s = block_of o s.owners >>= λ b.
    free b s.live >>= λ live. some (record s { live = live; owners = without o s.owners })

unfoldable pub script_addr_gc : ℕ → Blocks → Option Blocks
unfolding release
script_addr_gc i s = release (object i) s

-- `if (t->addr) zfree(t->addr->ai_addr)`
unfoldable pub release_old : Option ℕ → ℕ → Blocks → Option Blocks
unfolding release
release_old none t s = some s
release_old (some b) t s = release (thread t) s

unfoldable pub set_thread_addr : ℕ → ℕ → Blocks → Option Blocks
unfolding release_old script_addr_copy
set_thread_addr t i s = block_of (object i) s.owners >>= λ src.
    release_old (block_of (thread t) s.owners) t s >>= script_addr_copy src (thread t)

-- `thread.addr`: userdata `i` gets a copy
unfoldable pub get_thread_addr : ℕ → ℕ → Blocks → Option Blocks
unfolding script_addr_copy
get_thread_addr t i s = block_of (thread t) s.owners >>= λ src. script_addr_copy src (object i) s

-- what a script can do with addresses
pub data Use : Type 0 where
  lookup collect : (i : ℕ) → Use
  give fetch : (t i : ℕ) → Use

unfoldable pub use_addr : Use → Blocks → Option Blocks
unfolding script_addr_gc set_thread_addr get_thread_addr script_addr_new
use_addr (lookup i) s = some (script_addr_new (object i) s)
use_addr (collect i) s = script_addr_gc i s
use_addr (give t i) s = set_thread_addr t i s
use_addr (fetch t i) s = get_thread_addr t i s

abbrev pub Falling : ℕ → List ℕ → Type 0
Falling n [] = Unit {0}
Falling n (b ∷ bs) = (b < n) × Falling b bs

abbrev pub blocks : List (Owner × ℕ) → List ℕ
blocks [] = []
blocks ((o, b) ∷ owners) = b ∷ blocks owners

abbrev pub Once : List (Owner × ℕ) → Type 0
Once [] = Unit {0}
Once ((o, b) ∷ owners) = (block_of o owners ≡ none) × Once owners

-- every block that is not freed has one owner, no two share one, and no owner has two
pub record OwnedOnce (s : Blocks) : Type 0 where
  pub owned : s.live ≡ blocks s.owners
  pub falling : Falling s.next s.live
  pub once : Once s.owners

Falling-le : (m n : ℕ) (bs : List ℕ) → m ≤ n → Falling m bs → Falling n bs
Falling-le m n [] h f = tt
Falling-le m n (b ∷ bs) h (l, f) = (omega arith, f)

block_of-lt :
    (o : Owner) (owners : List (Owner × ℕ)) (n b : ℕ)
    → Falling n (blocks owners)
    → block_of o owners ≡ some b
    → b < n
block_of-lt o [] n b f e = cc
block_of-lt o ((p, c) ∷ owners) n b (l, f) e = elim (Bool-cases (same_owner o p)) [
  | inl t ↦ ground arith
  | inr t ↦
      let e' : block_of o owners ≡ some b = ground arith in
      omega (arith, block_of-lt o owners c b f e')
]

pub free-without :
    (o : Owner) (owners : List (Owner × ℕ)) (n b : ℕ)
    → Falling n (blocks owners)
    → block_of o owners ≡ some b
    → free b (blocks owners) ≡ some (blocks (without o owners))
free-without o [] n b f e = cc
free-without o ((p, c) ∷ owners) n b (l, f) e = elim (Bool-cases (same_owner o p)) [
  | inl t ↦ let q : c ≡ b = ground arith in rw (t, q, ==_refl b) refl
  | inr t ↦
      let e' : block_of o owners ≡ some b = ground arith in
      let lt = block_of-lt o owners c b f e' in
      let ne : (b == c) ≡ false = ground arith in rw (t, ne, free-without o owners c b f e') refl
]

pub without-Falling :
    (o : Owner) (owners : List (Owner × ℕ)) (n : ℕ)
    → Falling n (blocks owners)
    → Falling n (blocks (without o owners))
without-Falling o [] n f = tt
without-Falling o ((p, c) ∷ owners) n (l, f) = elim (Bool-cases (same_owner o p)) [
  | inl t ↦ rw t (Falling-le c n (blocks owners) (omega arith) f)
  | inr t ↦ rw t (l, without-Falling o owners c f)
]

pub block_of-live :
    (o : Owner) (owners : List (Owner × ℕ)) (b : ℕ)
    → block_of o owners ≡ some b
    → is_live b (blocks owners) ≡ true
block_of-live o [] b e = cc
block_of-live o ((p, c) ∷ owners) b e = elim (Bool-cases (same_owner o p)) [
  | inl t ↦ let q : c ≡ b = ground arith in rw (q, ==_refl b) refl
  | inr t ↦
      let e' : block_of o owners ≡ some b = ground arith in
      ground (arith, block_of-live o owners b e')
]

pub same_owner-eq : (o p : Owner) → same_owner o p ≡ true → o ≡ p
same_owner-eq (object i) (object j) h = ap object ((==_iff i j).0 h)
same_owner-eq (thread t) (thread u) h = ap thread ((==_iff t u).0 h)
same_owner-eq (object i) (thread u) h = cc
same_owner-eq (thread t) (object j) h = cc

without-none :
    (o p : Owner) (owners : List (Owner × ℕ))
    → block_of p owners ≡ none
    → block_of p (without o owners) ≡ none
without-none o p [] h = refl
without-none o p ((q, c) ∷ owners) h = elim (Bool-cases (same_owner p q)) [
  | inl s ↦ ground arith
  | inr s ↦
      let h' : block_of p owners ≡ none = ground arith in
      elim (Bool-cases (same_owner o q)) [
        | inl t ↦ rw t h'
        | inr t ↦ rw (t, s) (without-none o p owners h')
      ]
]

pub without-Once : (o : Owner) (owners : List (Owner × ℕ)) → Once owners → Once (without o owners)
without-Once o [] h = tt
without-Once o ((q, c) ∷ owners) (h, k) = elim (Bool-cases (same_owner o q)) [
  | inl t ↦ rw t k
  | inr t ↦ rw t (without-none o q owners h, without-Once o owners k)
]

pub without_self :
    (o : Owner) (owners : List (Owner × ℕ)) → Once owners → block_of o (without o owners) ≡ none
without_self o [] h = refl
without_self o ((q, c) ∷ owners) (h, k) = elim (Bool-cases (same_owner o q)) [
  | inl t ↦ rw (t, same_owner-eq o q t) h
  | inr t ↦ rw (t, t) (without_self o owners k)
]
