-- ===== src/Script/Known.antt =====
-- What Lua and a script know of addresses, apart from their blocks: which userdata there are, and
-- which threads have an address (script.c).
use wrkx.Prelude.{
  ℕ, Bool, false, if◌then◌else◌, Bool-cases, sym, ◌≡◌, refl, ap, ◌∙◌, true, Option, none, some,
  List, [], ◌∷◌, inl, inr,
}
use wrkx.Script.Addresses.{
  Owner, object, thread, Blocks, block_of, without, script_addr_new, Use, lookup, collect, give,
  fetch, same_owner, same_owner-eq,
}

-- The userdata that are there, and the threads that have an address, as Lua and the script know them.
abbrev pub Known : Type 0
Known = Owner → Bool

abbrev pub now_known : Owner → Bool → Known → Known
now_known o b k p = if same_owner p o then b else k p

-- What a script can do, if it leaves `__gc` to Lua: an address that is looked up or fetched is a new
-- userdata, only one that is there is given to a thread or collected, and only a thread that was
-- given an address is asked for it.
abbrev pub Allowed : Use → Known → Type 0
Allowed (lookup i) k = k (object i) ≡ false
Allowed (collect i) k = k (object i) ≡ true
Allowed (give t i) k = k (object i) ≡ true
Allowed (fetch t i) k = (k (object i) ≡ false) × (k (thread t) ≡ true)

abbrev pub known_after : Use → Known → Known
known_after (lookup i) k = now_known (object i) true k
known_after (collect i) k = now_known (object i) false k
known_after (give t i) k = now_known (thread t) true k
known_after (fetch t i) k = now_known (object i) true k

abbrev pub AllAllowed : List Use → Known → Type 0
AllAllowed [] k = Unit {0}
AllAllowed (u ∷ us) k = Allowed u k × AllAllowed us (known_after u k)

abbrev pub has_block : Option ℕ → Bool
has_block none = false
has_block (some b) = true

-- Those that Lua knows have a block, the others have none.
abbrev pub Agrees : Known → Blocks → Type 0
Agrees k s = (p : Owner) → has_block (block_of p s.owners) ≡ k p

pub the_block : (x : Option ℕ) → has_block x ≡ true → (b : ℕ) × (x ≡ some b)
the_block none h = cc
the_block (some b) h = (b, refl)

pub no_block : (x : Option ℕ) → has_block x ≡ false → x ≡ none
no_block none h = refl
no_block (some b) h = cc

pub block_of-without :
    (o p : Owner) (owners : List (Owner × ℕ))
    → same_owner p o ≡ false
    → block_of p (without o owners) ≡ block_of p owners
block_of-without o p [] h = refl
block_of-without o p ((q, c) ∷ owners) h = elim (Bool-cases (same_owner o q)) [
  | inl t ↦
      let other : same_owner p q ≡ false = ap (same_owner p) (sym (same_owner-eq o q t)) ∙ h in
      rw (t, other) refl
  | inr t ↦ rw (t, block_of-without o p owners h) refl
]

pub new-Agrees :
    (o : Owner) (k : Known) (s : Blocks)
    → ((p : Owner) → same_owner p o ≡ false → has_block (block_of p s.owners) ≡ k p)
    → Agrees (now_known o true k) (script_addr_new o s)
unfolding script_addr_new
new-Agrees o k s h p = elim (Bool-cases (same_owner p o)) [
  | inl t ↦ rw t refl
  | inr t ↦ rw t (h p t)
]
