-- ===== src/Script/Owners.antt =====
-- No address block is freed twice, used after its release, or lost (script.c).
use wrkx.Prelude.{
  ℕ, false, Bool-cases, ◌≡◌, refl, ap, subst, ◌∙◌, true, Option, none, some, List, [], ◌∷◌, ◌>>=◌,
  arith, Option-cases, inl, inr,
}
use wrkx.Script.Addresses.{
  Owner, object, thread, Blocks, block_of, without, blocks, free, script_addr_new, script_addr_copy,
  release, release_old, script_addr_gc, set_thread_addr, get_thread_addr, Use, lookup, collect,
  give, fetch, use_addr, Falling, OwnedOnce, free-without, without-Falling, block_of-live,
  same_owner, same_owner-eq, without-Once, without_self, is_live,
}
use wrkx.Script.Known.{
  Known, now_known, Allowed, known_after, AllAllowed, has_block, Agrees, the_block, no_block,
  block_of-without, new-Agrees,
}

script_addr_new-OwnedOnce :
    (o : Owner) (s : Blocks)
    → OwnedOnce s
    → block_of o s.owners ≡ none
    → OwnedOnce (script_addr_new o s)
unfolding script_addr_new
script_addr_new-OwnedOnce o s w n = record {
  owned = ap (◌∷◌ s.next) w.owned;
  falling = (omega arith, w.falling);
  once = (n, w.once);
}

abbrev released : Owner → Blocks → Blocks
released o s = record s { live = blocks (without o s.owners); owners = without o s.owners }

released-OwnedOnce : (o : Owner) (s : Blocks) → OwnedOnce s → OwnedOnce (released o s)
released-OwnedOnce o s w = record {
  owned = refl;
  falling = without-Falling o s.owners s.next (subst (Falling s.next) w.owned w.falling);
  once = without-Once o s.owners w.once;
}

release_lem :
    (o : Owner) (s : Blocks) (b : ℕ)
    → OwnedOnce s
    → block_of o s.owners ≡ some b
    → release o s ≡ some (released o s)
unfolding release
release_lem o s b w e =
    let freed : free b s.live ≡ some (blocks (without o s.owners)) =
      ap (free b) w.owned
      ∙ free-without o s.owners s.next b (subst (Falling s.next) w.owned w.falling) e in
    rw (e, freed) refl

script_addr_copy_lem :
    (o p : Owner) (s : Blocks) (b : ℕ)
    → OwnedOnce s
    → block_of p s.owners ≡ some b
    → script_addr_copy b o s ≡ some (script_addr_new o s)
unfolding script_addr_copy
script_addr_copy_lem o p s b w e =
    let live : is_live b s.live ≡ true = ap (is_live b) w.owned ∙ block_of-live p s.owners b e in
    rw live refl

released-Agrees :
    (o : Owner) (k : Known) (s : Blocks)
    → OwnedOnce s
    → Agrees k s
    → Agrees (now_known o false k) (released o s)
released-Agrees o k s w h p = elim (Bool-cases (same_owner p o)) [
  | inl t ↦ rw t (
      ap has_block (
        ap (λ q. block_of q (without o s.owners)) (same_owner-eq p o t)
        ∙ without_self o s.owners w.once))
  | inr t ↦ rw t (ap has_block (block_of-without o p s.owners t) ∙ h p)
]

-- the state of the blocks when the old address of thread `t` is gone
release_old_lem :
    (t : ℕ) (s : Blocks)
    → OwnedOnce s
    → (s' : Blocks) × (release_old (block_of (thread t) s.owners) t s ≡ some s')
      × OwnedOnce s'
      × ((p : Owner) → same_owner p (thread t) ≡ false → block_of p s'.owners ≡ block_of p s.owners)
      × (block_of (thread t) s'.owners ≡ none)
unfolding release_old
release_old_lem t s w = elim (Option-cases (block_of (thread t) s.owners)) [
  | inl n ↦ (s, rw n refl, w, (λ p h. refl), n)
  | inr (c, n) ↦ (
    released (thread t) s,
    rw n (release_lem (thread t) s c w n),
    released-OwnedOnce (thread t) s w,
    (λ p h. block_of-without (thread t) p s.owners h),
    without_self (thread t) s.owners w.once,
  )
]

use_addr-OwnedOnce :
    (u : Use) (k : Known) (s : Blocks)
    → OwnedOnce s
    → Agrees k s
    → Allowed u k
    → (s' : Blocks) × (use_addr u s ≡ some s') × OwnedOnce s' × Agrees (known_after u k) s'
unfolding use_addr script_addr_gc set_thread_addr get_thread_addr
use_addr-OwnedOnce (lookup i) k s w a h = (
  script_addr_new (object i) s,
  refl,
  script_addr_new-OwnedOnce (object i) s w (no_block _ (a (object i) ∙ h)),
  new-Agrees (object i) k s (λ p e. a p),
)
use_addr-OwnedOnce (collect i) k s w a h =
    let (b, e) = the_block _ (a (object i) ∙ h) in
    (
      released (object i) s,
      release_lem (object i) s b w e,
      released-OwnedOnce (object i) s w,
      released-Agrees (object i) k s w a,
    )
use_addr-OwnedOnce (give t i) k s w a h =
    let (b, e) = the_block _ (a (object i) ∙ h) in
    let (s', r, w', others, n) = release_old_lem t s w in
    (
      script_addr_new (thread t) s',
      rw (e, r) (script_addr_copy_lem (thread t) (object i) s' b w' (others (object i) refl ∙ e)),
      script_addr_new-OwnedOnce (thread t) s' w' n,
      new-Agrees (thread t) k s' (λ p q. ap has_block (others p q) ∙ a p),
    )
use_addr-OwnedOnce (fetch t i) k s w a (h, g) =
    let (b, e) = the_block _ (a (thread t) ∙ g) in
    (
      script_addr_new (object i) s,
      rw e (script_addr_copy_lem (object i) (thread t) s b w e),
      script_addr_new-OwnedOnce (object i) s w (no_block _ (a (object i) ∙ h)),
      new-Agrees (object i) k s (λ p q. a p),
    )

unfoldable pub use_addrs : List Use → Blocks → Option Blocks
use_addrs [] s = some s
use_addrs (u ∷ us) s = use_addr u s >>= λ s'. use_addrs us s'

use_addrs-from :
    (us : List Use) (k : Known) (s : Blocks)
    → OwnedOnce s
    → Agrees k s
    → AllAllowed us k
    → (s' : Blocks) × (use_addrs us s ≡ some s') × OwnedOnce s'
unfolding use_addrs
use_addrs-from [] k s w a h = (s, refl, w)
use_addrs-from (u ∷ us) k s w a (h, hs) =
    let (s₁, e, w₁, a₁) = use_addr-OwnedOnce u k s w a h in
    let (s₂, f, w₂) = use_addrs-from us (known_after u k) s₁ w₁ a₁ hs in (s₂, rw e f, w₂)

abbrev pub no_blocks : Blocks
no_blocks = record { live = []; next = 0; owners = [] }

-- From the start on, whatever a script does with addresses in any order, if it never calls `__gc`
-- itself, so that a userdata is collected at most once and not used afterwards, and reads the
-- address of a thread only after one was set: no block is freed twice or read after its release, no
-- two owners share a block, and every block that is not freed belongs to an owner, which has no
-- other.
pub use_addrs-OwnedOnce :
    (us : List Use)
    → AllAllowed us (λ o. false)
    → (s' : Blocks) × (use_addrs us no_blocks ≡ some s') × OwnedOnce s'
use_addrs-OwnedOnce us h =
    use_addrs-from us (λ o. false) no_blocks (record { owned = refl; falling = tt; once = tt })
      (λ p. refl) h
