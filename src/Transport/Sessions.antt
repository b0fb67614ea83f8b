-- ===== src/Transport/Sessions.antt =====
-- The set-up of OpenSSL and its locks, and what the calls of ssl.c do to a session; wrk.c `main`:
-- what it does if there is no context. What OpenSSL answers is an argument.
use wrkx.Prelude.{
  ℕ, ◌≡◌, ◌≢◌, ◌⊎◌, inl, inr, refl, ap, sym, Bool, true, false, Option, none, some, List, replicate,
  get_elem?, set, get_elem?-set_ne, get_elem?-set_held, set-set_back, some_value, take, equal_bytes,
  codes, if◌then◌else◌, ◌>>=◌,
}
use wrkx.Connection.State.{Status, ok}
use wrkx.Transport.Defs.{Answer, Sock, plain_sock, ssl_sock, ssl_connect, choose_sock}

-- a call of `ssl_lock`: a lock outside the array, a thread that waits, or the locks that are held
pub data Locking : Type 0 where
  outside waits : Locking
  returns : List Bool → Locking

-- `pthread_mutex_lock` of a lock that is held waits.
unfoldable pub ssl_lock : Bool → ℕ → List Bool → Locking
ssl_lock mode n locks = elim (get_elem? locks n) [
  | none ↦ outside
  | some held ↦
      if mode
      then (if held then waits else returns (set locks n true))
      else returns (set locks n false)
]

-- what `ssl_init` sets in a context
pub record Context : Type 0 where
  pub verify_peer : Bool
  pub verify_depth : ℕ
  pub auto_retry : Bool
  pub client_cache : Bool

-- The locks, whether OpenSSL calls `ssl_lock` and `ssl_id`, and the context.
pub record Library : Type 0 where
  pub locks : List Bool
  pub called_back : Bool
  pub context : Option Context

-- with `CRYPTO_num_locks`, and whether `calloc` and `SSL_CTX_new` succeed
unfoldable pub ssl_init : ℕ → Bool → Bool → Library
ssl_init num_locks allocated created =
    if allocated
    then record {
      locks = replicate num_locks false;
      called_back = true;
      context =
          if created
          then some (record {
            verify_peer = false;
            verify_depth = 0;
            auto_retry = true;
            client_cache = true;
          })
          else none;
    }
    else record { locks = replicate 0 false; called_back = false; context = none }

-- `if (!strncmp("https", schema, 5)) { ... }` of `main`: `sock` and `cfg.ctx`, or none for its exit
unfoldable pub set_up_sock : Library → List ℕ → Option (Sock × Option Context)
set_up_sock library schema =
    if equal_bytes (codes "https") (take 5 schema)
    then (library.context >>= λ ctx. some (ssl_sock, some ctx))
    else some (plain_sock, none)

-- a session of a connection: its descriptor, its name of the host, whether a handshake was made
pub record Session : Type 0 where
  pub fd : Option ℕ
  pub host : List ℕ
  pub established : Bool

abbrev pub is_ok : Status → Bool
is_ok ok = true
is_ok _ = false

-- `ssl_connect` of descriptor `fd`; a handshake that is not finished goes on in the next call
unfoldable pub connect_session : Answer → ℕ → List ℕ → Session → Status × Session
unfolding ssl_connect
connect_session a fd host c =
    (ssl_connect a, record { fd = some fd; host = host; established = is_ok (ssl_connect a) })

-- `SSL_shutdown`, whose answer is not looked at, and `SSL_clear`
unfoldable pub ssl_close : Session → Status × Session
ssl_close c = (ok, record c { established = false })

-- Two threads that OpenSSL makes lock the same lock: the lock is inside the array, the first thread
-- gets it, a second one has to wait, and once the first gives it back the locks are as before.
-- Meanwhile no other lock has changed.
pub ssl_lock-excludes :
    (n : ℕ) (locks : List Bool)
    → get_elem? locks n ≡ some false
    → let held = set locks n true in
      (ssl_lock true n locks ≡ returns held)
      × (ssl_lock true n held ≡ waits)
      × (ssl_lock false n held ≡ returns locks)
      × ((m : ℕ) → n ≢ m → get_elem? held m ≡ get_elem? locks m)
unfolding ssl_lock
ssl_lock-excludes n locks h = (
  rw (h, ssl_lock) refl,
  rw (get_elem?-set_held locks n true h, ssl_lock) refl,
  rw (get_elem?-set_held locks n true h, set-set_back locks n true h, ssl_lock) refl,
  λ m ne. get_elem?-set_ne locks true ne,
)

sock_choice :
    {S C : Type 0} (b : Bool) (new : Option C) (tls plain s : S) (ctx : Option C)
    → (if b then ◌>>=◌ {B = S × Option C} new (λ c. some (tls, some c)) else some (plain, none))
      ≡ some (s, ctx)
    → (s ≡ (if b then tls else plain))
      × (((b ≡ true) × (ctx ≢ none) × (new ≡ ctx)) ⊎ ((b ≡ false) × (ctx ≡ none)))
sock_choice true none tls plain s ctx h = cc
sock_choice true (some c) tls plain s ctx h =
    let e = some_value h in
    let k : some c ≡ ctx = ap (λ (x : _ × _). x.1) e in
    (sym (ap (λ (x : _ × _). x.0) e), inl (refl, (λ n. cc), k))
sock_choice false new tls plain s ctx h =
    let e = some_value h in
    (sym (ap (λ (x : _ × _). x.0) e), inr (refl, sym (ap (λ (x : _ × _). x.1) e)))

-- If `main` does not exit, the transport is the one of the URL's schema; and it is that of ssl.c, for
-- a schema that begins with `https`, together with a context, the one that `ssl_init` made and from
-- which the connections get their sessions, or that of net.c without one.
pub set_up_sock-context :
    (library : Library) (schema : List ℕ) (sock : Sock) (ctx : Option Context)
    → set_up_sock library schema ≡ some (sock, ctx)
    → let is_https = equal_bytes (codes "https") (take 5 schema) in
      (sock ≡ choose_sock schema)
      × (((is_https ≡ true) × (ctx ≢ none) × (library.context ≡ ctx))
          ⊎ ((is_https ≡ false) × (ctx ≡ none)))
unfolding set_up_sock choose_sock
set_up_sock-context library schema sock ctx h =
    sock_choice (equal_bytes (codes "https") (take 5 schema)) library.context ssl_sock plain_sock
      sock ctx h
