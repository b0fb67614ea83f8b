-- ===== src/Args/Usable.antt =====
-- What `parse_args` accepts (wrk.c).
use wrkx.Prelude.{
  ℕ, ◌≤◌, ◌<◌, ◌≡◌, ◌≢◌, ◌↔◌, refl, ap, ◌∙◌, subst, Bool, true, false, Option, none, some, List, [],
  ◌∷◌, length, ◌==◌, if◌then◌else◌, ◌&&◌, ◌||◌, >>=-eq-some, some_value, arith,
}
use wrkx.Args.Defs.{
  Flag, Settings, defaults, parse_flags, Parts, script_parse_url, refused, check_settings,
  parse_args,
}

-- what `thread_main` and `main` need of the settings
pub record Usable (s : Settings) : Type 0 where
  pub some_threads : 0 < s.threads
  pub some_time : 0 < s.duration
  pub enough : s.threads ≤ s.connections
  pub some_rate : 0 < s.rate
  pub fits : length s.affinity ≢ 0 → length s.affinity ≡ s.threads

not_refused :
    (s : Settings)
    → refused s ≡ false
    → (s.threads == 0) ≡ false
    → (s.duration == 0) ≡ false
    → Usable s
unfolding refused
not_refused s h a b = record {
  some_threads = ground arith;
  some_time = ground arith;
  enough = ground arith;
  some_rate = ground arith;
  fits = λ k. ground arith;
}

if_none {ℓ} :
    {A : Type ℓ} (b : Bool) (m : Option A) {x : A}
    → (if b then none else m) ≡ some x
    → (b ≡ false) × (m ≡ some x)
if_none true m h = cc
if_none false m h = (refl, h)

if_some {ℓ} :
    {A : Type ℓ} (b : Bool) (a : A) {x : A}
    → (if b then some a else none) ≡ some x
    → (b ≡ true) × (a ≡ x)
if_some true a h = (refl, some_value h)
if_some false a h = cc

and_true : (a b : Bool) → a && b ≡ true → (a ≡ true) × (b ≡ true)
and_true a b h = ground arith

or_false : (a b : Bool) → a || b ≡ false → (a ≡ false) × (b ≡ false)
or_false a b h = ground arith

-- the URL was parsed and has what is needed
abbrev pub GoodUrl : (List ℕ → Option Parts) → List ℕ → Parts → Type 0
GoodUrl parse url parts =
    (parse url ≡ some parts) × (parts.has_schema ≡ true) × (parts.has_host ≡ true)

script_parse_url-GoodUrl :
    (parse : List ℕ → Option Parts) (url : List ℕ) (parts : Parts)
    → script_parse_url parse url ≡ some parts
    → GoodUrl parse url parts
unfolding script_parse_url
script_parse_url-GoodUrl parse url parts h =
    let (q, e, k) = >>=-eq-some (parse url) _ h in
    let (t, w) = if_some (q.has_schema && q.has_host) q k in
    let (x, y) = and_true q.has_schema q.has_host t in subst (GoodUrl parse url) w (e, x, y)

GoodUrl-script_parse_url :
    (parse : List ℕ → Option Parts) (url : List ℕ) (parts : Parts)
    → GoodUrl parse url parts
    → script_parse_url parse url ≡ some parts
unfolding script_parse_url
GoodUrl-script_parse_url parse url parts (e, a, b) = rw (e, a, b) refl

Usable-refused : (s : Settings) → Usable s → refused s ≡ false
unfolding refused
Usable-refused s u = ground (arith, u.enough, u.some_rate, u.some_threads, u.fits)

check_settings-Usable :
    (parse : List ℕ → Option Parts) (args : List (List ℕ)) (s s' : Settings) (url : List ℕ)
    (parts : Parts)
    → check_settings parse args s ≡ some (s', url, parts)
    → (s ≡ s') × Usable s × GoodUrl parse url parts × (rest : List (List ℕ)) × (args ≡ url ∷ rest)
unfolding check_settings
check_settings-Usable parse [] s s' url parts h = cc
check_settings-Usable parse (u ∷ args) s s' url parts h =
    let (t, h') = if_none ((s.threads == 0) || (s.duration == 0)) _ h in
    let (a, b) = or_false (s.threads == 0) (s.duration == 0) t in
    let (q, e, k) = >>=-eq-some (script_parse_url parse u) _ h' in
    let (r, w) = if_none (refused s) (some (s, u, q)) k in
    let same = some_value w in
    let good : GoodUrl parse u q = script_parse_url-GoodUrl parse u q e in
    (
      ap (λ (x : Settings × List ℕ × Parts). x.0) same,
      not_refused s r a b,
      subst (λ (x : Settings × List ℕ × Parts). GoodUrl parse x.1 x.2) same good,
      args,
      ap (λ (x : Settings × List ℕ × Parts). x.1 ∷ args) same,
    )

positive : (n : ℕ) → 0 < n → (n == 0) ≡ false
positive n h = ground arith

-- `parse_args` returns settings, a URL and its parts exactly if the options are read without a
-- refusal, the first argument left is the URL, the URL has a schema and a host, and the settings are
-- usable: at least one thread, one second, one connection for each thread and a rate, and as many
-- CPUs as threads if CPUs are given.
pub parse_args_iff :
    (parse : List ℕ → Option Parts) (flags : List (Flag × List ℕ)) (args : List (List ℕ))
    (s : Settings) (url : List ℕ) (parts : Parts)
    → (parse_args parse flags args ≡ some (s, url, parts)) ↔ (
        (parse_flags flags defaults ≡ some s)
        × Usable s
        × GoodUrl parse url parts
        × ((rest : List (List ℕ)) × (args ≡ url ∷ rest)))
unfolding parse_args check_settings
parse_args_iff parse flags args s url parts = (
  (λ h.
      let (s', e, k) = >>=-eq-some (parse_flags flags defaults) _ h in
      let (q, u, g, rest, w) = check_settings-Usable parse args s' s url parts k in
      (e ∙ ap some q, subst Usable q u, g, (rest, w))),
  λ (e, u, g, (rest, w)).
      rw
        (
          e,
          w,
          positive s.threads u.some_threads,
          positive s.duration u.some_time,
          GoodUrl-script_parse_url parse url parts g,
          Usable-refused s u,
        )
        refl,
)
