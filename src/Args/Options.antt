-- ===== src/Args/Options.antt =====
-- wrk.c: `longopts`, the short options that `parse_args` gives to `getopt_long`, and the labels of its
-- `switch`.
use wrkx.Prelude.{
  ℕ, ◌≡◌, refl, Bool, true, false, Option, none, some, List, [], ◌∷◌, ◌==◌, if◌then◌else◌, codes,
}
use wrkx.Args.Defs.{
  Flag, threads, affinity, connections, duration, script, header, latency, batch_latency, u_latency,
  timeout, rate, version, other,
}

-- a name, whether an argument is required, and the short option
abbrev pub longopts : List (List ℕ × Bool × ℕ)
longopts =
    (codes "connections", true, b'c')
    ∷ (codes "duration", true, b'd')
    ∷ (codes "threads", true, b't')
    ∷ (codes "affinity", true, b'a')
    ∷ (codes "script", true, b's')
    ∷ (codes "header", true, b'H')
    ∷ (codes "latency", false, b'L')
    ∷ (codes "u_latency", false, b'U')
    ∷ (codes "batch_latency", false, b'B')
    ∷ (codes "timeout", true, b'T')
    ∷ (codes "help", false, b'h')
    ∷ (codes "version", false, b'v')
    ∷ (codes "rate", true, b'R')
    ∷ []

abbrev pub short_options : List ℕ
short_options = codes "t:a:c:d:s:H:T:R:LUBrv?"

-- what `getopt_long` documents of such a string: a colon behind an option that takes an argument
abbrev pub followed_by_colon : List ℕ → Bool
followed_by_colon [] = false
followed_by_colon (b ∷ s) = b == b':'

abbrev pub takes_argument : ℕ → List ℕ → Option Bool
takes_argument c [] = none
takes_argument c (b ∷ s) = if b == c then some (followed_by_colon s) else takes_argument c s

abbrev pub labels : List (ℕ × Flag)
labels =
    (b't', threads)
    ∷ (b'a', affinity)
    ∷ (b'c', connections)
    ∷ (b'd', duration)
    ∷ (b's', script)
    ∷ (b'H', header)
    ∷ (b'L', latency)
    ∷ (b'B', batch_latency)
    ∷ (b'U', u_latency)
    ∷ (b'T', timeout)
    ∷ (b'R', rate)
    ∷ (b'v', version)
    ∷ []

abbrev pub find_label : List (ℕ × Flag) → ℕ → Flag
find_label [] c = other
find_label ((b, flag) ∷ more) c = if b == c then flag else find_label more c

-- `switch (c)` of `parse_args`
unfoldable pub label_of : ℕ → Flag
label_of c = find_label labels c

-- A long option is read as its short one: that takes an argument if and only if the long one does, or
-- it is no short option, and then both end in the usage text.
abbrev Agrees : List ℕ × Bool × ℕ → Type 0
Agrees (name, required, c) = elim (takes_argument c short_options) [
  | some takes ↦ takes ≡ required
  | none ↦ label_of c ≡ other
]

abbrev AllAgree : List (List ℕ × Bool × ℕ) → Type 0
AllAgree [] = Unit {0}
AllAgree (row ∷ rows) = Agrees row × AllAgree rows

longopts_agree : AllAgree longopts
unfolding label_of
longopts_agree = (
  refl,
  (
    refl,
    (refl, (refl, (refl, (refl, (refl, (refl, (refl, (refl, (refl, (refl, (refl, tt))))))))))),
  ),
)
