-- ===== src/Script/Tables.antt =====
-- What `script_copy_value` makes of plain values and of tables of them (script.c).
use wrkx.Prelude.{
  ℕ, zero, suc, ◌+◌, ◌<◌, ◌≡◌, refl, ◌∙◌, Option, none, some, List, [], ◌∷◌, length, ◌>>=◌, codes,
  until_nul, arith, Option-cases, inl, inr,
}
use wrkx.Lua.Api.{
  Lua, LuaState, Value, nil, boolean, number, string, table, closure, cfunction, userdata, back,
  value_at, of_thread,
}
use wrkx.Script.Copy.{value, entries, copy, script_copy_value, script_thread_get}

-- a value that is no reference
abbrev pub Plain : {N : Type 0} → Value N → Type 0
Plain nil = Unit {0}
Plain (boolean b) = Unit {0}
Plain (number n) = Unit {0}
Plain (string b) = Unit {0}
Plain (table t) = ⊥
Plain (closure r) = ⊥
Plain (cfunction c) = ⊥
Plain (userdata u) = ⊥

-- what the other state gets: a string ends at its first NUL
abbrev pub received : {N : Type 0} → Value N → Value N
received (string b) = string (until_nul b)
received v = v

module _ (l : Lua) where
  copy-Plain :
      (fuel k : ℕ) (v : Value l.N) (src dst : LuaState l)
      → value_at (back k) src.stack ≡ some v
      → Plain v
      → copy (suc fuel) (value k) (src, dst)
        ≡ some (src, record dst { stack = received v ∷ dst.stack })
  unfolding copy
  copy-Plain fuel k nil src dst e p = rw e refl
  copy-Plain fuel k (boolean b) src dst e p = rw e refl
  copy-Plain fuel k (number n) src dst e p = rw e refl
  copy-Plain fuel k (string b) src dst e p = rw e refl
  copy-Plain fuel k (table t) src dst e p = absurd p
  copy-Plain fuel k (closure r) src dst e p = absurd p
  copy-Plain fuel k (cfunction c) src dst e p = absurd p
  copy-Plain fuel k (userdata u) src dst e p = absurd p

  -- the entries of a table behind a key, in the order of `lua_next`, plain keys and values all
  abbrev pub Entries : l.W → Value l.N → Value l.N → List (Value l.N × Value l.N) → Type 0
  Entries w t key [] = l.next w t key ≡ none
  Entries w t key ((k, v) ∷ rest) =
      (l.next w t key ≡ some (k, v)) × Plain k × Plain v × Entries w t k rest

  -- `t[v] = k` for the entries: key and value have changed places
  abbrev pub assign_swapped : Value l.N → List (Value l.N × Value l.N) → l.W → Option l.W
  assign_swapped t [] w = some w
  assign_swapped t ((k, v) ∷ rest) w =
      l.set w t (received v) (received k) >>= λ w'. assign_swapped t rest w'

  -- a round of the loop
  copy-entry :
      (fuel : ℕ) (t key d k v : Value l.N) (vs ds : List (Value l.N)) (w u : l.W)
      → l.next w t key ≡ some (k, v)
      → Plain k
      → Plain v
      → copy {l = l}
          (suc (suc fuel))
          (entries 1)
          (record { stack = key ∷ t ∷ vs; world = w }, record { stack = d ∷ ds; world = u })
        ≡ (l.set u d (received v) (received k) >>= λ u'.
            copy {l = l}
              (suc fuel)
              (entries 1)
              (record { stack = k ∷ t ∷ vs; world = w }, record { stack = d ∷ ds; world = u' }))
  unfolding copy
  copy-entry fuel t key d k v vs ds w u e pk pv =
      let s : LuaState l = record { stack = v ∷ k ∷ t ∷ vs; world = w } in
      rw
        (
          e,
          copy-Plain fuel 1 v s (record { stack = d ∷ ds; world = u }) refl pv,
          copy-Plain fuel 2 k s (record { stack = received v ∷ d ∷ ds; world = u }) refl pk,
        )
        (elim (Option-cases (l.set u d (received v) (received k))) [
          | inl n ↦ rw n refl
          | inr (u', n) ↦ rw n refl
        ])

  copy-last :
      (fuel : ℕ) (t key d : Value l.N) (vs ds : List (Value l.N)) (w u : l.W)
      → l.next w t key ≡ none
      → copy {l = l}
          (suc fuel)
          (entries 1)
          (record { stack = key ∷ t ∷ vs; world = w }, record { stack = d ∷ ds; world = u })
        ≡ some (record { stack = t ∷ vs; world = w }, record { stack = d ∷ ds; world = u })
  unfolding copy
  copy-last fuel t key d vs ds w u e = rw e refl

  copy-entries :
      (fuel : ℕ) (t key d : Value l.N) (rest : List (Value l.N × Value l.N))
      (vs ds : List (Value l.N)) (w u : l.W)
      → Entries w t key rest
      → length rest < fuel
      → copy {l = l} fuel
          (entries 1)
          (record { stack = key ∷ t ∷ vs; world = w }, record { stack = d ∷ ds; world = u })
        ≡ (assign_swapped d rest u >>= λ u'.
            some (record { stack = t ∷ vs; world = w }, record { stack = d ∷ ds; world = u' }))
  copy-entries zero t key d rest vs ds w u e h = absurd (omega arith)
  copy-entries (suc fuel) t key d [] vs ds w u e h = copy-last fuel t key d vs ds w u e
  copy-entries (suc zero) t key d ((k, v) ∷ rest) vs ds w u e h = absurd (omega arith)
  copy-entries (suc (suc fuel)) t key d ((k, v) ∷ rest) vs ds w u (e, pk, pv, es) h =
      copy-entry fuel t key d k v vs ds w u e pk pv
      ∙ elim (Option-cases (l.set u d (received v) (received k))) [
        | inl n ↦ rw n refl
        | inr (u', n) ↦ rw n (copy-entries (suc fuel) t k d rest vs ds w u' es (omega arith))
      ]

  -- `script_copy_value(src, dst, -1)` of a table whose keys and values are no references makes a new
  -- table in which every value has become the key of its key, in the order of `lua_next`, strings cut
  -- at their first NUL; it leaves the new table on the destination's stack, and takes the table
  -- itself off the source's. The fuel is more than the entries by two.
  pub script_copy_value-swaps :
      (fuel r : ℕ) (es : List (Value l.N × Value l.N)) (vs : List (Value l.N)) (w : l.W)
      (dst : LuaState l)
      → length es + 1 < fuel
      → Entries w (table r) nil es
      → let (t, u) = l.new_table dst.world in
        script_copy_value {l = l} fuel 1 (record { stack = table r ∷ vs; world = w }, dst) ≡ (
          assign_swapped t es u >>= λ u'.
          some (record { stack = vs; world = w }, record { stack = t ∷ dst.stack; world = u' }))
  unfolding script_copy_value copy
  script_copy_value-swaps zero r es vs w dst h n = absurd (omega arith)
  script_copy_value-swaps (suc fuel) r es vs w dst h n =
      let (t, u) = l.new_table dst.world in
      rw (copy-entries fuel (table r) nil t es vs dst.stack w u n (omega arith))
        (elim (Option-cases (assign_swapped t es u)) [
          | inl q ↦ rw q refl
          | inr (u', q) ↦ rw q refl
        ])

  -- `thread:get` of a table faults on a thread whose own stack is empty, as it is between calls: even
  -- where the copy succeeds, it
  -- has taken the value off that stack already, so that the `lua_pop` behind it finds nothing there.
  pub script_thread_get-underflow :
      (fuel r tid : ℕ) (key : List ℕ) (es : List (Value l.N × Value l.N)) (self : Value l.N)
      (u w w' : l.W)
      → length es + 1 < fuel
      → l.check u self (codes "wrk.thread") ≡ some (of_thread tid)
      → l.get_global w (until_nul key) ≡ some (table r, w')
      → Entries w' (table r) nil es
      → script_thread_get {l = l} fuel
          (record { stack = string key ∷ self ∷ []; world = u }, record { stack = []; world = w })
        ≡ none
  unfolding script_thread_get
  script_thread_get-underflow fuel r tid key es self u w w' h c g n =
      let dst : LuaState l = record { stack = string key ∷ self ∷ []; world = u } in
      let (t, u₁) = l.new_table u in
      rw (c, g, script_copy_value-swaps fuel r es [] w' dst h n)
        (elim (Option-cases (assign_swapped t es u₁)) [
          | inl q ↦ rw q refl
          | inr (u', q) ↦ rw q refl
        ])
