-- ===== src/Response/Steps.antt =====
-- What a run of the parser's callbacks leaves in the header buffer (wrk.c).
use wrkx.Prelude.{
  ℕ, ◌+◌, ◌≤◌, ◌<◌, ◌≡◌, refl, ap, sym, ◌∙◌, subst, inl, inr, ◌⊎◌, some, List, [], ◌∷◌, ◌++◌, map,
  append-nil, append_assoc, length, length-append, length-take, u64_mod, ◌>>=◌, Option-cases, arith,
}
use wrkx.Buffer.Defs.{Realloc, Buffer, bytes, put_nul, buffer_append}
use wrkx.Buffer.Room.{IsValid, contents, buffer_append_lem, put_nul_lem}
use wrkx.Response.Defs.{
  Response, field, value, Callback, on_header_field, on_header_value, end_of_value, end_of_field,
  header_field, header_value, callback, callbacks,
}

pub record Holds (b : Buffer) (t : List ℕ) : Type 0 where
  pub valid : IsValid b
  pub text : contents b ≡ t

-- there is also room for a byte and a NUL
pub record HasRoom (b : Buffer) (t : List ℕ) : Type 0 where
  pub holds : Holds b t
  pub room : b.cursor + 2 ≤ b.length

pub cursor-Holds : (b : Buffer) (t : List ℕ) → Holds b t → b.cursor ≡ length t
cursor-Holds b t h =
    omega (arith, ap length h.text, length-take b.cursor (bytes b), h.valid.sized, h.valid.within)

pub put_nul-Holds :
    (b : Buffer) (t : List ℕ)
    → HasRoom b t
    → (c : Buffer) × (put_nul b ≡ some c) × Holds c (t ++ (0 ∷ []))
put_nul-Holds b t h =
    let (c, e, v, k, _) = put_nul_lem b h.holds.valid (omega (arith, h.room)) in
    (c, e, record { valid = v; text = k ∙ ap (λ u. u ++ (0 ∷ [])) h.holds.text })

pub buffer_append-HasRoom :
    (libc : Realloc) (b : Buffer) (t src : List ℕ)
    → Holds b t
    → length t + length src + 1026 < u64_mod
    → (c : Buffer) × (buffer_append libc b src ≡ some c) × HasRoom c (t ++ src)
buffer_append-HasRoom libc b t src h o =
    let (c, e, v, k, r) =
      buffer_append_lem libc b src h.valid (omega (arith, cursor-Holds b t h)) in
    (c, e, record { holds = record { valid = v; text = k ∙ ap (λ u. u ++ src) h.text }; room = r })

-- `flatten` that computes everywhere
abbrev pub flatten : List (List ℕ) → List ℕ
flatten [] = []
flatten (c ∷ cs) = c ++ flatten cs

-- The parts of one header or value: the parser may hand it over in several calls, at least one.
pub record Chunks : Type 0 where
  pub first : List ℕ
  pub more : List (List ℕ)

abbrev pub joined : Chunks → List ℕ
joined c = c.first ++ flatten c.more

pub record Header : Type 0 where
  pub name : Chunks
  pub val : Chunks

abbrev pub header_calls : Header → List Callback
header_calls h =
    on_header_field h.name.first ∷ map on_header_field h.name.more
    ++ (on_header_value h.val.first ∷ map on_header_value h.val.more)

-- the buffer's text for one header
abbrev pub encode : Header → List ℕ
encode h = joined h.name ++ (0 ∷ (joined h.val ++ (0 ∷ [])))

-- The header buffer holds `t` in the given state; in `value` the last NUL is still to come.
abbrev pub AtField : Response → List ℕ → Type 0
AtField r t = (r.state ≡ field) × HasRoom r.headers t

abbrev pub AtValue : Response → List ℕ → Type 0
AtValue r t = (r.state ≡ value) × HasRoom r.headers t

module _ (libc : Realloc) where
  pub callbacks-append :
      (es fs : List Callback) (r : Response)
      → callbacks libc r (es ++ fs) ≡ (callbacks libc r es >>= λ r'. callbacks libc r' fs)
  unfolding callbacks
  callbacks-append [] fs r = refl
  callbacks-append (x ∷ es) fs r = elim (Option-cases (callback libc r x)) [
    | inl e ↦ rw e
    | inr (r', e) ↦ rw e (callbacks-append es fs r')
  ]

  field-calls :
      (cs : List (List ℕ)) (r : Response) (t : List ℕ)
      → AtField r t
      → length t + length (flatten cs) + 1026 < u64_mod
      → (r' : Response) × (callbacks libc r (map on_header_field cs) ≡ some r')
        × AtField r' (t ++ flatten cs)
        × (r'.body ≡ r.body)
  unfolding callbacks callback header_field end_of_value
  field-calls [] r t h o = (r, refl, rw append-nil h, refl)
  field-calls (c ∷ cs) r t (s, h) o =
      let (b, e, k) =
        buffer_append-HasRoom libc r.headers t c h.holds
          (omega (arith, length-append c (flatten cs))) in
      let (r', e', a, d) =
        field-calls cs (record r { state = field; headers = b }) (t ++ c) (refl, k)
          (omega (arith, length-append c (flatten cs), length-append t c)) in
      (r', rw (s, end_of_value, e) e', rw append_assoc at a, d)

  value-calls :
      (cs : List (List ℕ)) (r : Response) (t : List ℕ)
      → AtValue r t
      → length t + length (flatten cs) + 1026 < u64_mod
      → (r' : Response) × (callbacks libc r (map on_header_value cs) ≡ some r')
        × AtValue r' (t ++ flatten cs)
        × (r'.body ≡ r.body)
  unfolding callbacks callback header_value end_of_field
  value-calls [] r t h o = (r, refl, rw append-nil h, refl)
  value-calls (c ∷ cs) r t (s, h) o =
      let (b, e, k) =
        buffer_append-HasRoom libc r.headers t c h.holds
          (omega (arith, length-append c (flatten cs))) in
      let (r', e', a, d) =
        value-calls cs (record r { state = value; headers = b }) (t ++ c) (refl, k)
          (omega (arith, length-append c (flatten cs), length-append t c)) in
      (r', rw (s, end_of_field, e) e', rw append_assoc at a, d)

  -- the first call for a value ends the name by a NUL
  first_value :
      (c : List ℕ) (r : Response) (t : List ℕ)
      → AtField r t
      → length t + length c + 1027 < u64_mod
      → (r' : Response) × (callback libc r (on_header_value c) ≡ some r')
        × AtValue r' (t ++ (0 ∷ c))
        × (r'.body ≡ r.body)
  unfolding callback header_value end_of_field
  first_value c r t (s, h) o =
      let (b, e, k) = put_nul-Holds r.headers t h in
      let (b', e', k') =
        buffer_append-HasRoom libc b (t ++ (0 ∷ [])) c k
          (omega (arith, length-append t (0 ∷ []))) in
      (
        record r { state = value; headers = b' },
        rw (s, end_of_field, e, e'),
        (refl, subst (HasRoom b') (append_assoc t (0 ∷ []) c) k'),
        refl,
      )

  -- Between two headers the text is whole, or its last NUL is still to come.
  abbrev pub Between : Response → List ℕ → Type 0
  Between r t =
      ((r.state ≡ field) × Holds r.headers t) ⊎ ((u : List ℕ) × AtValue r u × (t ≡ u ++ (0 ∷ [])))

  -- the first call for a name ends the value before it by a NUL
  first_field :
      (c : List ℕ) (r : Response) (t : List ℕ)
      → Between r t
      → length t + length c + 1026 < u64_mod
      → (r' : Response) × (callback libc r (on_header_field c) ≡ some r')
        × AtField r' (t ++ c)
        × (r'.body ≡ r.body)
  unfolding callback header_field end_of_value
  first_field c r t (inl (s, h)) o =
      let (b, e, k) = buffer_append-HasRoom libc r.headers t c h (omega arith) in
      (record r { state = field; headers = b }, rw (s, end_of_value, e), (refl, k), refl)
  first_field c r t (inr (u, (s, h), q)) o =
      let (b, e, k) = put_nul-Holds r.headers u h in
      let k' : Holds b t = rw q k in
      let (b', e', k'') = buffer_append-HasRoom libc b t c k' (omega arith) in
      (record r { state = field; headers = b' }, rw (s, end_of_value, e, e'), (refl, k''), refl)

  name-calls :
      (c : Chunks) (r : Response) (t : List ℕ)
      → Between r t
      → length t + length (joined c) + 1026 < u64_mod
      → (r' : Response) × (callbacks libc r (on_header_field c.first ∷ map on_header_field c.more)
          ≡ some r')
        × AtField r' (t ++ joined c)
        × (r'.body ≡ r.body)
  unfolding callbacks
  name-calls c r t b o =
      let n = length-append c.first (flatten c.more) in
      let (r₁, e₁, a₁, d₁) = first_field c.first r t b (omega (arith, n)) in
      let (r₂, e₂, a₂, d₂) =
        field-calls c.more r₁ (t ++ c.first) a₁ (omega (arith, n, length-append t c.first)) in
      (r₂, rw e₁ e₂, rw append_assoc at a₂, d₂ ∙ d₁)

  val-calls :
      (c : Chunks) (r : Response) (t : List ℕ)
      → AtField r t
      → length t + length (joined c) + 1027 < u64_mod
      → (r' : Response) × (callbacks libc r (on_header_value c.first ∷ map on_header_value c.more)
          ≡ some r')
        × AtValue r' (t ++ (0 ∷ joined c))
        × (r'.body ≡ r.body)
  unfolding callbacks
  val-calls c r t a o =
      let n = length-append c.first (flatten c.more) in
      let (r₁, e₁, a₁, d₁) = first_value c.first r t a (omega (arith, n)) in
      let (r₂, e₂, a₂, d₂) =
        value-calls c.more r₁ (t ++ (0 ∷ c.first)) a₁
          (omega (arith, n, length-append t (0 ∷ c.first))) in
      (r₂, rw e₁ e₂, rw append_assoc at a₂, d₂ ∙ d₁)

  -- One header, in whatever pieces it comes.
  pub header-calls :
      (h : Header) (r : Response) (t : List ℕ)
      → Between r t
      → length t + length (encode h) + 1026 < u64_mod
      → (r' : Response) × (callbacks libc r (header_calls h) ≡ some r')
        × (r'.body ≡ r.body)
        × (u : List ℕ) × AtValue r' u
        × (t ++ encode h ≡ u ++ (0 ∷ []))
  header-calls h r t b o =
      let n = length-append (joined h.name) (0 ∷ (joined h.val ++ (0 ∷ []))) in
      let k = length-append (joined h.val) (0 ∷ []) in
      let (r₁, e₁, a₁, d₁) = name-calls h.name r t b (omega (arith, n)) in
      let (r₂, e₂, a₂, d₂) =
        val-calls h.val r₁ (t ++ joined h.name) a₁
          (omega (arith, n, k, length-append t (joined h.name))) in
      (
        r₂,
        rw
            (
              callbacks-append (on_header_field h.name.first ∷ map on_header_field h.name.more)
                  (on_header_value h.val.first ∷ map on_header_value h.val.more) r,
              e₁,
            )
            e₂,
        d₂ ∙ d₁,
        (t ++ joined h.name) ++ (0 ∷ joined h.val),
        a₂,
        sym (
            append_assoc (t ++ joined h.name) (0 ∷ joined h.val) (0 ∷ [])
            ∙ append_assoc t (joined h.name) (0 ∷ (joined h.val ++ (0 ∷ [])))),
      )
