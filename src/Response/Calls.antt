-- ===== src/Response/Calls.antt =====
-- What the callbacks for a whole response leave in the two buffers (wrk.c).
use wrkx.Prelude.{
  ℕ, ◌+◌, ◌<◌, ◌≡◌, refl, sym, ◌∙◌, inr, some, List, [], ◌∷◌, ◌++◌, map, append-nil, append_assoc,
  length, length-append, u64_mod, arith,
}
use wrkx.Buffer.Defs.{Realloc, Buffer}
use wrkx.Response.Defs.{Response, on_body, callback, callbacks, response_body}
use wrkx.Response.Steps.{
  Holds, buffer_append-HasRoom, flatten, Header, header_calls, encode, AtValue, Between,
  callbacks-append, header-calls,
}
use wrkx.Response.Encoding.{headers_calls, encode_all, length-encode_all}

module _ (libc : Realloc) where
  pub headers-calls :
      (hs : List Header) (h : Header) (r : Response) (t : List ℕ)
      → Between libc r t
      → length t + length (encode_all (h ∷ hs)) + 1026 < u64_mod
      → (r' : Response) × (callbacks libc r (headers_calls (h ∷ hs)) ≡ some r')
        × (r'.body ≡ r.body)
        × (u : List ℕ) × AtValue r' u
        × (t ++ encode_all (h ∷ hs) ≡ u ++ (0 ∷ []))
  headers-calls [] h r t b o =
      let (r', e, d, u, a, q) = header-calls libc h r t b (omega (arith, length-encode_all h [])) in
      (r', rw append-nil e, d, u, a, rw append-nil q)
  headers-calls (h' ∷ hs) h r t b o =
      let n = length-encode_all h (h' ∷ hs) in
      let (r₁, e₁, d₁, u, a, q) = header-calls libc h r t b (omega (arith, n)) in
      let (r₂, e₂, d₂, w, a₂, q₂) =
        headers-calls hs h' r₁ (t ++ encode h) (inr (u, a, q))
          (omega (arith, n, length-append t (encode h))) in
      (
        r₂,
        rw (callbacks-append libc (header_calls h) (headers_calls (h' ∷ hs)) r, e₁) e₂,
        d₂ ∙ d₁,
        w,
        a₂,
        sym (append_assoc t (encode h) (encode_all (h' ∷ hs))) ∙ q₂,
      )

  pub body-calls :
      (bs : List (List ℕ)) (r : Response) (t : List ℕ)
      → Holds r.body t
      → length t + length (flatten bs) + 1026 < u64_mod
      → (b : Buffer) × (callbacks libc r (map on_body bs) ≡ some (record r { body = b }))
        × Holds b (t ++ flatten bs)
  unfolding callbacks callback response_body
  body-calls [] r t h o = (r.body, refl, rw append-nil h)
  body-calls (c ∷ cs) r t h o =
      let n = length-append c (flatten cs) in
      let (b, e, k) = buffer_append-HasRoom libc r.body t c h (omega (arith, n)) in
      let (b', e', k') =
        body-calls cs (record r { body = b }) (t ++ c) k.holds
          (omega (arith, n, length-append t c)) in
      (b', rw e e', rw append_assoc at k')
