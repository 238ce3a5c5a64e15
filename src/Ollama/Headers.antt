-- ===== src/Ollama/Headers.antt =====
-- The headers that the proxy for Ollama copies and sends (internal/ollama/proxy.go). A header is the list of its
-- keys with their values; `http.CanonicalHeaderKey` is a parameter.
use Prim.Native.String.{◌++◌ as ◌<>◌}
use mathlib.Core.List.{Memᴰ}
use mathlib.Core.List.Memᴰ
use quantum_runtime.Prelude.{
  String, ◌≡◌, refl, sym, ◌∙◌, ap, subst, ◌⊎◌, inl, inr, List, [], ◌∷◌, ◌++◌, map, Bool, true,
  false, not, filter, ◌||◌, ◌==◌, string_eq, if◌then◌else◌, contains,
}

abbrev pub Header : Type 0
Header = List (String × List String)

unfoldable pub hop_by_hop_headers : List String
hop_by_hop_headers =
    "Connection" ∷ "Keep-Alive" ∷ "Proxy-Authenticate" ∷ "Proxy-Authorization" ∷ "Te" ∷ "Trailer"
    ∷ "Transfer-Encoding" ∷ "Upgrade" ∷ []

-- The keys of the `switch` of `copyRequestHeaders`.
unfoldable pub private_headers : List String
private_headers =
    "Authorization" ∷ "Cookie" ∷ "Forwarded" ∷ "X-Forwarded-For" ∷ "X-Forwarded-Host"
    ∷ "X-Forwarded-Proto" ∷ []

abbrev pub blocked_in_request : String → Bool
blocked_in_request key = contains hop_by_hop_headers key || contains private_headers key

abbrev pub blocked_in_response : String → Bool
blocked_in_response key = contains hop_by_hop_headers key || key == "Set-Cookie"

module _ (canonical : String → String) where
  -- The loop of both functions, with the keys that it leaves out; each value is added by itself.
  unfoldable pub copy_headers : (String → Bool) → Header → List (String × String)
  copy_headers blocked [] = []
  copy_headers blocked ((key, values) ∷ rest) =
      let others = copy_headers blocked rest in
      if blocked (canonical key)
      then others
      else map (λ value. (canonical key, value)) values ++ others

  unfoldable pub copy_request_headers : Header → List (String × String)
  copy_request_headers source = copy_headers blocked_in_request source

  -- `CopyResponseHeaders`.
  unfoldable pub copy_response_headers : Header → List (String × String)
  copy_response_headers source = copy_headers blocked_in_response source

-- `Header.Set` of a canonical key, on the values of all keys.
unfoldable pub set_header : String → String → List (String × String) → List (String × String)
set_header key value pairs = filter (λ pair. not (pair.0 == key)) pairs ++ (key, value) ∷ []

-- The headers that `Do` gives its request.
unfoldable pub request_headers :
    (canonical : String → String) (version : String) → Header → List (String × String)
request_headers canonical version source =
    set_header "User-Agent" ("Quantum-Runtime/" <> version <> " (Ollama compatibility)")
      (copy_request_headers canonical source)

abbrev IsIn : String → String → List (String × String) → List (String × String) → Bool → Type 0
IsIn key value pairs rest left_out = Memᴰ (key, value) (if left_out then rest else pairs ++ rest)

module _ (key value : String) (pairs rest : List (String × String)) where
  out_of :
      (b : Bool)
      → IsIn key value pairs rest b
      → ((b ≡ true) × Memᴰ (key, value) rest) ⊎ ((b ≡ false) × Memᴰ (key, value) (pairs ++ rest))
  out_of true m = inl (refl, m)
  out_of false m = inr (refl, m)

  into_pairs : (b : Bool) → b ≡ false → Memᴰ (key, value) pairs → IsIn key value pairs rest b
  into_pairs true e m = cc
  into_pairs false e m = Memᴰ.append_left rest m

  into_rest : (b : Bool) → Memᴰ (key, value) rest → IsIn key value pairs rest b
  into_rest true m = m
  into_rest false m = Memᴰ.append_right pairs m

module _ (canonical : String → String) (blocked : String → Bool) where
  -- The value stands in the source under a key that is written like this one and is not left out.
  abbrev pub IsSent : Header → String → String → Type 0
  IsSent source key value =
      (given : String) × (values : List String) × Memᴰ (given, values) source
      × (canonical given ≡ key)
      × (blocked key ≡ false)
      × Memᴰ value values

  later :
      (entry : String × List String) (source : Header) (key value : String)
      → IsSent source key value
      → IsSent (entry ∷ source) key value
  later entry source key value (given, values, here, is, free, m) =
      (given, values, Memᴰ.tail here, is, free, m)

  pub copy_headers-IsSent :
      (source : Header) (key value : String)
      → Memᴰ (key, value) (copy_headers canonical blocked source)
      → IsSent source key value
  unfolding copy_headers
  copy_headers-IsSent [] key value m = elim m [ ]
  copy_headers-IsSent ((given, values) ∷ source) key value m =
      let rest = copy_headers canonical blocked source in
      let pairs : List (String × String) = map (λ (v : String). (canonical given, v)) values in
      elim (out_of key value pairs rest (blocked (canonical given)) m) [
        | inl (e, there) ↦
            later (given, values) source key value (copy_headers-IsSent source key value there)
        | inr (e, found) ↦ elim (Memᴰ.append_cases pairs found) [
          | inl here ↦
              let (v, listed, same) =
                Memᴰ.of_map (λ (v : String). (canonical given, v)) values here in
              let key_is = ap (λ (x : String × String). x.0) same in
              (
                given,
                values,
                Memᴰ.head refl,
                key_is,
                subst (λ k. blocked k ≡ false) key_is e,
                Memᴰ.cast (sym (ap (λ (x : String × String). x.1) same)) listed,
              )
          | inr there ↦
              later (given, values) source key value (copy_headers-IsSent source key value there)
        ]
      ]

  pub IsSent-copy_headers :
      (source : Header) (key value : String)
      → IsSent source key value
      → Memᴰ (key, value) (copy_headers canonical blocked source)
  unfolding copy_headers
  IsSent-copy_headers [] key value (given, values, m, is, free, n) = elim m [ ]
  IsSent-copy_headers ((k, vs) ∷ source) key value (given, values, Memᴰ.head e, is, free, n) =
      let rest = copy_headers canonical blocked source in
      let pairs : List (String × String) = map (λ (v : String). (canonical k, v)) vs in
      let key_is = ap canonical (sym (ap (λ (x : String × List String). x.0) e)) ∙ is in
      let open_key = subst (λ x. blocked x ≡ false) (sym key_is) free in
      let listed = subst (Memᴰ value) (ap (λ (x : String × List String). x.1) e) n in
      into_pairs key value pairs rest (blocked (canonical k)) open_key (
        Memᴰ.cast (ap (λ x. (x, value)) (sym key_is))
          (Memᴰ.map (λ (v : String). (canonical k, v)) listed))
  IsSent-copy_headers ((k, vs) ∷ source) key value (given, values, Memᴰ.tail m, is, free, n) =
      let rest = copy_headers canonical blocked source in
      let pairs : List (String × String) = map (λ (v : String). (canonical k, v)) vs in
      into_rest key value pairs rest (blocked (canonical k))
        (IsSent-copy_headers source key value (given, values, m, is, free, n))
