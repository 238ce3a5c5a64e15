-- ===== src/Ollama/Sent.antt =====
-- Which headers the proxy for Ollama (internal/ollama/proxy.go) gives its requests.
use Prim.Native.String.{◌++◌ as ◌<>◌}
use mathlib.Core.List.{Memᴰ}
use mathlib.Core.List.Memᴰ
use text.Mathlib.TextEquality.{eq_iff}
use quantum_runtime.Prelude.{
  String, ◌≡◌, ◌≢◌, ◌↔◌, refl, sym, ◌∙◌, ap, ◌⊎◌, inl, inr, List, [], ◌∷◌, Bool, true, false, not,
  ◌||◌, ◌==◌, string_eq, contains, filter, filter_sound, filter_complete, All, Bool-cases,
}
use quantum_runtime.Ollama.Headers.{
  Header, hop_by_hop_headers, private_headers, blocked_in_request, copy_request_headers, set_header,
  request_headers, IsSent, copy_headers-IsSent, IsSent-copy_headers,
}

-- A header that the client gives and the backend may be given: none that belongs to one connection,
-- no credentials, no cookies, no address of a proxy, and not the name of the client's program.
pub record IsForwardable (key : String) : Type 0 where
  pub not_user_agent : key ≢ "User-Agent"
  pub not_connection : key ≢ "Connection"
  pub not_keep_alive : key ≢ "Keep-Alive"
  pub not_proxy_authenticate : key ≢ "Proxy-Authenticate"
  pub not_proxy_authorization : key ≢ "Proxy-Authorization"
  pub not_te : key ≢ "Te"
  pub not_trailer : key ≢ "Trailer"
  pub not_transfer_encoding : key ≢ "Transfer-Encoding"
  pub not_upgrade : key ≢ "Upgrade"
  pub not_authorization : key ≢ "Authorization"
  pub not_cookie : key ≢ "Cookie"
  pub not_forwarded : key ≢ "Forwarded"
  pub not_forwarded_for : key ≢ "X-Forwarded-For"
  pub not_forwarded_host : key ≢ "X-Forwarded-Host"
  pub not_forwarded_proto : key ≢ "X-Forwarded-Proto"

-- The client gave the value under a key that is written like this one.
abbrev pub IsGiven : (String → String) → Header → String → String → Type 0
IsGiven canonical source key value =
    (given : String) × (values : List String) × Memᴰ (given, values) source
    × (canonical given ≡ key)
    × Memᴰ value values

none_of : (xs : List String) (key : String) → contains xs key ≡ false → All (λ x. x ≢ key) xs
unfolding contains
none_of [] key h = tt
none_of (x ∷ xs) key h = elim (Bool-cases (x == key)) [
  | inl e ↦ cc (h, e)
  | inr e ↦ (
    λ same. cc ((eq_iff x key).1 same, e),
    none_of xs key (sym (ap (λ b. b || contains xs key) e) ∙ h),
  )
]

contains_none : (xs : List String) (key : String) → All (λ x. x ≢ key) xs → contains xs key ≡ false
unfolding contains
contains_none [] key h = refl
contains_none (x ∷ xs) key (other, others) = elim (Bool-cases (x == key)) [
  | inl e ↦ absurd (other ((eq_iff x key).0 e))
  | inr e ↦ rw e (contains_none xs key others)
]

or_false : (a b : Bool) → (a || b) ≡ false → (a ≡ false) × (b ≡ false)
or_false true b h = cc
or_false false b h = (refl, h)

free-IsForwardable :
    (key : String) → key ≢ "User-Agent" → blocked_in_request key ≡ false → IsForwardable key
unfolding hop_by_hop_headers private_headers
free-IsForwardable key agent h =
    let (hop, private) =
      or_false (contains hop_by_hop_headers key) (contains private_headers key) h in
    let a = none_of hop_by_hop_headers key hop in
    let b = none_of private_headers key private in
    record {
      not_user_agent = agent;
      not_connection = λ e. a.0 (sym e);
      not_keep_alive = λ e. a.1.0 (sym e);
      not_proxy_authenticate = λ e. a.1.1.0 (sym e);
      not_proxy_authorization = λ e. a.1.1.1.0 (sym e);
      not_te = λ e. a.1.1.1.1.0 (sym e);
      not_trailer = λ e. a.1.1.1.1.1.0 (sym e);
      not_transfer_encoding = λ e. a.1.1.1.1.1.1.0 (sym e);
      not_upgrade = λ e. a.1.1.1.1.1.1.1.0 (sym e);
      not_authorization = λ e. b.0 (sym e);
      not_cookie = λ e. b.1.0 (sym e);
      not_forwarded = λ e. b.1.1.0 (sym e);
      not_forwarded_for = λ e. b.1.1.1.0 (sym e);
      not_forwarded_host = λ e. b.1.1.1.1.0 (sym e);
      not_forwarded_proto = λ e. b.1.1.1.1.1.0 (sym e);
    }

IsForwardable-free : (key : String) → IsForwardable key → blocked_in_request key ≡ false
unfolding hop_by_hop_headers private_headers
IsForwardable-free key h =
    let hop = contains_none hop_by_hop_headers key (
      λ e. h.not_connection (sym e),
      (
        λ e. h.not_keep_alive (sym e),
        (
          λ e. h.not_proxy_authenticate (sym e),
          (
            λ e. h.not_proxy_authorization (sym e),
            (
              λ e. h.not_te (sym e),
              (
                λ e. h.not_trailer (sym e),
                (λ e. h.not_transfer_encoding (sym e), (λ e. h.not_upgrade (sym e), tt)),
              ),
            ),
          ),
        ),
      ),
    ) in
    let private = contains_none private_headers key (
      λ e. h.not_authorization (sym e),
      (
        λ e. h.not_cookie (sym e),
        (
          λ e. h.not_forwarded (sym e),
          (
            λ e. h.not_forwarded_for (sym e),
            (λ e. h.not_forwarded_host (sym e), (λ e. h.not_forwarded_proto (sym e), tt)),
          ),
        ),
      ),
    ) in
    ap (λ a. a || contains private_headers key) hop ∙ private

is_other : (key agent : String) → key ≢ agent → not (key == agent) ≡ true
is_other key agent other = elim (Bool-cases (key == agent)) [
  | inl e ↦ absurd (other ((eq_iff key agent).0 e))
  | inr e ↦ rw e refl
]

other_key : (key agent : String) → not (key == agent) ≡ true → key ≢ agent
other_key key agent h same = let e = (eq_iff key agent).1 same in cc

module _ (canonical : String → String) (source : Header) (key value : String) where
  IsSent-IsGiven :
      key ≢ "User-Agent"
      → IsSent canonical blocked_in_request source key value
      → IsForwardable key × IsGiven canonical source key value
  IsSent-IsGiven agent (given, values, listed, is, free, m) =
      (free-IsForwardable key agent free, (given, values, listed, is, m))

  IsGiven-IsSent :
      IsForwardable key
      → IsGiven canonical source key value
      → IsSent canonical blocked_in_request source key value
  IsGiven-IsSent h (given, values, listed, is, m) =
      (given, values, listed, is, IsForwardable-free key h, m)

-- What `Set` makes of the values of all keys.
set_header_iff :
    (agent text : String) (pairs : List (String × String)) (key value : String)
    → Memᴰ (key, value) (set_header agent text pairs)
      ↔ (((key ≡ agent) × (value ≡ text)) ⊎ ((key ≢ agent) × Memᴰ (key, value) pairs))
unfolding set_header
set_header_iff agent text pairs key value = (
  λ m. elim (Memᴰ.append_cases kept m) [
    | inl old ↦
        let (listed, other) = filter_sound test (key, value) pairs old in
        inr (other_key key agent other, listed)
    | inr new ↦ inl (last new)
  ],
  λ either. elim either [
    | inl (k, v) ↦ Memᴰ.append_right kept (Memᴰ.head (λ i. (k i, v i)))
    | inr (other, listed) ↦
        Memᴰ.append_left ((agent, text) ∷ [])
          (filter_complete test (key, value) pairs listed (is_other key agent other))
  ],
)
  where
    test : String × String → Bool
    test pair = not (pair.0 == agent)

    kept : List (String × String)
    kept = filter test pairs

    last :
        Memᴰ {A = String × String} (key, value) ((agent, text) ∷ [])
        → (key ≡ agent) × (value ≡ text)
    last (Memᴰ.head e) = (ap (λ (x : String × String). x.0) e, ap (λ (x : String × String). x.1) e)
    last (Memᴰ.tail m) = elim m [ ]

-- The headers that `Do` gives its request to Ollama are a `User-Agent`, which names the program and its version,
-- and the headers that the client gave, in their canonical form, but for its `User-Agent`, the
-- hop-by-hop headers, the credentials, the cookies and the addresses of proxies, each of which is
-- listed by name.
pub request_headers_iff :
    (canonical : String → String) (version : String) (source : Header) (key value : String)
    → Memᴰ (key, value) (request_headers canonical version source) ↔ (
        ((key ≡ "User-Agent")
          × (value ≡ "Quantum-Runtime/" <> version <> " (Ollama compatibility)"))
        ⊎ (IsForwardable key × IsGiven canonical source key value))
unfolding request_headers copy_request_headers
request_headers_iff canonical version source key value =
    let (to, from) =
      set_header_iff "User-Agent" ("Quantum-Runtime/" <> version <> " (Ollama compatibility)")
        (copy_request_headers canonical source) key value in
    (
      λ m. elim (to m) [
        | inl own ↦ inl own
        | inr (other, copied) ↦ inr (
            IsSent-IsGiven canonical source key value other
              (copy_headers-IsSent canonical blocked_in_request source key value copied))
      ],
      λ either. elim either [
        | inl own ↦ from (inl own)
        | inr (free, given) ↦ from (
            inr (
              free.not_user_agent,
              IsSent-copy_headers canonical blocked_in_request source key value
                  (IsGiven-IsSent canonical source key value free given),
            ))
      ],
    )
