-- ===== src/Config/Laws.antt =====
-- What a configuration that was loaded (internal/config/config.go) satisfies.
use quantum_runtime.Prelude.{
  String, ◌≡◌, ◌≢◌, refl, ◌⊎◌, inl, inr, Bool, true, false, not, ◌&&◌, Option, none, some, ok,
  fail_if, ◌==◌, string_eq, >>-ok, ok_injective, subst, ap, Bool-cases,
}
use text.Mathlib.TextEquality.{eq_iff}
use quantum_runtime.Prelude.Int.{ℤ, pos, ltb_ℤ, leb_ℤ}
use quantum_runtime.Prelude.Text.{trim_space}
use quantum_runtime.External.{External, Url}
use quantum_runtime.Config.{
  Parsers, Config, validate_http_url, is_loopback_listen_address, validate_config, load_with,
  load_from,
}

-- A URL that a backend can be reached at.
pub record IsHttp (o : Option Url) : Type 0 where
  pub url : Url
  pub is : o ≡ some url
  pub scheme : (url.scheme ≡ "http") ⊎ (url.scheme ≡ "https")
  pub host : url.host ≢ ""
  pub no_user : url.has_user ≡ false

pub record IsSafe (ps : Parsers) (c : Config) : Type 0 where
  pub listens : trim_space c.listen_address ≢ ""
  pub backend : (c.backend ≡ "ollama") ⊎ (c.backend ≡ "llama.cpp")
  pub upstream : IsHttp c.upstream_url
  pub llama : IsHttp c.llama_cpp_url
  pub model : c.backend ≡ "llama.cpp" → trim_space c.llama_cpp_model ≢ ""
  pub timeout : leb_ℤ c.upstream_timeout (pos 0) ≡ false
  pub limit : ltb_ℤ c.request_body_limit (pos 1048576) ≡ false
  -- Nobody reaches the service from another host without a token.
  pub token : is_loopback_listen_address ps c.listen_address ≡ false → trim_space c.auth_token ≢ ""

fail_if-ok : {E : Type 0} (b : Bool) (e : E) (u : Unit {0}) → fail_if b e ≡ ok u → b ≡ false
fail_if-ok true e u h = cc
fail_if-ok false e u h = refl

not_eq : (a b : String) → (a == b) ≡ false → a ≢ b
not_eq a b h e = cc ((eq_iff a b).1 e, h)

one_of : (a b c : String) → (not (a == b) && not (a == c)) ≡ false → (a ≡ b) ⊎ (a ≡ c)
one_of a b c h = elim (Bool-cases (a == b)) [
  | inl e ↦ inl ((eq_iff a b).0 e)
  | inr e ↦ elim (Bool-cases (a == c)) [ inl e' ↦ inr ((eq_iff a c).0 e') | inr e' ↦ cc (h, e, e') ]
]

validate_http_url-IsHttp :
    (name : String) (o : Option Url) → validate_http_url name o ≡ ok tt → IsHttp o
unfolding validate_http_url
validate_http_url-IsHttp name none h = cc
validate_http_url-IsHttp name (some u) h =
    let (scheme, rest) = >>-ok _ _ h in
    let (host, user) = >>-ok _ _ rest in
    record {
      url = u;
      is = refl;
      scheme = one_of u.scheme "http" "https" (fail_if-ok _ _ tt scheme);
      host = not_eq u.host "" (fail_if-ok _ _ tt host);
      no_user = fail_if-ok _ _ tt user;
    }

both_false : (a b : Bool) → (a && b) ≡ false → a ≡ true → b ≡ false
both_false true b h e = h
both_false false b h e = cc

validate_config-IsSafe : (ps : Parsers) (c : Config) → validate_config ps c ≡ ok tt → IsSafe ps c
unfolding validate_config
validate_config-IsSafe ps c h0 =
    let (listen, h1) = >>-ok _ _ h0 in
    let (backend, h2) = >>-ok _ _ h1 in
    let (upstream, h3) = >>-ok _ _ h2 in
    let (llama, h4) = >>-ok _ _ h3 in
    let (model, h5) = >>-ok _ _ h4 in
    let (timeout, h6) = >>-ok _ _ h5 in
    let (limit, token) = >>-ok _ _ h6 in
    record {
      listens = not_eq _ _ (fail_if-ok _ _ tt listen);
      backend = one_of c.backend "ollama" "llama.cpp" (fail_if-ok _ _ tt backend);
      upstream = validate_http_url-IsHttp _ c.upstream_url upstream;
      llama = validate_http_url-IsHttp _ c.llama_cpp_url llama;
      model = λ e. not_eq _ _ (both_false _ _ (fail_if-ok _ _ tt model) ((eq_iff _ _).1 e));
      timeout = fail_if-ok _ _ tt timeout;
      limit = fail_if-ok _ _ tt limit;
      token = λ e. not_eq _ _ (both_false _ _ (fail_if-ok _ _ tt token) (ap not e));
    }

load_from-IsSafe :
    (ps : Parsers) (getenv : String → String) (c : Config) (upstream llama : Option Url)
    (timeout limit : Option ℤ) (mutation : Option Bool)
    → load_from ps getenv upstream llama timeout limit mutation ≡ ok c
    → IsSafe ps c
load_from-IsSafe ps getenv c (some u) (some v) (some t) (some l) (some b) h =
    let (valid, is) = >>-ok _ _ h in
    subst (IsSafe ps) (ok_injective is) (validate_config-IsSafe ps _ valid)
load_from-IsSafe ps getenv c none v t l b h = cc
load_from-IsSafe ps getenv c (some u) none t l b h = cc
load_from-IsSafe ps getenv c (some u) (some v) none l b h = cc
load_from-IsSafe ps getenv c (some u) (some v) (some t) none b h = cc
load_from-IsSafe ps getenv c (some u) (some v) (some t) (some l) none h = cc

-- A configuration that is loaded from the environment can be served: the address is not blank, the
-- backend is one of the two, both URLs are HTTP URLs with a host and without credentials, llama.cpp has
-- a model, the timeout is positive, the limit of a request is at least 1 MiB, and an address that is
-- not a loopback address comes with a token.
pub load_with-IsSafe :
    (ps : Parsers) (ext : External) (getenv : String → String) (c : Config)
    → load_with ps ext (some getenv) ≡ ok c
    → IsSafe ps c
unfolding load_with
load_with-IsSafe ps ext getenv c h = load_from-IsSafe ps getenv c _ _ _ _ _ h
