-- ===== src/Ollama/Laws.antt =====
-- The proxy for Ollama (internal/ollama/proxy.go) declares a valid backend.
use quantum_runtime.Prelude.{
  String, ◌≡◌, refl, inl, inr, [], ◌∷◌, true, false, ok, ◌==◌, string_eq, Bool-cases, contains,
  some,
}
use quantum_runtime.Prelude.Text.{trim_space}
use quantum_runtime.Backend.{
  Descriptor, check_supports, check_formats, validate_capabilities, valid_token, is_supported,
  valid_support, named_supports, validate_descriptor,
}
use text.Mathlib.TextEquality.{eq_iff}
use quantum_runtime.Http.Types.{Request, Server, Upstream, authorized, guarded, served, backends}
use quantum_runtime.Http.Handlers.{checked, handle_backends}
use quantum_runtime.Ollama.{proxy_version, proxy_capabilities, proxy_descriptor}

version_given : (version : String) → (trim_space (proxy_version version) == "") ≡ false
unfolding trim_space
version_given version = elim (Bool-cases (trim_space version == "")) [
  | inl e ↦ rw e refl
  | inr e ↦ rw e e
]

capabilities-valid : validate_capabilities proxy_capabilities ≡ ok tt
unfolding proxy_capabilities validate_capabilities check_supports valid_support named_supports
    is_supported check_formats
capabilities-valid = refl

proxy_descriptor-valid : (version : String) → validate_descriptor (proxy_descriptor version) ≡ ok tt
unfolding validate_descriptor proxy_descriptor valid_token contains
proxy_descriptor-valid version = rw (version_given version) capabilities-valid

checked-ok :
    (d : Descriptor)
    → validate_descriptor d ≡ ok tt
    → (checked d (validate_descriptor d)).reply ≡ served (backends (d ∷ []))
checked-ok d valid = rw valid refl

-- What the proxy declares is a valid descriptor, whatever its version is, so a server in front of it
-- answers an authorized request for the backends with that descriptor.
pub handle_backends-proxy_descriptor :
    (version : String) (s : Server) (r : Request) (u : Upstream)
    → s.upstream ≡ some u
    → u.descriptor ≡ proxy_descriptor version
    → r.method ≡ "GET"
    → authorized s r ≡ true
    → (validate_descriptor (proxy_descriptor version) ≡ ok tt)
      × ((handle_backends s r).reply ≡ served (backends (proxy_descriptor version ∷ [])))
unfolding handle_backends guarded
handle_backends-proxy_descriptor version s r u behind declares get allowed = (
  proxy_descriptor-valid version,
  rw ((eq_iff r.method "GET").1 get) (
      rw allowed (
        rw behind
          (rw declares (checked-ok (proxy_descriptor version) (proxy_descriptor-valid version))))),
)
