-- ===== src/Installer/Roundtrip.antt =====
-- Installing and removing again (`Install` and `Uninstall`, internal/installer/installer.go).
use Prim.Native.String.{◌++◌ as ◌<>◌}
use quantum_runtime.Prelude.{
  String, ◌≡◌, refl, sym, ◌∙◌, subst, ap, Bool, true, false, not, ◌&&◌, Option, none, some, ok,
  ok_injective, inl, inr, string_eq, if◌then◌else◌,
}
use mathlib.Core.List.{Memᴰ}
use quantum_runtime.Installer.System.{
  File, Disk, InstallError, inspecting, Machine, Marker, World, ◌>>◌, return, refuse_if, at_stage,
  succeeded, attempt,
}
use quantum_runtime.Installer.Storage.{is_there}
use quantum_runtime.Installer.Setup.{
  ComponentStatus, Preflight, assess, is_external, ownership_of, runtime_ownership, ollama_status,
  preflight, Manager,
}
use quantum_runtime.Installer.Install.{
  check_root, stat_existing, check_install, uninstall, install, InstallOptions,
}
use quantum_runtime.Installer.Frame.{
  IsUntouched, Frame-refuse_if, Frame-at_stage, Frame-succeeded, Frame-attempt,
}
use quantum_runtime.Installer.Frame.Storage.{IsStable}
use quantum_runtime.Installer.Frame.Install.{
  Frame-check_install, Frame-stat_existing, Frame-preflight, Frame-runtime_ownership,
  Frame-ollama_status,
}
use quantum_runtime.Installer.Rollback.{managed_cases}
use quantum_runtime.Installer.Outcome.{flip, IsApart, kept_config}
use quantum_runtime.Installer.Installed.{install-IsInstalled, owned_by}
use quantum_runtime.Installer.Removed.{
  IsVisible, next_same, runtime_ownership-ok, uninstall-IsRemoved,
}

refuse_if-ok :
    (test : Bool) (x : InstallError) (w : World) (u : Unit {0})
    → (refuse_if test x w).0 ≡ ok u
    → test ≡ false
unfolding refuse_if
refuse_if-ok true x w u e = cc
refuse_if-ok false x w u e = refl

some_eq : {A : Type 0} {a b : A} → some a ≡ some b → a ≡ b
some_eq e = cc

is_there-none : (f : Option File) → is_there f ≡ false → f ≡ none
is_there-none none e = refl
is_there-none (some f) e = cc

-- Without a marker, the files are someone else's unless there are none.
ownership_of-none :
    (marker binary unit : Option File) (s : ComponentStatus)
    → marker ≡ none
    → ownership_of (is_there marker) (is_there binary) (is_there unit) ≡ s
    → is_external s.ownership ≡ false
    → (binary ≡ none) × (unit ≡ none)
unfolding ownership_of
ownership_of-none none none none s gone e h = (refl, refl)
ownership_of-none none none (some u) s gone e h =
    cc (ap (λ (s : ComponentStatus). is_external s.ownership) e, h)
ownership_of-none none (some b) unit s gone e h =
    cc (ap (λ (s : ComponentStatus). is_external s.ownership) e, h)
ownership_of-none (some f) binary unit s gone e h = cc

-- A configuration that is kept and then removed if it was made is as it was.
kept_config-back :
    (config : Option File) (owned : Bool)
    → some (not (is_there config)) ≡ some owned
    → (if true && owned then none else kept_config config) ≡ config
kept_config-back none true e = refl
kept_config-back none false e = cc
kept_config-back (some f) true e = cc
kept_config-back (some f) false e = refl

module _ (mc : Machine) where
  -- The preflight reports the ownership of the files as they are.
  preflight-ok :
      (m : Manager) (w : World) (found : Preflight)
      → (preflight mc m w).0 ≡ ok found
      → (s : ComponentStatus) × ((runtime_ownership mc m.layout w).0 ≡ ok s) × (found.runtime ≡ s)
  unfolding preflight assess return
  preflight-ok m w found e =
      let (s, v1, same1, is, e1, last1) =
        next_same (runtime_ownership mc m.layout) _ w found
          (λ p. Frame-runtime_ownership mc m.layout) e in
      let (o, v2, same2, _, e2, last2) =
        next_same (ollama_status mc m) _ v1 found (λ p. Frame-ollama_status mc m) e1 in
      let (b, v3, same3, _, e3, last3) =
        next_same (succeeded (attempt mc _)) _ v2 found (λ p. Frame-succeeded (Frame-attempt mc _))
          e2 in
      (s, is, ap (λ (f : Preflight). f.runtime) (sym (ok_injective e3)))

  -- The checks pass only if the files are not someone else's.
  check_install-ok :
      (m : Manager) (options : InstallOptions) (w : World)
      → (check_install mc m options w).0 ≡ ok tt
      → (v : World) × (v.disk ≡ w.disk)
        × (s : ComponentStatus) × ((runtime_ownership mc m.layout v).0 ≡ ok s)
        × (is_external s.ownership ≡ false)
  unfolding check_install ◌>>◌
  check_install-ok m options w e =
      let (_, v1, same1, _, e1, _) =
        next_same (check_root mc m) _ w tt (λ p. Frame-refuse_if _ _) e in
      let (_, v2, same2, _, e2, _) =
        next_same (refuse_if _ _) _ v1 tt (λ p. Frame-refuse_if _ _) e1 in
      let (_, v3, same3, _, e3, _) =
        next_same (at_stage inspecting (stat_existing mc options.runtime_binary)) _ v2 tt
          (λ p. Frame-at_stage inspecting (Frame-stat_existing mc options.runtime_binary)) e2 in
      let (_, v4, same4, _, e4, _) =
        next_same (refuse_if _ _) _ v3 tt (λ p. Frame-refuse_if _ _) e3 in
      let (found, v5, same5, is, e5, _) =
        next_same (preflight mc m) _ v4 tt (λ p. Frame-preflight mc m) e4 in
      let (_, v6, same6, _, e6, _) =
        next_same (refuse_if _ _) _ v5 tt (λ p. Frame-refuse_if _ _) e5 in
      let (_, v7, same7, _, e7, _) =
        next_same (refuse_if _ _) _ v6 tt (λ p. Frame-refuse_if _ _) e6 in
      let (s, here, runtime) = preflight-ok m v4 found is in
      (
        v4,
        same4 ∙ same3 ∙ same2 ∙ same1,
        s,
        here,
        ap (λ (s : ComponentStatus). is_external s.ownership) (sym runtime)
            ∙ refuse_if-ok _ _ v7 tt e7,
      )

  -- An installation where no marker was succeeds only if there was no binary and no unit either.
  install-fresh :
      (m : Manager) (options : InstallOptions) (w : World)
      → IsVisible mc
      → w.disk m.layout.marker ≡ none
      → (install mc m options w).0 ≡ ok tt
      → (w.disk m.layout.binary ≡ none) × (w.disk m.layout.unit ≡ none)
  unfolding install ◌>>◌
  install-fresh m options w visible gone e =
      let (_, v1, same1, checked, e1, _) =
        next_same (check_install mc m options) _ w tt (λ p. Frame-check_install mc m options) e in
      let (v, same, s, here, internal) = check_install-ok m options w checked in
      let at = λ (p : String). ap (λ (d : Disk). d p) same in
      let (binary, unit) =
        ownership_of-none _ _ _ s (at m.layout.marker ∙ gone)
          (runtime_ownership-ok mc m.layout v s visible here) internal in
      (sym (at _) ∙ binary, sym (at _) ∙ unit)

  -- An installation where no marker was, and then a removal with the purge of the configuration,
  -- that both succeed leave the file at a path as it was before both; a configuration that was
  -- there is kept. The four managed paths differ, no managed path and not the path in question is
  -- chosen for a temporary file, no command changes a file there or the given binary (so that what
  -- `useradd`, `groupadd` and `systemctl` write is not spoken of), asking for a file's data does not
  -- fail, and the decoder reads a marker that the encoder wrote, with a line feed behind it.
  pub uninstall-install :
      (m : Manager) (options : InstallOptions) (w : World) (p : String)
      → IsApart mc m.layout
      → IsVisible mc
      → ((k : Marker) (text : String) → mc.encode k ≡ some text → mc.decode (text <> "\n") ≡ some k)
      → IsStable mc p
      → IsUntouched mc options.runtime_binary
      → w.disk m.layout.marker ≡ none
      → (install mc m options w).0 ≡ ok tt
      → (uninstall mc m true (install mc m options w).1).0 ≡ ok tt
      → (uninstall mc m true (install mc m options w).1).1.disk p ≡ w.disk p
  uninstall-install m options w p apart visible decodes stable kept gone installed removed =
      let made = install-IsInstalled mc m options w apart kept installed in
      let (binary, unit) = install-fresh m options w visible gone installed in
      let (events, text, from, marked) = made.marker in
      let (k, is, left) =
        uninstall-IsRemoved mc m true _ _ visible apart.stable_marker.untouched
          apart.stable_config.untouched marked removed in
      let k_is = some_eq (sym (decodes _ text from) ∙ is) in
      let listed = λ (q : String). subst (λ (k : Marker). Memᴰ q k.managed_files) k_is in
      let owned = ap (λ (k : Marker). k.config_owned) k_is in
      let taken =
        subst (λ o. owned_by mc o (w.disk m.layout.config) ≡ some made.owned) gone made.takes in
      let config =
        left.config (flip apart.binary_config) apart.config_unit apart.config_marker
        ∙ subst
            (λ o.
              (if true && o then none else (install mc m options w).1.disk m.layout.config)
              ≡ w.disk m.layout.config)
            owned (rw made.config (kept_config-back (w.disk m.layout.config) made.owned taken)) in
      elim (managed_cases mc p m.layout) [
        | inl (inl e) ↦
            left.files p stable.untouched (listed p (Memᴰ.head e)) ∙ sym (ap w.disk e ∙ binary)
        | inl (inr (inl e)) ↦
            ap (uninstall mc m true (install mc m options w).1).1.disk e
            ∙ config
            ∙ sym (ap w.disk e)
        | inl (inr (inr (inl e))) ↦
            left.files p stable.untouched (listed p (Memᴰ.tail (Memᴰ.head e)))
            ∙ sym (ap w.disk e ∙ unit)
        | inl (inr (inr (inr e))) ↦
            ap (uninstall mc m true (install mc m options w).1).1.disk e
            ∙ left.marker
            ∙ sym (ap w.disk e ∙ gone)
        | inr (b, c, u, t) ↦ left.others p stable.untouched b c u t ∙ made.others p stable b c u t
      ]
