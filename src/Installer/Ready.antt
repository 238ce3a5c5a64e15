-- ===== src/Installer/Ready.antt =====
-- The wait for a service that was started (`waitReady`, internal/installer/installer.go).
use quantum_runtime.Prelude.{
  ℕ, zero, suc, ◌+◌, ◌*◌, ◌≤◌, List, ◌∷◌, ◌≡◌, refl, sym, ◌∙◌, subst, ap, Bool, true, false, Result,
  ok, err, ◌⊎◌, inl, inr, length, arith, if◌then◌else◌,
}
use quantum_runtime.Installer.System.{
  Event, probe, pause, InstallError, call_failed, not_ready, Machine, World, Action, continue,
  ◌>>=◌, ◌>>◌, throw, handle, on_error, attempt,
}
use quantum_runtime.Installer.Setup.{Manager, health_url, ready_url, wait_rounds, wait_ready}
use quantum_runtime.Installer.Rollback.{continue-ok, continue-eq}

-- The step makes at most so many calls.
record Calls (n : ℕ) {A : Type 0} (m : Action A) : Type 0 where
  few : (w : World) → length (m w).1.events ≤ n + length w.events

continue-Calls :
    {A B : Type 0} (n : ℕ) (k : A → Action B) (r : Result InstallError A × World)
    → ((a : A) → Calls n (k a))
    → length (continue k r).1.events ≤ n + length r.1.events
continue-Calls n k (ok a, w) h = (h a).few w
continue-Calls n k (err x, w) h = omega arith

handle-Calls :
    {A : Type 0} (n : ℕ) (k : InstallError → Action A) (r : Result InstallError A × World)
    → ((x : InstallError) → Calls n (k x))
    → length (handle k r).1.events ≤ n + length r.1.events
handle-Calls n k (ok a, w) h = omega arith
handle-Calls n k (err x, w) h = (h x).few w

Calls->> :
    {B : Type 0} (a b : ℕ) {m : Action (Unit {0})} {k : Action B}
    → Calls a m
    → Calls b k
    → Calls (a + b) (m >> k)
unfolding ◌>>◌ ◌>>=◌
Calls->> a b {m} {k} h h' = record {
  few = λ w. omega (arith, continue-Calls b (λ u. k) (m w) (λ u. h'), h.few w);
}

module _ (mc : Machine) where
  Calls-attempt : (event : Event) → Calls 1 (attempt mc event)
  unfolding attempt
  Calls-attempt event = record { few = λ w. omega arith }

  Calls-wait_rounds :
      (m : Manager) (n : ℕ) (last : InstallError) → Calls (3 * n) (wait_rounds mc m n last)
  unfolding wait_rounds on_error throw
  Calls-wait_rounds m zero last = record { few = λ w. omega arith }
  Calls-wait_rounds m (suc n) last = record {
    few = λ w.
        let probed = attempt mc (probe (health_url m)) >> attempt mc (probe (ready_url m)) in
        omega (
          arith,
          handle-Calls (1 + 3 * n) (λ x. attempt mc pause >> wait_rounds mc m n x) (probed w)
              (λ x. Calls->> 1 (3 * n) (Calls-attempt pause) (Calls-wait_rounds m n x)),
          (Calls->> 1 1 (Calls-attempt (probe (health_url m)))
                (Calls-attempt (probe (ready_url m)))).few
              w,
        );
  }

-- The last two calls were a probe of the health and one of the readiness, and both succeeded.
abbrev pub IsReady : Machine → Manager → List Event → Type 0
IsReady mc m events =
    (es : List Event) × (events ≡ probe (ready_url m) ∷ probe (health_url m) ∷ es)
    × (mc.succeeds es (probe (health_url m)) ≡ true)
    × (mc.succeeds (probe (health_url m) ∷ es) (probe (ready_url m)) ≡ true)

handle-cases :
    {A : Type 0} (k : InstallError → Action A) (r : Result InstallError A × World) (a : A)
    → (handle k r).0 ≡ ok a
    → ((r.0 ≡ ok a) × (handle k r ≡ r))
      ⊎ ((x : InstallError) × ((k x r.1).0 ≡ ok a) × (handle k r ≡ k x r.1))
handle-cases k (ok b, w) a e = inl (e, refl)
handle-cases k (err x, w) a e = inr (x, e, refl)

module _ (mc : Machine) (m : Manager) where
  abbrev probes : Action (Unit {0})
  probes = attempt mc (probe (health_url m)) >> attempt mc (probe (ready_url m))

  attempt-ok :
      (event : Event) (w : World) (u : Unit {0})
      → (attempt mc event w).0 ≡ ok u
      → mc.succeeds w.events event ≡ true
  unfolding attempt
  attempt-ok event w u e = of_if (mc.succeeds w.events event) e
    where
      of_if : (b : Bool) → (if b then ok tt else err (call_failed event)) ≡ ok u → b ≡ true
      of_if true e = refl
      of_if false e = cc

  probes-IsReady :
      (w : World) (u : Unit {0}) → (probes w).0 ≡ ok u → IsReady mc m (probes w).1.events
  unfolding attempt ◌>>◌ ◌>>=◌
  probes-IsReady w u e =
      let health = attempt mc (probe (health_url m)) w in
      let ready = attempt mc (probe (ready_url m)) in
      let (v, first, second) = continue-ok (λ v. ready) health u e in
      (
        w.events,
        ap (λ (r : Result InstallError (Unit {0}) × World). r.1.events)
            (continue-eq (λ v. ready) health v first),
        attempt-ok _ w v first,
        attempt-ok _ health.1 u second,
      )

  wait_rounds-IsReady :
      (n : ℕ) (last : InstallError) (w : World) (u : Unit {0})
      → (wait_rounds mc m n last w).0 ≡ ok u
      → IsReady mc m (wait_rounds mc m n last w).1.events
  unfolding wait_rounds on_error throw ◌>>◌ ◌>>=◌
  wait_rounds-IsReady zero last w u e = cc
  wait_rounds-IsReady (suc n) last w u e =
      let next = λ (x : InstallError). attempt mc pause >> wait_rounds mc m n x in
      elim (handle-cases next (probes w) u e) [
        | inl (passed, is) ↦ subst IsReadyAt (sym is) (probes-IsReady w u passed)
        | inr (x, passed, is) ↦
            let paused = attempt mc pause (probes w).1 in
            let (v, first, second) = continue-ok (λ v. wait_rounds mc m n x) paused u passed in
            subst IsReadyAt (sym (is ∙ continue-eq (λ v. wait_rounds mc m n x) paused v first))
              (wait_rounds-IsReady n x paused.1 u second)
      ]
    where
      IsReadyAt : Result InstallError (Unit {0}) × World → Type 0
      IsReadyAt r = IsReady mc m r.1.events

  -- The wait comes to an end after at most 60 calls, and if it succeeds, its last two calls were probes
  -- of the health and of the readiness that succeeded.
  pub wait_ready_ends :
      (w : World)
      → (length (wait_ready mc m w).1.events ≤ 60 + length w.events)
        × ((wait_ready mc m w).0 ≡ ok tt → IsReady mc m (wait_ready mc m w).1.events)
  unfolding wait_ready
  wait_ready_ends w =
      ((Calls-wait_rounds mc m 20 not_ready).few w, wait_rounds-IsReady 20 not_ready w tt)
