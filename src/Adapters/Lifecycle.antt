-- ===== src/Adapters/Lifecycle.antt =====
-- src/eda_lab/adapters.py: the lock of a resource over the lifecycle of an adapter, from what `run` relies
-- on.
use semiconductor_domain_lab.Prelude.{String, false, List, ◌∷◌, ◌≡◌, ◌∙◌}
use semiconductor_domain_lab.Adapters.{
  Spec, Outcome, Lease, RawResult, State, Step, ◌>>=◌, after, try_finally,
}
use semiconductor_domain_lab.Adapters.Fixture.{Methods, is_held, run}

-- A step that leaves the locks as they are.
abbrev pub Keeps : {C A : Type 0} → Step C A → Type 0
Keeps {C = C} m = (s : State C) → (m s).0.held ≡ s.held

pub after-held :
    {C A B : Type 0} (k : A → Step C B) (h : List String) (r : State C × Outcome A)
    → r.0.held ≡ h
    → ((a : A) → Keeps (k a))
    → (after k r).0.held ≡ h
after-held k h (s, Outcome.returned a) e keeps = keeps a s ∙ e
after-held k h (s, Outcome.raised x) e keeps = e

pub bind-Keeps :
    {C A B : Type 0} (m : Step C A) (k : A → Step C B)
    → Keeps m
    → ((a : A) → Keeps (k a))
    → Keeps (m >>= k)
bind-Keeps m k h keeps s = after-held k s.held (m s) (h s) keeps

-- What an acquisition of the lock of `key` leaves.
unfoldable pub Acquired : {C : Type 0} → String → List String → State C × Outcome Lease → Type 0
Acquired key held (s, Outcome.returned lease) =
    (s.held ≡ key ∷ held) × (lease.resource_key ≡ key) × (is_held key held ≡ false)
Acquired key held (s, Outcome.raised e) = s.held ≡ held

pub record Lifecycle {C : Type 0} (key : String) (m : Methods C) : Type 0 where
  pub acquiring : (spec : Spec) (s : State C) → Acquired key s.held (m.acquire_lease spec s)
  pub executing : (lease : Lease) (spec : Spec) → Keeps (m.execute_lease lease spec)
  pub collecting : (raw : RawResult) → Keeps (m.collect_result raw)
  pub releasing :
      (lease : Lease) (held : List String) (s : State C)
      → lease.resource_key ≡ key
      → s.held ≡ key ∷ held
      → (m.release_lease lease s).0.held ≡ held

run-held_of :
    {C : Type 0} (key : String) (m : Methods C) (held : List String) (spec : Spec)
    → Lifecycle key m
    → (r : State C × Outcome Lease) → Acquired key held r
    → (after
        (λ lease.
          try_finally (m.execute_lease lease spec >>= m.collect_result) (m.release_lease lease))
        r).0.held
      ≡ held
unfolding Acquired
run-held_of key m held spec l (s, Outcome.returned lease) got = l.releasing lease held _ got.1 (
    bind-Keeps (m.execute_lease lease spec) m.collect_result (l.executing lease spec)
      (λ raw. l.collecting raw) s
    ∙ got.0)
run-held_of key m held spec l (s, Outcome.raised e) got = got

pub run-held :
    {C : Type 0} (key : String) (m : Methods C) (spec : Spec) (s : State C)
    → Lifecycle key m
    → (run m spec s).0.held ≡ s.held
unfolding run
run-held key m spec s l =
    run-held_of key m s.held spec l (m.acquire_lease spec s) (l.acquiring spec s)
