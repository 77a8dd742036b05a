-- ===== src/Adapters/Busy.antt =====
-- src/eda_lab/adapters.py: an adapter whose resource is taken.
use semiconductor_domain_lab.Prelude.{String, true, some, ◌≡◌, refl}
use semiconductor_domain_lab.Adapters.{Fields, Value, Spec, Exception, Outcome, State}
use semiconductor_domain_lab.Adapters.Fixture.{
  Host, Kind, item, is_held, lock, take, acquire, run, fixture_methods,
}
use semiconductor_domain_lab.Adapters.Real.{Client, acquire_real, trace32_methods, aardvark_methods}

-- What every method does on a resource that is taken.
abbrev unavailable : {C A : Type 0} → State C → State C × Outcome A
unavailable s = (s, Outcome.raised (Exception.runtime_error "resource_unavailable"))

acquire-busy :
    {C : Type 0} (h : Host) (key : String) (spec : Spec) (s : State C) (v : Value)
    → is_held key s.held ≡ true
    → item spec "job_id" s ≡ (s, Outcome.returned v)
    → acquire h key spec s ≡ unavailable s
unfolding acquire take lock
acquire-busy h key spec s v busy found = rw found (rw busy refl)

-- While the lock of its resource is held, an adapter of either kind that is run on a specification
-- with a job raises "resource_unavailable" and changes nothing: its client is not called and the lock
-- of the other holder is not given back.
pub run-busy :
    {C : Type 0} (h : Host) (kind : Kind C) (trace32 : Client C String) (aardvark : Client C Fields)
    (key : String) (spec : Spec) (s : State C) (v : Value)
    → is_held key s.held ≡ true
    → item spec "job_id" s ≡ (s, Outcome.returned v)
    → (run (fixture_methods h kind key) spec s ≡ unavailable s)
      × (run (trace32_methods h (some trace32) key) spec s ≡ unavailable s)
      × (run (aardvark_methods h (some aardvark) key) spec s ≡ unavailable s)
unfolding run fixture_methods trace32_methods aardvark_methods acquire_real
run-busy h kind trace32 aardvark key spec s v busy found =
    let e = acquire-busy h key spec s v busy found in (rw e refl, rw e refl, rw e refl)
