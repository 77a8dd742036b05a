-- ===== src/Adapters/Fixture.antt =====
-- src/eda_lab/adapters.py: `FixtureAdapter` with its three subclasses. `str` of a value, the clock and
-- the directory that `mkdtemp` makes are a `Host`.
use semiconductor_domain_lab.Prelude.{
  ℕ, String, Bool, true, false, not, ◌||◌, List, [], ◌∷◌, ◌++◌, if◌then◌else◌, str_eq,
}
use semiconductor_domain_lab.Prelude.Text.{◌<>◌}
use semiconductor_domain_lab.Models.{pos}
use semiconductor_domain_lab.Adapters.{
  Value, Spec, get, Exception, Outcome, Lease, RawResult, ArtifactSet, Step, ◌>>=◌, return, raise,
  try_finally,
}

pub record Host : Type 0 where
  pub str : Value → String
  pub now : ℕ
  pub directory : String

-- spec[key]
unfoldable pub item : {C : Type 0} → Spec → String → Step C Value
item [] key = raise (Exception.key_error key)
item ((k, v) ∷ spec) key = let rest = item spec key in if str_eq k key then return v else rest

unfoldable pub is_held : String → List String → Bool
is_held key [] = false
is_held key (k ∷ held) = let rest = is_held key held in str_eq k key || rest

unfoldable pub free : String → List String → List String
free key [] = []
free key (k ∷ held) = let rest = free key held in if str_eq k key then held else k ∷ rest

-- lock.acquire(blocking=False), and the exception where it fails
unfoldable pub lock : {C : Type 0} → String → Step C (Unit {0})
unfolding is_held
lock key s =
    if is_held key s.held
    then (s, Outcome.raised (Exception.runtime_error "resource_unavailable"))
    else (record s { held = key ∷ s.held }, Outcome.returned tt)

-- lock.release()
unfoldable pub unlock : {C : Type 0} → String → Step C (Unit {0})
unfolding is_held free
unlock key s =
    if is_held key s.held
    then (record s { held = free key s.held }, Outcome.returned tt)
    else (s, Outcome.raised (Exception.runtime_error "release unlocked lock"))

-- Once the owner is known.
unfoldable pub take : {C : Type 0} → String → Lease → Step C Lease
unfolding lock
take resource_key lease = do _ ← lock resource_key; return lease

unfoldable pub acquire : {C : Type 0} → Host → String → Spec → Step C Lease
unfolding item take
acquire h resource_key spec = do
  job_id ← item spec "job_id"
  take resource_key
      (record { resource_key = resource_key; owner_id = h.str job_id; acquired_at = h.now })

-- Which class the adapter is of, with its `_payload`.
pub record Kind (C : Type 0) : Type 0 where
  pub adapter_name : String
  pub payload : Spec → Step C Spec

abbrev pub is_text : String → Value → Bool
is_text s (Value.text t) = str_eq t s
is_text s _ = false

unfoldable pub fixture_result : {C : Type 0} → String → Spec → Step C RawResult
fixture_result adapter_name payload = return (record {
  source_kind = "fixture";
  adapter = adapter_name;
  execution_status = "SUCCEEDED";
  transport_status = "OK";
  payload = payload;
})

-- The profile decides once the lease is the adapter's own.
unfoldable pub perform : {C : Type 0} → Kind C → Value → Spec → Step C RawResult
unfolding fixture_result
perform kind profile spec =
    if is_text "timeout" profile
    then raise (Exception.timeout_error "synthetic timeout")
    else if is_text "transport_error" profile
    then raise (Exception.connection_error "synthetic transport error")
    else kind.payload spec >>= fixture_result kind.adapter_name

unfoldable pub execute : {C : Type 0} → Kind C → String → Lease → Spec → Step C RawResult
unfolding get perform
execute kind resource_key lease spec =
    if not (str_eq lease.resource_key resource_key)
    then raise (Exception.value_error "lease does not belong to adapter resource")
    else perform kind (get spec "profile" (Value.text "normal")) spec

-- The file holds the JSON text of the result's fields.
unfoldable pub collect : {C : Type 0} → Host → RawResult → Step C ArtifactSet
unfolding ◌<>◌
collect h raw s =
    let path = h.directory <> ("/" <> (raw.adapter <> ".json")) in
    (
      record s { artifacts = s.artifacts ++ (path, raw) ∷ [] },
      Outcome.returned
          (record { paths = path ∷ []; source_kind = raw.source_kind; adapter = raw.adapter }),
    )

unfoldable pub release : {C : Type 0} → String → Lease → Step C (Unit {0})
unfolding unlock
release resource_key lease =
    if not (str_eq lease.resource_key resource_key)
    then raise (Exception.value_error "lease does not belong to adapter resource")
    else unlock resource_key

-- The methods that `run` finds on the adapter's class.
pub record Methods (C : Type 0) : Type 0 where
  pub acquire_lease : Spec → Step C Lease
  pub execute_lease : Lease → Spec → Step C RawResult
  pub collect_result : RawResult → Step C ArtifactSet
  pub release_lease : Lease → Step C (Unit {0})

unfoldable pub run : {C : Type 0} → Methods C → Spec → Step C ArtifactSet
run m spec = do
  lease ← m.acquire_lease spec
  try_finally (m.execute_lease lease spec >>= m.collect_result) (m.release_lease lease)

unfoldable pub fixture_methods : {C : Type 0} → Host → Kind C → String → Methods C
unfolding acquire execute collect release
fixture_methods h kind resource_key = record {
  acquire_lease = acquire h resource_key;
  execute_lease = execute kind resource_key;
  collect_result = collect h;
  release_lease = release resource_key;
}

unfoldable pub fixture : {C : Type 0} → Kind C
unfolding item get
fixture = record {
  adapter_name = "fixture";
  payload = λ spec. do
    job_id ← item spec "job_id"
    return (("job_id", job_id) ∷ ("profile", get spec "profile" (Value.text "normal")) ∷ []);
}

unfoldable pub fixture_trace32 : {C : Type 0} → Kind C
unfolding item get
fixture_trace32 = record {
  adapter_name = "trace32";
  payload = λ spec. do
    job_id ← item spec "job_id"
    return (
        ("job_id", job_id)
        ∷ ("commands", get spec "commands" (Value.texts ("SYStem.Mode Up" ∷ [])))
        ∷ ("registers", get spec "registers" (Value.fields (("PC", "0x00000000") ∷ [])))
        ∷ ("target_halted", get spec "target_halted" (Value.boolean true))
        ∷ []);
}

unfoldable pub fixture_aardvark : {C : Type 0} → Kind C
unfolding item get
fixture_aardvark = record {
  adapter_name = "aardvark";
  payload = λ spec. do
    job_id ← item spec "job_id"
    return (
        ("job_id", job_id)
        ∷ ("bus", get spec "bus" (Value.text "I2C"))
        ∷ ("address_or_cs", get spec "address_or_cs" (Value.text "0x50"))
        ∷ ("read_bytes", get spec "read_bytes" (Value.text "aabbccdd"))
        ∷ []);
}

unfoldable pub fixture_eda : {C : Type 0} → Kind C
unfolding item get
fixture_eda = record {
  adapter_name = "eda";
  payload = λ spec. do
    job_id ← item spec "job_id"
    return (
        ("job_id", job_id)
        ∷ ("tool_name", get spec "tool_name" (Value.text "synthetic-eda"))
        ∷ ("flow_name", get spec "flow_name" (Value.text "timing"))
        ∷ ("exit_code", get spec "exit_code" (Value.integer (pos 0)))
        ∷ ("report_names", get spec "report_names" (Value.texts ("timing.report" ∷ [])))
        ∷ []);
}
