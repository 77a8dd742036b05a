-- ===== src/Adapters/Real.antt =====
-- src/eda_lab/adapters.py: `RealTrace32Adapter` and `RealAardvarkAdapter`. The injected client is its
-- operations on a state of its own; each may raise. A reply of the Aardvark binding is its text.
use semiconductor_domain_lab.Prelude.{
  String, Option, none, some, List, [], ◌∷◌, if◌then◌else◌, str_eq,
}
use semiconductor_domain_lab.Adapters.{
  Fields, Value, Spec, Exception, Outcome, Lease, RawResult, State, Step, ◌>>=◌, return, raise,
  try_finally,
}
use semiconductor_domain_lab.Adapters.Fixture.{Host, Methods, item, acquire, collect, release}

-- `connect`, `command` and `close` of a TRACE32 client; `open`, `transfer` and `close` of an Aardvark
-- client. What is not in the dictionary is None.
pub record Client (C I : Type 0) : Type 0 where
  pub connect : Option Value → C → C × Outcome (Unit {0})
  pub command : I → C → C × Outcome String
  pub close : C → C × Outcome (Unit {0})

-- A call of the client.
abbrev pub call : {C A : Type 0} → (C → C × Outcome A) → Step C A
call f s = (record s { client = (f s.client).0 }, (f s.client).1)

-- spec.get(key)
unfoldable pub get_optional : Spec → String → Option Value
get_optional [] key = none
get_optional ((k, v) ∷ spec) key =
    let rest = get_optional spec key in if str_eq k key then some v else rest

abbrev pub commands_of : Option Value → List String
commands_of (some (Value.texts commands)) = commands
commands_of _ = []

abbrev pub transactions_of : Option Value → List Fields
transactions_of (some (Value.transactions transactions)) = transactions
transactions_of _ = []

-- [client.command(command) for command in commands]
unfoldable pub commands : {C I : Type 0} → Client C I → List I → Step C (List String)
commands client [] = return []
commands client (c ∷ rest) = do
  reply ← call (client.command c)
  replies ← commands client rest
  return (reply ∷ replies)

-- try: connect, except Exception: release and raise
unfoldable pub after_connect :
    {C : Type 0} → String → Lease → State C × Outcome (Unit {0}) → State C × Outcome Lease
unfolding release
after_connect resource_key lease (s, Outcome.returned _) = (s, Outcome.returned lease)
after_connect resource_key lease (s, Outcome.raised e) =
    (release resource_key lease >>= (λ _. raise e)) s

unfoldable pub connect_or_release :
    {C I : Type 0} → Client C I → String → Option Value → Lease → Step C Lease
unfolding after_connect
connect_or_release client resource_key endpoint lease s =
    after_connect resource_key lease (call (client.connect endpoint) s)

unfoldable pub acquire_real :
    {C I : Type 0} → Host → Option (Client C I) → String → String → String → Spec → Step C Lease
unfolding acquire connect_or_release get_optional
acquire_real h none message key resource_key spec = raise (Exception.runtime_error message)
acquire_real h (some client) message key resource_key spec = do
  lease ← acquire h resource_key spec
  connect_or_release client resource_key (get_optional spec key) lease

unfoldable pub real_payload : {C : Type 0} → String → List String → Value → Step C RawResult
real_payload name replies job_id = return (record {
  source_kind = "real";
  adapter = name;
  execution_status = "SUCCEEDED";
  transport_status = "OK";
  payload = ("job_id", job_id) ∷ ("responses", Value.texts replies) ∷ [];
})

unfoldable pub real_result : {C : Type 0} → String → Spec → List String → Step C RawResult
unfolding item real_payload
real_result name spec replies = item spec "job_id" >>= real_payload name replies

-- The replies; without a client the first command raises, which `acquire` has kept from happening.
unfoldable pub replies_of :
    {C I : Type 0} → Option (Client C I) → String → List I → Step C (List String)
unfolding commands
replies_of none missing [] = return []
replies_of none missing (c ∷ rest) = raise (Exception.attribute_error missing)
replies_of (some client) missing cs = commands client cs

unfoldable pub execute_real :
    {C I : Type 0}
    → Option (Client C I)
    → String
    → String
    → (Option Value → List I)
    → String
    → Spec
    → Step C RawResult
unfolding replies_of get_optional real_result
execute_real client missing name items key spec =
    replies_of client missing (items (get_optional spec key)) >>= real_result name spec

unfoldable pub close_client : {C I : Type 0} → Option (Client C I) → Step C (Unit {0})
close_client none = return tt
close_client (some client) = call client.close

unfoldable pub release_real :
    {C I : Type 0} → Option (Client C I) → String → Lease → Step C (Unit {0})
unfolding close_client release
release_real client resource_key lease =
    try_finally (close_client client) (release resource_key lease)

unfoldable pub trace32_methods : {C : Type 0} → Host → Option (Client C String) → String → Methods C
unfolding acquire_real execute_real release_real collect
trace32_methods h client resource_key = record {
  acquire_lease =
      acquire_real h client "configuration_error: TRACE32 client is not configured" "endpoint"
        resource_key;
  execute_lease = λ lease spec.
      execute_real client "'NoneType' object has no attribute 'command'" "trace32" commands_of
        "commands" spec;
  collect_result = collect h;
  release_lease = release_real client resource_key;
}

unfoldable pub aardvark_methods :
    {C : Type 0} → Host → Option (Client C Fields) → String → Methods C
unfolding acquire_real execute_real release_real collect
aardvark_methods h client resource_key = record {
  acquire_lease =
      acquire_real h client "configuration_error: Aardvark client is not configured" "device_id"
        resource_key;
  execute_lease = λ lease spec.
      execute_real client "'NoneType' object has no attribute 'transfer'" "aardvark" transactions_of
        "transactions" spec;
  collect_result = collect h;
  release_lease = release_real client resource_key;
}
