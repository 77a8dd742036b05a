-- ===== src/Adapters/Released.antt =====
-- src/eda_lab/adapters.py: the fixture and the real adapters give the lock of their resource back.
use mathlib.Core.Path.{subst}
use semiconductor_domain_lab.Prelude.{
  String, Bool, true, false, not, Option, none, some, List, [], ◌∷◌, ◌≡◌, refl, ap, arith, str_eq,
  str_eq_refl, if◌then◌else◌,
}
use semiconductor_domain_lab.Adapters.{
  Fields, Value, Spec, get, Exception, Outcome, Lease, State, Step, ◌>>=◌, return, after, raise,
}
use semiconductor_domain_lab.Adapters.Fixture.{
  Host, Kind, item, is_held, is_text, take, fixture_result, perform, free, release, lock, unlock,
  acquire, execute, collect, run, fixture_methods,
}
use semiconductor_domain_lab.Adapters.Real.{
  Client, call, commands_of, transactions_of, real_result, real_payload, get_optional, commands,
  connect_or_release, after_connect, acquire_real, replies_of, execute_real, close_client,
  release_real, trace32_methods, aardvark_methods,
}
use semiconductor_domain_lab.Adapters.Lifecycle.{Keeps, bind-Keeps, Acquired, Lifecycle, run-held}

item-Keeps : {C : Type 0} (spec : Spec) (key : String) → Keeps {C = C} (item spec key)
unfolding item
item-Keeps [] key s = refl
item-Keeps ((k, v) ∷ spec) key s = ground (arith, item-Keeps spec key s)

commands-Keeps : {C I : Type 0} (client : Client C I) (cs : List I) → Keeps (commands client cs)
unfolding commands
commands-Keeps client [] s = refl
commands-Keeps client (c ∷ rest) s =
    bind-Keeps (call (client.command c))
      (λ reply. commands client rest >>= (λ replies. return (reply ∷ replies))) (λ t. refl)
      (λ reply.
        bind-Keeps (commands client rest) (λ replies. return (reply ∷ replies))
          (commands-Keeps client rest) (λ replies t. refl))
      s

if-Keeps :
    {C A : Type 0} (b : Bool) (x y : Step C A) → Keeps x → Keeps y → Keeps (if b then x else y)
if-Keeps true x y h k = h
if-Keeps false x y h k = k

-- Where the job's name is known, the rest of the acquisition.
take-Acquired :
    {C : Type 0} (key : String) (lease : Lease) (s : State C)
    → lease.resource_key ≡ key
    → Acquired key s.held (take key lease s)
unfolding Acquired lock take
take-Acquired key lease s e =
    elim (is_held key s.held)
        as (λ busy.
          is_held key s.held ≡ busy
          → Acquired key s.held (
              after (λ _. return lease)
                (if busy
                  then (s, Outcome.raised (Exception.runtime_error "resource_unavailable"))
                  else (record s { held = key ∷ s.held }, Outcome.returned tt)))) [
                    | true ↦ (λ busy. refl)
                    | false ↦ (λ idle. (refl, e, idle))
                  ]
      refl

after_item-Acquired :
    {C : Type 0} (key : String) (held : List String) (lease_of : Value → Lease)
    (r : State C × Outcome Value)
    → ((v : Value) → (lease_of v).resource_key ≡ key)
    → r.0.held ≡ held
    → Acquired key held (after (λ v. take key (lease_of v)) r)
unfolding Acquired
after_item-Acquired key held lease_of (s, Outcome.raised x) k e = e
after_item-Acquired key held lease_of (s, Outcome.returned v) k e =
    subst (λ l. Acquired key l (take key (lease_of v) s)) e (take-Acquired key (lease_of v) s (k v))

acquire-Acquired :
    {C : Type 0} (h : Host) (key : String) (spec : Spec) (s : State C)
    → Acquired key s.held (acquire h key spec s)
unfolding Acquired acquire
acquire-Acquired h key spec s =
    after_item-Acquired key s.held
      (λ v. record { resource_key = key; owner_id = h.str v; acquired_at = h.now })
      (item spec "job_id" s) (λ v. refl) (item-Keeps spec "job_id" s)

release_lem :
    {C : Type 0} (key : String) (lease : Lease) (held : List String) (s : State C)
    → lease.resource_key ≡ key
    → s.held ≡ key ∷ held
    → release key lease s ≡ (record s { held = held }, Outcome.returned tt)
unfolding release unlock is_held free
release_lem key lease held s k e = rw k (rw (str_eq_refl key) (rw e (rw (str_eq_refl key) refl)))

release-held :
    {C : Type 0} (key : String) (lease : Lease) (held : List String) (s : State C)
    → lease.resource_key ≡ key
    → s.held ≡ key ∷ held
    → (release key lease s).0.held ≡ held
release-held key lease held s k e = ap (λ r. r.0.held) (release_lem key lease held s k e)

perform-Keeps :
    {C : Type 0} (kind : Kind C) (profile : Value) (spec : Spec)
    → Keeps (kind.payload spec)
    → Keeps (perform kind profile spec)
unfolding perform fixture_result
perform-Keeps kind profile spec keeps =
    if-Keeps (is_text "timeout" profile) (raise (Exception.timeout_error "synthetic timeout")) _
      (λ s. refl)
      (if-Keeps (is_text "transport_error" profile)
        (raise (Exception.connection_error "synthetic transport error"))
        (kind.payload spec >>= fixture_result kind.adapter_name) (λ s. refl)
        (bind-Keeps (kind.payload spec) (fixture_result kind.adapter_name) keeps (λ p s. refl)))

execute-Keeps :
    {C : Type 0} (kind : Kind C) (key : String) (lease : Lease) (spec : Spec)
    → ((spec : Spec) → Keeps (kind.payload spec))
    → Keeps (execute kind key lease spec)
unfolding execute
execute-Keeps kind key lease spec keeps =
    if-Keeps (not (str_eq lease.resource_key key))
      (raise (Exception.value_error "lease does not belong to adapter resource"))
      (perform kind (get spec "profile" (Value.text "normal")) spec) (λ s. refl)
      (perform-Keeps kind (get spec "profile" (Value.text "normal")) spec (keeps spec))

pub fixture-Lifecycle :
    {C : Type 0} (h : Host) (kind : Kind C) (key : String)
    → ((spec : Spec) → Keeps (kind.payload spec))
    → Lifecycle key (fixture_methods h kind key)
unfolding fixture_methods collect
fixture-Lifecycle h kind key keeps = record {
  acquiring = acquire-Acquired h key;
  executing = λ lease spec. execute-Keeps kind key lease spec keeps;
  collecting = λ raw s. refl;
  releasing = release-held key;
}

after_connect-Acquired :
    {C : Type 0} (key : String) (held : List String) (lease : Lease)
    (r : State C × Outcome (Unit {0}))
    → Acquired key held (r.0, Outcome.returned lease)
    → Acquired key held (after_connect key lease r)
unfolding Acquired after_connect
after_connect-Acquired key held lease (s, Outcome.returned _) got = got
after_connect-Acquired key held lease (s, Outcome.raised e) got =
    rw (release_lem key lease held s got.1 got.0) refl

-- `connect` of the client, and the lock given back where it raises.
connect-Acquired :
    {C I : Type 0} (client : Client C I) (key : String) (endpoint : Option Value)
    (held : List String) (r : State C × Outcome Lease)
    → Acquired key held r
    → Acquired key held (after (connect_or_release client key endpoint) r)
unfolding Acquired connect_or_release
connect-Acquired client key endpoint held (s, Outcome.raised e) got = got
connect-Acquired client key endpoint held (s, Outcome.returned lease) got =
    after_connect-Acquired key held lease (call (client.connect endpoint) s) got

acquire_real-Acquired :
    {C I : Type 0} (h : Host) (client : Option (Client C I)) (message option key : String)
    (spec : Spec) (s : State C)
    → Acquired key s.held (acquire_real h client message option key spec s)
unfolding Acquired acquire_real
acquire_real-Acquired h none message option key spec s = refl
acquire_real-Acquired h (some client) message option key spec s =
    connect-Acquired client key (get_optional spec option) s.held (acquire h key spec s)
      (acquire-Acquired h key spec s)

replies_of-Keeps :
    {C I : Type 0} (client : Option (Client C I)) (missing : String) (cs : List I)
    → Keeps (replies_of client missing cs)
unfolding replies_of
replies_of-Keeps none missing [] = λ s. refl
replies_of-Keeps none missing (c ∷ rest) = λ s. refl
replies_of-Keeps (some client) missing cs = commands-Keeps client cs

execute_real-Keeps :
    {C I : Type 0} (client : Option (Client C I)) (missing name : String)
    (items : Option Value → List I) (option : String) (spec : Spec)
    → Keeps (execute_real client missing name items option spec)
unfolding execute_real real_result
execute_real-Keeps client missing name items option spec =
    bind-Keeps (replies_of client missing (items (get_optional spec option)))
      (real_result name spec) (replies_of-Keeps client missing (items (get_optional spec option)))
      (λ replies.
        bind-Keeps (item spec "job_id") (real_payload name replies) (item-Keeps spec "job_id")
          (λ v s. refl))

release_real-held :
    {C I : Type 0} (client : Option (Client C I)) (key : String) (lease : Lease)
    (held : List String) (s : State C)
    → lease.resource_key ≡ key
    → s.held ≡ key ∷ held
    → (release_real client key lease s).0.held ≡ held
unfolding release_real close_client
release_real-held none key lease held s k e = release-held key lease held s k e
release_real-held (some client) key lease held s k e =
    release-held key lease held (call client.close s).0 k e

pub trace32-Lifecycle :
    {C : Type 0} (h : Host) (client : Option (Client C String)) (key : String)
    → Lifecycle key (trace32_methods h client key)
unfolding trace32_methods collect
trace32-Lifecycle h client key = record {
  acquiring = acquire_real-Acquired h client _ "endpoint" key;
  executing = λ lease spec. execute_real-Keeps client _ "trace32" commands_of "commands" spec;
  collecting = λ raw s. refl;
  releasing = release_real-held client key;
}

pub aardvark-Lifecycle :
    {C : Type 0} (h : Host) (client : Option (Client C Fields)) (key : String)
    → Lifecycle key (aardvark_methods h client key)
unfolding aardvark_methods collect
aardvark-Lifecycle h client key = record {
  acquiring = acquire_real-Acquired h client _ "device_id" key;
  executing =
      λ lease spec. execute_real-Keeps client _ "aardvark" transactions_of "transactions" spec;
  collecting = λ raw s. refl;
  releasing = release_real-held client key;
}

-- A run of a real adapter gives the lock of its resource back on every outcome, whatever its client
-- does: the locks that are held after it are those that were held before it, when no client is
-- configured, when the resource is taken, when connecting, a command, or closing raises, and when an
-- artifact is made. So it is for the TRACE32 and for the Aardvark adapter.
pub run-real_held :
    {C : Type 0} (h : Host) (trace32 : Option (Client C String))
    (aardvark : Option (Client C Fields)) (key : String) (spec : Spec) (s : State C)
    → ((run (trace32_methods h trace32 key) spec s).0.held ≡ s.held)
      × ((run (aardvark_methods h aardvark key) spec s).0.held ≡ s.held)
run-real_held h trace32 aardvark key spec s = (
  run-held key (trace32_methods h trace32 key) spec s (trace32-Lifecycle h trace32 key),
  run-held key (aardvark_methods h aardvark key) spec s (aardvark-Lifecycle h aardvark key),
)
