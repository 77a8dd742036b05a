-- ===== src/Adapters/Clients.antt =====
-- src/eda_lab/clients.py: the clients that the real adapters are given. `subprocess.run` and the
-- installed Aardvark binding are parameters; an endpoint is a text, and a device's identifier a number.
use semiconductor_domain_lab.Prelude.{
  ℕ, String, Bool, true, false, not, ◌&&◌, Option, none, some, List, [], ◌∷◌, ◌++◌, if◌then◌else◌,
}
use semiconductor_domain_lab.Prelude.Text.{◌<>◌, strip}
use semiconductor_domain_lab.Models.{ℤ, is_zero}
use semiconductor_domain_lab.Adapters.{Fields, Value, Exception, Outcome}
use semiconductor_domain_lab.Adapters.Real.{Client}

-- The endpoint of a configuration; its timeout goes to the runner as it is.
pub record Trace32ClientConfig : Type 0 where
  pub executable : String
  pub endpoint : Option String
  pub timeout_seconds : ℕ

-- What the runner gives: the completed process, or one of the exceptions that are caught.
pub data Completed : Type 0 where
  completed : ℤ → String → String → Completed
  file_not_found timeout_expired : Completed

pub record Trace32 : Type 0 where
  pub config : Trace32ClientConfig
  pub connected : Bool

abbrev or_else {ℓ} : {A : Type ℓ} → Option A → Option A → Option A
or_else none b = b
or_else (some a) b = some a

-- An endpoint that is "" is as None.
abbrev endpoint_of : Option Value → Option String
endpoint_of (some (Value.text String.[])) = none
endpoint_of (some (Value.text (String.◌∷◌ c s))) = some (String.◌∷◌ c s)
endpoint_of _ = none

unfoldable pub trace32_connect : Option Value → Trace32 → Trace32 × Outcome (Unit {0})
trace32_connect endpoint t = (
  record {
    config = record {
      executable = t.config.executable;
      endpoint = or_else (endpoint_of endpoint) t.config.endpoint;
      timeout_seconds = t.config.timeout_seconds;
    };
    connected = true;
  },
  Outcome.returned tt,
)

endpoint_args : Option String → List String
endpoint_args none = []
endpoint_args (some String.[]) = []
endpoint_args (some (String.◌∷◌ c s)) = "-p" ∷ String.◌∷◌ c s ∷ []

abbrev reply_of : Completed → Outcome String
reply_of Completed.file_not_found =
    Outcome.raised (Exception.runtime_error "configuration_error: t32rem executable not found")
reply_of Completed.timeout_expired =
    Outcome.raised (Exception.timeout_error "TRACE32 command timeout")
reply_of (Completed.completed code stdout stderr) =
    if not (is_zero code)
    then Outcome.raised (Exception.connection_error ("TRACE32 command failed: " <> strip stderr))
    else Outcome.returned stdout

unfoldable pub trace32_command :
    (List String → ℕ → Completed) → String → Trace32 → Trace32 × Outcome String
unfolding endpoint_args ◌<>◌ strip
trace32_command runner command t =
    if not t.connected
    then (
      t,
      Outcome.raised
          (Exception.runtime_error "configuration_error: TRACE32 client is not connected"),
    )
    else (
      t,
      reply_of (
          runner (t.config.executable ∷ endpoint_args t.config.endpoint ++ command ∷ [])
            t.config.timeout_seconds),
    )

unfoldable pub trace32_close : Trace32 → Trace32 × Outcome (Unit {0})
trace32_close t = (record t { connected = false }, Outcome.returned tt)

unfoldable pub trace32_client : (List String → ℕ → Completed) → Client Trace32 String
unfolding trace32_connect trace32_command trace32_close
trace32_client runner = record {
  connect = trace32_connect;
  command = trace32_command runner;
  close = trace32_close;
}

-- The binding: what `import_module` finds, with its handles, and what its calls give.
pub record Binding : Type 0 where
  pub installed : Bool
  pub open_device : ℤ → Outcome ℕ
  pub transfer : ℕ → Fields → Outcome String
  pub close_handle : ℕ → Outcome (Unit {0})

pub record Aardvark : Type 0 where
  pub device_id : ℤ
  pub module_loaded : Bool
  pub handle : Option ℕ

abbrev device_of : Option Value → ℤ → ℤ
device_of (some (Value.integer n)) device_id = n
device_of _ device_id = device_id

abbrev message_of : Exception → String
message_of (Exception.key_error m) = m
message_of (Exception.attribute_error m) = m
message_of (Exception.runtime_error m) = m
message_of (Exception.value_error m) = m
message_of (Exception.timeout_error m) = m
message_of (Exception.connection_error m) = m

opened : Aardvark → Outcome ℕ → Aardvark × Outcome (Unit {0})
unfolding ◌<>◌
opened a (Outcome.returned handle) =
    (record a { module_loaded = true; handle = some handle }, Outcome.returned tt)
opened a (Outcome.raised e) = (
  record a { module_loaded = true },
  Outcome.raised (Exception.connection_error ("Aardvark open failed: " <> message_of e)),
)

unfoldable pub aardvark_open : Binding → Option Value → Aardvark → Aardvark × Outcome (Unit {0})
unfolding opened
aardvark_open b device_id a =
    if not a.module_loaded && not b.installed
    then (
      a,
      Outcome.raised
          (Exception.runtime_error "configuration_error: Aardvark Python binding not installed"),
    )
    else opened a (b.open_device (device_of device_id a.device_id))

transferred : Outcome String → Outcome String
unfolding ◌<>◌
transferred (Outcome.returned reply) = Outcome.returned reply
transferred (Outcome.raised (Exception.timeout_error m)) =
    Outcome.raised (Exception.timeout_error m)
transferred (Outcome.raised e) =
    Outcome.raised (Exception.connection_error ("Aardvark transfer failed: " <> message_of e))

transfer_on : Binding → Fields → Option ℕ → Outcome String
unfolding transferred
transfer_on b transaction none =
    Outcome.raised (Exception.runtime_error "configuration_error: Aardvark client is not open")
transfer_on b transaction (some handle) = transferred (b.transfer handle transaction)

unfoldable pub aardvark_transfer : Binding → Fields → Aardvark → Aardvark × Outcome String
unfolding transfer_on
aardvark_transfer b transaction a = (a, transfer_on b transaction a.handle)

-- When closing the handle raises, the handle is kept.
closed : Aardvark → Outcome (Unit {0}) → Aardvark × Outcome (Unit {0})
closed a (Outcome.returned _) = (record a { handle = none }, Outcome.returned tt)
closed a (Outcome.raised e) = (a, Outcome.raised e)

close_on : Binding → Aardvark → Option ℕ → Aardvark × Outcome (Unit {0})
unfolding closed
close_on b a none = (record a { handle = none }, Outcome.returned tt)
close_on b a (some handle) =
    if a.module_loaded
    then closed a (b.close_handle handle)
    else (record a { handle = none }, Outcome.returned tt)

unfoldable pub aardvark_close : Binding → Aardvark → Aardvark × Outcome (Unit {0})
unfolding close_on
aardvark_close b a = close_on b a a.handle

unfoldable pub aardvark_client : Binding → Client Aardvark Fields
unfolding aardvark_open aardvark_transfer aardvark_close
aardvark_client b = record {
  connect = aardvark_open b;
  command = aardvark_transfer b;
  close = aardvark_close b;
}
