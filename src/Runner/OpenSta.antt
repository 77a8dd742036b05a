-- ===== src/Runner/OpenSta.antt =====
-- src/eda_lab/runner.py: `OpenStaSubprocessAdapter`. The file system, the child process and what other
-- threads do to the adapter while it waits for the child are a `World`; what the adapter does to them
-- is its state. A float in a message is its text, `!r` of a text is that of one without quotes.
pub mod Run
pub mod Released
pub mod Cancel
use semiconductor_domain_lab.Prelude.{
  ℕ, String, Bool, true, false, not, ◌||◌, Option, none, some, List, [], ◌∷◌, ◌++◌, if◌then◌else◌,
  str_eq,
}
use semiconductor_domain_lab.Prelude.Text.{◌<>◌, has_char, file_name}
use semiconductor_domain_lab.Models.{ℤ, Json, Dict, JobSpec, AdapterRunResult}
use semiconductor_domain_lab.Service.Text.{show_ℕ}
use semiconductor_domain_lab.Runner.{AdapterError}

pub record Config : Type 0 where
  pub sta_path : String
  pub liberty_path : String
  pub fixture_dir : String
  pub sdc_name : Option String
  pub netlist_path : Option String
  pub script_name : String
  pub timeout_text : String
  pub expected_corner : Option String

pub data Signal : Type 0 where
  sigterm sigkill : Signal

-- The arguments of `Popen`: the command, its directory and the environment that is added.
pub record Launch : Type 0 where
  pub pid : ℕ
  pub command : List String
  pub cwd : String
  pub environment : List (String × String)

-- Observers are numbers; `notified` are those that were told of a child, the latest last.
pub record Adapter : Type 0 where
  pub process_observer : Option ℕ
  pub additional_observers : List ℕ
  pub processes : List (String × ℕ)
  pub cancelled_jobs : List String
  pub launched : List Launch
  pub signals : List (ℕ × Signal)
  pub copies : List (String × String)
  pub files : List (String × String)
  pub notified : List (ℕ × ℕ)

-- `communicate` with a timeout: the output and the return code, or TimeoutExpired.
pub data Waited : Type 0 where
  finished : String → String → ℤ → Waited
  expired : Waited

pub record World : Type 0 where
  pub is_file : String → Bool
  pub sha256 : String → String
  pub directory : String
  pub pid : ℕ
  pub is_running : ℕ → Bool
  pub meanwhile : Adapter → Adapter
  pub communicated : Waited
  pub after_sigterm : Waited
  pub after_sigkill : String × String

pub data Ran : Type 0 where
  returned : AdapterRunResult → Ran
  raised : AdapterError → Ran

-- self._processes.get(job_id)
unfoldable pub process_of : String → List (String × ℕ) → Option ℕ
process_of job_id [] = none
process_of job_id ((k, pid) ∷ rest) =
    let more = process_of job_id rest in if str_eq k job_id then some pid else more

-- self._processes.pop(job_id, None)
unfoldable pub pop_process : String → List (String × ℕ) → List (String × ℕ)
pop_process job_id [] = []
pop_process job_id ((k, pid) ∷ rest) =
    let more = pop_process job_id rest in if str_eq k job_id then more else (k, pid) ∷ more

-- self._processes[job_id] = process
abbrev pub set_process : String → ℕ → List (String × ℕ) → List (String × ℕ)
set_process job_id pid processes = (job_id, pid) ∷ pop_process job_id processes

unfoldable pub mem_text : String → List String → Bool
mem_text s [] = false
mem_text s (t ∷ rest) = let more = mem_text s rest in str_eq t s || more

-- A set: add and discard
abbrev pub add_text : String → List String → List String
add_text s texts = if mem_text s texts then texts else s ∷ texts

unfoldable pub discard : String → List String → List String
discard s [] = []
discard s (t ∷ rest) = let more = discard s rest in if str_eq t s then more else t ∷ more

-- A process that is gone is passed over: the signal is then without effect.
abbrev pub terminate_process_group : ℕ → Signal → Adapter → Adapter
terminate_process_group pid sig a = record a { signals = a.signals ++ (pid, sig) ∷ [] }

unfoldable pub cancel_process : World → String → Option ℕ → Adapter → Bool × Adapter
unfolding mem_text
cancel_process w job_id none a = (false, a)
cancel_process w job_id (some pid) a = if not (w.is_running pid) then (false, a) else (
  true,
  terminate_process_group pid Signal.sigterm
      (record a { cancelled_jobs = add_text job_id a.cancelled_jobs }),
)

unfoldable pub cancel : World → String → Adapter → Bool × Adapter
unfolding cancel_process process_of
cancel w job_id a = cancel_process w job_id (process_of job_id a.processes) a

unfoldable pub add_process_observer : ℕ → Adapter → Adapter
add_process_observer observer a = record a {
  additional_observers = a.additional_observers ++ observer ∷ [];
}

abbrev told : ℕ → Option ℕ → List (ℕ × ℕ)
told pid none = []
told pid (some observer) = (observer, pid) ∷ []

tell_all : ℕ → List ℕ → List (ℕ × ℕ)
tell_all pid [] = []
tell_all pid (observer ∷ rest) = (observer, pid) ∷ tell_all pid rest

unfoldable pub notify_process_started : ℕ → Adapter → Adapter
unfolding tell_all
notify_process_started pid a = record a {
  notified = a.notified ++ told pid a.process_observer ++ tell_all pid a.additional_observers;
}

-- What is found before a directory is made.
pub record Sources : Type 0 where
  pub script : String
  pub sdc : Option String
  pub netlist : String

pub data Found {ℓ} (A : Type ℓ) : Type ℓ where
  found : A → Found A
  refused : AdapterError → Found A

infixl 5 ◌>>=◌
abbrev ◌>>=◌ {ℓ κ} : {A : Type ℓ} {B : Type κ} → Found A → (A → Found B) → Found B
Found.refused e >>= k = Found.refused e
Found.found a >>= k = k a

abbrev require : Bool → AdapterError → Found (Unit {0})
require true e = Found.found tt
require false e = Found.refused e

abbrev required_fixture : Config → World → String → Found String
required_fixture c w name =
    let path = c.fixture_dir <> ("/" <> name) in
    if not (w.is_file path)
    then Found.refused
        (AdapterError.file_not_found ("required OpenSTA fixture is missing: " <> path))
    else Found.found path

abbrev sdc_of : Config → World → Option String → Found (Option String)
sdc_of c w none = Found.found none
sdc_of c w (some String.[]) = Found.found none
sdc_of c w (some (String.◌∷◌ x name)) = do
  path ← required_fixture c w (String.◌∷◌ x name)
  Found.found (some path)

abbrev netlist_of : Config → World → Option String → Found String
netlist_of c w (some path) = Found.found path
netlist_of c w none = required_fixture c w "tiny_mapped.v"

abbrev corner_fits : Option String → String → Bool
corner_fits none corner = true
corner_fits (some expected) corner = str_eq corner expected

abbrev expected_text : Option String → String
expected_text none = "None"
expected_text (some corner) = "'" <> (corner <> "'")

unfoldable pub find_sources : Config → World → JobSpec → Found Sources
unfolding ◌<>◌
find_sources c w spec = do
  _ ← require (corner_fits c.expected_corner spec.corner) (
      AdapterError.value_error (
        "OpenSTA adapter corner "
        <> (expected_text c.expected_corner
            <> (" does not match job corner '" <> (spec.corner <> "'")))))
  _ ←
      require (w.is_file c.sta_path)
        (AdapterError.file_not_found ("OpenSTA executable is missing: " <> c.sta_path))
  _ ←
      require (w.is_file c.liberty_path)
        (AdapterError.file_not_found ("OpenSTA Liberty file is missing: " <> c.liberty_path))
  script ← required_fixture c w c.script_name
  sdc ← sdc_of c w c.sdc_name
  netlist ← netlist_of c w c.netlist_path
  _ ←
      require (w.is_file netlist)
        (AdapterError.file_not_found ("required OpenSTA netlist is missing: " <> netlist))
  Found.found (record { script = script; sdc = sdc; netlist = netlist })
