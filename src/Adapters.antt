-- ===== src/Adapters.antt =====
-- src/eda_lab/adapters.py: the dataclasses, the dictionaries that the adapters take and give, and the
-- state that their methods change. A time is a number.
pub mod Fixture
pub mod Real
pub mod Lifecycle
pub mod Released
pub mod Busy
pub mod Clients
pub mod Replay
use semiconductor_domain_lab.Prelude.{ℕ, String, Bool, List, [], ◌∷◌, if◌then◌else◌, str_eq}
use semiconductor_domain_lab.Models.{ℤ}

abbrev pub Fields : Type 0
Fields = List (String × String)

-- The values of the dictionaries; `transactions` is a list of dictionaries.
pub data Value : Type 0 where
  text : String → Value
  integer : ℤ → Value
  boolean : Bool → Value
  texts : List String → Value
  fields : Fields → Value
  transactions : List Fields → Value

abbrev pub Spec : Type 0
Spec = List (String × Value)

-- spec.get(key, default)
unfoldable pub get : Spec → String → Value → Value
get [] key default = default
get ((k, v) ∷ spec) key default =
    let rest = get spec key default in if str_eq k key then v else rest

pub data Exception : Type 0 where
  key_error attribute_error runtime_error value_error timeout_error connection_error :
      String → Exception

pub data Outcome {ℓ} (A : Type ℓ) : Type ℓ where
  returned : A → Outcome A
  raised : Exception → Outcome A

pub record Lease : Type 0 where
  pub resource_key : String
  pub owner_id : String
  pub acquired_at : ℕ

pub record RawResult : Type 0 where
  pub source_kind : String
  pub adapter : String
  pub execution_status : String
  pub transport_status : String
  pub payload : Spec

pub record ArtifactSet : Type 0 where
  pub paths : List String
  pub source_kind : String
  pub adapter : String

-- The locks that are held, by resource key, the client's state, and the files written.
pub record State {ℓ} (C : Type ℓ) : Type ℓ where
  pub held : List String
  pub client : C
  pub artifacts : List (String × RawResult)

-- A step changes the state, also when it raises.
abbrev pub Step {ℓ κ} : Type ℓ → Type κ → Type (ℓ ⊔ κ)
Step C A = State C → State C × Outcome A

abbrev pub after {ℓ κ μ} :
    {C : Type ℓ} {A : Type κ} {B : Type μ}
    → (A → Step C B)
    → State C × Outcome A
    → State C × Outcome B
after k (s, Outcome.returned a) = k a s
after k (s, Outcome.raised e) = (s, Outcome.raised e)

infixl 5 ◌>>=◌
abbrev pub ◌>>=◌ {ℓ κ μ} :
    {C : Type ℓ} {A : Type κ} {B : Type μ} → Step C A → (A → Step C B) → Step C B
(m >>= k) s = after k (m s)

abbrev pub return {ℓ κ} : {C : Type ℓ} {A : Type κ} → A → Step C A
return a s = (s, Outcome.returned a)

abbrev pub raise {ℓ κ} : {C : Type ℓ} {A : Type κ} → Exception → Step C A
raise e s = (s, Outcome.raised e)

-- What the try statement gives when its `finally` has run: an exception of the latter wins.
abbrev finally_outcome {ℓ} : {A : Type ℓ} → Outcome (Unit {0}) → Outcome A → Outcome A
finally_outcome (Outcome.returned _) outcome = outcome
finally_outcome (Outcome.raised e) outcome = Outcome.raised e

-- try: body, finally: cleanup
abbrev pub try_finally {ℓ κ} : {C : Type ℓ} {A : Type κ} → Step C A → Step C (Unit {0}) → Step C A
try_finally body cleanup s =
    let done = cleanup (body s).0 in (done.0, finally_outcome done.1 (body s).1)
