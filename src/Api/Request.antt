-- ===== src/Api/Request.antt =====
-- src/eda_lab/api.py: what a request holds, as the libraries have read it, and what refuses it.
use semiconductor_domain_lab.Prelude.{ℕ, String, Option, none, some}
use semiconductor_domain_lab.Models.{Decimal}

-- What the handler calls: the text of a cursor, of which an invalid one is none, and the text of the
-- ValueError of `int`; 0.02 seconds in ticks, and the service's delay in milliseconds.
pub record Libraries : Type 0 where
  pub encode_cursor : ℕ → String → String
  pub decode_cursor : String → Option (ℕ × String)
  pub int_error : String → String
  pub default_duration : ℕ
  pub retry_after_ms : ℕ

-- A field of the JSON object that goes through `float`: it is not there, is a number, or raises.
pub data Field {ℓ} (A : Type ℓ) : Type ℓ where
  absent : Field A
  value : A → Field A
  unreadable : String → Field A

-- The JSON object of a body, whose other fields hold texts where they are there. The duration is in clock ticks.
pub record Body : Type 0 where
  pub job_id : Option String
  pub design_id : Option String
  pub ip_family : Option String
  pub flow_name : Option String
  pub corner : Option String
  pub worst_slack : Field Decimal
  pub unit : Option String
  pub duration_seconds : Field ℕ

-- What reading the length and the JSON text gives, or the text of its exception.
pub data Received : Type 0 where
  body : Body → Received
  malformed : String → Received

abbrev pub or_default : Option String → String → String
or_default none d = d
or_default (some s) d = s

-- A value, or the text of the exception that is answered with 400.
pub data Read {ℓ} (A : Type ℓ) : Type ℓ where
  read : A → Read A
  refused : String → Read A

infixl 5 ◌>>=◌
abbrev pub ◌>>=◌ {ℓ κ} : {A : Type ℓ} {B : Type κ} → Read A → (A → Read B) → Read B
Read.refused e >>= k = Read.refused e
Read.read a >>= k = k a
