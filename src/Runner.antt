-- ===== src/Runner.antt =====
-- src/eda_lab/runner.py: what the adapters' `run` returns or raises. A path is its text.
pub mod Synthetic
pub mod Fields
pub mod RoundTrip
pub mod OpenSta
use semiconductor_domain_lab.Prelude.{String}
use semiconductor_domain_lab.Models.{AdapterRunResult}

pub data AdapterError : Type 0 where
  timeout_error connection_error value_error file_not_found adapter_cancelled :
      String → AdapterError
