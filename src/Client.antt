-- ===== src/Client.antt =====
-- src/eda_lab/client.py: `RetryingJobClient`. The HTTP exchange is a parameter, which answers the n-th
-- request of a submission; so are the JSON text of a payload and the random part of each delay.
-- A delay is a number of microseconds.
pub mod Retries
use semiconductor_domain_lab.Prelude.{
  ℕ, zero, suc, ◌+◌, ◌*◌, String, Bool, true, false, not, ◌||◌, List, [], ◌∷◌, if◌then◌else◌, ◌==◌,
}
use semiconductor_domain_lab.Prelude.Text.{◌<>◌}
use semiconductor_domain_lab.Models.{pos, Decimal, Json, Dict, JobSpec}
use semiconductor_domain_lab.Service.Text.{show_ℕ}

pub record Request : Type 0 where
  pub url : String
  pub body : String
  pub content_type : String
  pub method : String

-- A response that was opened, with its text, or an HTTPError with its code and what its JSON holds.
pub data Response : Type 0 where
  opened : String → Response
  http_error : ℕ → Bool → ℕ → Response

pub record RetryingJobClient : Type 0 where
  pub base_url : String
  pub max_backpressure_retries : ℕ
  pub opener : ℕ → Request → Response
  pub jitter : ℕ → ℕ
  pub dumps : Dict → String

pub data Submission : Type 0 where
  returned : String → Submission
  raised_http_error : ℕ → Submission
  -- BackpressureRetryExhausted
  exhausted : String → Submission

-- `duration_seconds` is a whole number here.
unfoldable pub payload : JobSpec → Dict
payload spec =
    ("job_id", Json.text spec.job_id)
    ∷ ("design_id", Json.text spec.design_id)
    ∷ ("ip_family", Json.text spec.ip_family)
    ∷ ("flow_name", Json.text spec.flow_name)
    ∷ ("corner", Json.text spec.corner)
    ∷ ("worst_slack", Json.number spec.worst_slack)
    ∷ ("unit", Json.text spec.unit)
    ∷ ("duration_seconds", Json.number (record { mantissa = pos spec.duration_seconds; scale = 0 }))
    ∷ []

unfoldable pub request : RetryingJobClient → JobSpec → Request
unfolding payload ◌<>◌
request client spec = record {
  url = client.base_url <> "/jobs";
  body = client.dumps (payload spec);
  content_type = "application/json";
  method = "POST";
}

unfoldable pub exhausted_message : JobSpec → ℕ → String
unfolding ◌<>◌
exhausted_message spec retry_number =
    "job "
    <> (spec.job_id <> (" remained backpressured after " <> (show_ℕ retry_number <> " retries")))

abbrev pub delay_of : RetryingJobClient → ℕ → ℕ → ℕ
delay_of client retry_number retry_after_ms = retry_after_ms * 1000 + client.jitter retry_number

abbrev pub slept : ℕ → Submission × List ℕ → Submission × List ℕ
slept delay (submission, delays) = (submission, delay ∷ delays)

-- What is done with a response; `again` is the rest of the loop, after the sleep.
unfoldable pub judge :
    RetryingJobClient → JobSpec → ℕ → Submission × List ℕ → Response → Submission × List ℕ
unfolding exhausted_message
judge client spec retry_number again (Response.opened text) = (Submission.returned text, [])
judge client spec retry_number again (Response.http_error code retryable retry_after_ms) =
    if not (code == 429) || not retryable
    then (Submission.raised_http_error code, [])
    else if retry_number == client.max_backpressure_retries
    then (Submission.exhausted (exhausted_message spec retry_number), [])
    else slept (delay_of client retry_number retry_after_ms) again

-- The rounds of the loop from `retry_number` on, of which `left` are left; the last one never falls
-- through.
unfoldable pub rounds : RetryingJobClient → JobSpec → ℕ → ℕ → Submission × List ℕ
unfolding judge request
rounds client spec retry_number zero = (Submission.exhausted "unreachable", [])
rounds client spec retry_number (suc left) =
    judge client spec retry_number (rounds client spec (suc retry_number) left)
      (client.opener retry_number (request client spec))

-- What `submit` returns or raises, and the delays that it sleeps.
unfoldable pub submit : RetryingJobClient → JobSpec → Submission × List ℕ
unfolding rounds
submit client spec = rounds client spec 0 (suc client.max_backpressure_retries)
