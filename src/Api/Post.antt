-- ===== src/Api/Post.antt =====
-- src/eda_lab/api.py: `do_POST`. The service's submission is a function on the database.
use semiconductor_domain_lab.Prelude.{
  ℕ, ◌+◌, ◌/◌, String, not, Option, none, some, if◌then◌else◌, leb, str_eq,
}
use semiconductor_domain_lab.Models.{pos, JobSpec}
use semiconductor_domain_lab.Store.Schema.{Database}
use semiconductor_domain_lab.Service.Submit.{Reply, Submitted}
use semiconductor_domain_lab.Api.{Payload, Sent, sent}
use semiconductor_domain_lab.Api.Request.{Libraries, Field, Body, Received, or_default, Read, ◌>>=◌}

-- data[key]; the text of a KeyError is the key in quotes.
abbrev pub required : Option String → String → Read String
required none quoted = Read.refused quoted
required (some s) quoted = Read.read s

abbrev pub float_of {ℓ} : {A : Type ℓ} → Field A → A → Read A
float_of Field.absent d = Read.read d
float_of (Field.value v) d = Read.read v
float_of (Field.unreadable e) d = Read.refused e

unfoldable pub spec_of : ℕ → Body → Read JobSpec
spec_of default_duration fields = do
  job_id ← required fields.job_id "'job_id'"
  design_id ← required fields.design_id "'design_id'"
  ip_family ← required fields.ip_family "'ip_family'"
  worst_slack ← float_of fields.worst_slack (record { mantissa = pos 12; scale = 2 })
  duration_seconds ← float_of fields.duration_seconds default_duration
  Read.read (record {
    job_id = job_id;
    design_id = design_id;
    ip_family = ip_family;
    flow_name = or_default fields.flow_name "synthetic-timing";
    corner = or_default fields.corner "TT_25C";
    worst_slack = worst_slack;
    unit = or_default fields.unit "ns";
    duration_seconds = duration_seconds;
  })

abbrev pub received_spec : ℕ → Received → Read JobSpec
received_spec default_duration (Received.malformed e) = Read.refused e
received_spec default_duration (Received.body fields) = spec_of default_duration fields

-- What the handler does: it sends, or lets an exception of the service through.
pub data Handled : Type 0 where
  responded : Sent → Handled
  raised : Reply → Handled

-- max(1, math.ceil(seconds))
abbrev pub retry_after_seconds : ℕ → ℕ
retry_after_seconds ms = if leb ms 1000 then 1 else (ms + 999) / 1000

unfoldable pub reply_to : Libraries → Reply → Handled
reply_to libs (Reply.run v) = Handled.responded (sent 202 (Payload.submitted v))
reply_to libs (Reply.backpressure budget) = Handled.responded (record {
  status = 429;
  payload = Payload.in_flight_budget_exhausted libs.retry_after_ms;
  retry_after = some (retry_after_seconds libs.retry_after_ms);
})
reply_to libs Reply.idempotency_conflict =
    Handled.responded (sent 409 Payload.idempotency_key_reused)
reply_to libs Reply.not_visible = Handled.raised Reply.not_visible
reply_to libs (Reply.store_error e) = Handled.raised (Reply.store_error e)

-- The service's submission, as a function on the database.
unfoldable pub post_spec :
    Libraries → (JobSpec → Database → Submitted) → Read JobSpec → Database → Database × Handled
unfolding reply_to
post_spec libs submission (Read.refused e) db =
    (db, Handled.responded (sent 400 (Payload.error_text e)))
post_spec libs submission (Read.read spec) db =
    let done = submission spec db in (done.db, reply_to libs done.reply)

unfoldable pub do_post :
    Libraries → (JobSpec → Database → Submitted) → String → Received → Database → Database × Handled
unfolding post_spec spec_of
do_post libs submission path received db =
    if not (str_eq path "/jobs")
    then (db, Handled.responded (sent 404 (Payload.error_text "not found")))
    else post_spec libs submission (received_spec libs.default_duration received) db
