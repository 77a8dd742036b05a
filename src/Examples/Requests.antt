-- ===== src/Examples/Requests.antt =====
-- Requests to the API on the scene.
use semiconductor_domain_lab.Prelude.{String, false, none, some, ◌≡◌, refl, eq_column}
use semiconductor_domain_lab.Prelude.Table.{fetch_one}
use semiconductor_domain_lab.Models.{JobSpec}
use semiconductor_domain_lab.Store.Runs.{RunView, get_run, view_run}
use semiconductor_domain_lab.Service.Submit.{submit}
use semiconductor_domain_lab.Api.{Payload, sent}
use semiconductor_domain_lab.Api.Request.{Libraries, Body, Received, Field}
use semiconductor_domain_lab.Api.Post.{Handled, spec_of, do_post}
use semiconductor_domain_lab.Api.Lists.{Query, list_runs_handler}
use semiconductor_domain_lab.Api.Replies.{do_post-incomplete, do_post-again}
use semiconductor_domain_lab.Api.Paging.{Answered, list_runs_handler-Page}
use semiconductor_domain_lab.Examples.Scene.{scene, spec, config, run}

abbrev libraries : Libraries
libraries = record {
  encode_cursor = λ updated_at job_id. job_id;
  decode_cursor = λ s. none;
  int_error = λ s. "invalid literal";
  default_duration = 20;
  retry_after_ms = 1000;
}

abbrev body : Body
body = record {
  job_id = some "job";
  design_id = some "gcd";
  ip_family = some "ip";
  flow_name = some "sta";
  corner = some "tt";
  worst_slack = Field.absent;
  unit = none;
  duration_seconds = Field.value 1;
}

abbrev incomplete : Body
incomplete = record body { design_id = none }

abbrev hash : JobSpec → String
hash s = "hash"

do_post-incomplete_example :
    (e : String) × (do_post libraries
        (submit config hash 0 (λ d. d) 5)
        "/jobs"
        (Received.body incomplete)
        scene
      ≡ (scene, Handled.responded (sent 400 (Payload.error_text e))))
do_post-incomplete_example =
    do_post-incomplete libraries (submit config hash 0 (λ d. d) 5) incomplete scene refl

abbrev stored : RunView
stored = view_run scene run

stored_test : get_run scene "job" ≡ some stored
unfolding get_run fetch_one
stored_test = refl

do_post-again_example :
    let answer =
      do_post libraries (submit config hash 0 (λ d. d) 5) "/jobs" (Received.body body) scene in
    (stored.run.spec_hash ≡ some "hash"
      → answer ≡ (scene, Handled.responded (sent 202 (Payload.submitted (some stored)))))
    × (eq_column stored.run.spec_hash "hash" ≡ false
        → answer ≡ (scene, Handled.responded (sent 409 Payload.idempotency_key_reused)))
unfolding spec_of
do_post-again_example =
    do_post-again libraries config hash 0 (λ d. d) 5 body spec scene stored refl stored_test

abbrev query : Query
query = record { limit = some "101"; cursor = none; status = none; baseline = none }

list_runs_handler-Page_example :
    Answered libraries query scene (list_runs_handler libraries query scene)
list_runs_handler-Page_example = list_runs_handler-Page libraries query scene
