-- ===== src/Examples/Central.antt =====
-- The PostgreSQL store on the scene, with its Run RUNNING, QUEUED or CANCELLED.
use semiconductor_domain_lab.Prelude.{
  ℕ, Bool, true, false, some, [], ◌∷◌, ◌≡◌, ◌≢◌, refl, ◌⊎◌, arith,
}
use semiconductor_domain_lab.Prelude.Table.{count_rows, exists_row, select_rows, update_rows}
use semiconductor_domain_lab.Prelude.Rows.{append_unique}
use semiconductor_domain_lab.Prelude.Earliest.{earliest}
use semiconductor_domain_lab.Models.{RunStatus, AttemptStatus}
use semiconductor_domain_lab.Store.Schema.{Run, Attempt, Database}
use semiconductor_domain_lab.Store.Attempts.{
  claim_recovery as store_claim, update_attempt, set_status, holds_recovery,
}
use semiconductor_domain_lab.Store.Finalize.{
  may_finalize, set_abandoned, update_running_run, finalize_attempt_and_run as store_finalize,
  finalize_recovery as store_recovery,
}
use semiconductor_domain_lab.Store.Keys.{HasKeys}
use semiconductor_domain_lab.Postgres.Statements.{claim_recovery}
use semiconductor_domain_lab.Postgres.Finalize.{finalize_attempt_and_run, finalize_recovery}
use semiconductor_domain_lab.Postgres.Divergence.{
  AttemptOnly, finalize_attempt_and_run-agrees, finalize_recovery-agrees,
}
use semiconductor_domain_lab.Postgres.Dispatch.{
  Central, candidate, claim_run, claim_next_run, release_terminal_execution_requests,
}
use semiconductor_domain_lab.Postgres.Claims.{claim_next_run_once}
use semiconductor_domain_lab.Examples.Scene.{
  scene, scene_of, scene_of-HasKeys, leased, recovering, request, success, spec, queued_run, run,
}

abbrev pub with_run : Run → Attempt → Database
with_run r a = record (scene_of a request) { runs = r ∷ [] }

pub with_run-HasKeys : (r : Run) (a : Attempt) → HasKeys (with_run r a)
unfolding count_rows
with_run-HasKeys r a =
    let k = scene_of-HasKeys a request in
    record {
      run_key = λ j. ground arith;
      attempt_key = k.attempt_key;
      session_key = k.session_key;
      host_key = k.host_key;
      request_key = k.request_key;
      witness_key = k.witness_key;
      revision_key = k.revision_key;
    }

abbrev cancelled_run : Run
cancelled_run = record run { status = RunStatus.cancelled }

abbrev cancelled : Database
cancelled = with_run cancelled_run leased

abbrev ours : Database × Bool
ours = finalize_attempt_and_run cancelled 5 "job" 1 "lease" success

abbrev theirs : Database × Bool
theirs = store_finalize cancelled 5 "job" 1 "lease" success

-- The Run was cancelled while its Attempt ran: the completion is refused, and the Attempt is
-- SUCCEEDED all the same.
divergence_test :
    (ours.1 ≡ false)
    × (ours.0.attempts ≡ set_status success.outcome 5 leased ∷ [])
    × (theirs.0.attempts ≡ leased ∷ [])
unfolding finalize_attempt_and_run store_finalize update_attempt update_running_run update_rows
    count_rows exists_row
divergence_test = (refl, refl, refl)

finalize_attempt_and_run-agrees_example :
    (ours.1 ≡ theirs.1)
    × (ours.1 ≡ true → ours.0 ≡ theirs.0)
    × (ours.1 ≡ false
        → (ours.0 ≡ cancelled)
          ⊎ AttemptOnly cancelled ours.0 "job" 1
              (may_finalize cancelled 5 "lease" success.execution_owner)
              (set_status success.outcome 5))
finalize_attempt_and_run-agrees_example =
    finalize_attempt_and_run-agrees cancelled (with_run-HasKeys cancelled_run leased) 5 "job" 1
      "lease" success

abbrev stuck : Database
stuck = with_run cancelled_run recovering

abbrev our_recovery : Database × Bool
our_recovery = finalize_recovery stuck 22 "job" 1 "recovery" "lease_expired" "lost"

abbrev their_recovery : Database × Bool
their_recovery = store_recovery stuck 22 "job" 1 "recovery" "lease_expired" "lost"

finalize_recovery-agrees_example :
    (our_recovery.1 ≡ their_recovery.1)
    × (our_recovery.1 ≡ true → our_recovery.0 ≡ their_recovery.0)
    × (our_recovery.1 ≡ false
        → (our_recovery.0 ≡ stuck)
          ⊎ AttemptOnly stuck our_recovery.0 "job" 1
              (holds_recovery "recovery")
              (set_abandoned (some "lease_expired") (some "lost") 22))
finalize_recovery-agrees_example =
    finalize_recovery-agrees stuck (with_run-HasKeys cancelled_run recovering) 22 "job" 1 "recovery"
      "lease_expired" "lost"

abbrev pub central_of : Database → Central
central_of db = record { tables = db; spec_payload = λ j. some spec }

abbrev pub queue : Central
queue = central_of (with_run queued_run leased)

abbrev newer_run : Run
newer_run = record queued_run { job_id = "newer"; updated_at = 1 }

abbrev two : Central
two = central_of (record scene { runs = queued_run ∷ newer_run ∷ [] })

two-HasKeys : HasKeys two.tables
unfolding exists_row
two-HasKeys =
    let k = with_run-HasKeys queued_run leased in
    record {
      run_key = λ j. append_unique (λ r. r.job_id) (queued_run ∷ []) newer_run refl j (k.run_key j);
      attempt_key = k.attempt_key;
      session_key = k.session_key;
      host_key = k.host_key;
      request_key = k.request_key;
      witness_key = k.witness_key;
      revision_key = k.revision_key;
    }

first_test : candidate two.tables ≡ some queued_run
unfolding candidate earliest select_rows
first_test = refl

second_test : candidate (claim_next_run two 7).0.tables ≡ some newer_run
unfolding claim_next_run claim_run candidate earliest select_rows update_rows
second_test = refl

claim_next_run_once_example : newer_run.job_id ≢ queued_run.job_id
claim_next_run_once_example = claim_next_run_once two two-HasKeys 7 first_test second_test

abbrev stranded : Database
stranded = scene_of (record leased { status = AttemptStatus.abandoned }) request

abbrev released : Database × ℕ
released = release_terminal_execution_requests stranded

released_test : released.1 ≡ 1
unfolding release_terminal_execution_requests count_rows exists_row
released_test = refl

abbrev claimed : Database × Bool
claimed = claim_recovery scene 20 "job" 1 "recoverer" "recovery" 5

claimed_test : claimed.1 ≡ true
unfolding claim_recovery store_claim update_attempt count_rows
claimed_test = refl
