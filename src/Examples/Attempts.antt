-- ===== src/Examples/Attempts.antt =====
-- Leases, recovery and completion of the Attempt of the scene, at chosen times.
use native.Mathlib.Nat.{le_refl}
use semiconductor_domain_lab.Store.Keys.{attempt_at}
use semiconductor_domain_lab.Prelude.{
  List, [], ◌∷◌, Bool, true, false, none, some, ◌≡◌, refl, ◌⊎◌, arith,
}
use semiconductor_domain_lab.Prelude.Table.{update_rows, count_rows, fetch_one, exists_row}
use semiconductor_domain_lab.Models.{AttemptStatus, RunStatus}
use semiconductor_domain_lab.Store.Schema.{Attempt, Database}
use semiconductor_domain_lab.Store.Runs.{assign}
use semiconductor_domain_lab.Store.Attempts.{
  holds_recovery, update_attempt, acquire_attempt_lease, heartbeat_attempt, claim_recovery,
  transition_attempt,
}
use semiconductor_domain_lab.Store.Finalize.{
  may_finalize, final_fields, update_running_run, retire_requests, finalize_attempt_and_run,
  finalize_recovery,
}
use semiconductor_domain_lab.Store.Abandon.{active_of, finalize_recovery_atomic}
use semiconductor_domain_lab.Store.Written.{LeaseHeld, RunWritten}
use semiconductor_domain_lab.Store.Atomic.{Ended, finalize_attempt_and_run_atomic}
use semiconductor_domain_lab.Store.Fence.{
  Refused, claim_recovery_exclusive, claim_recovery_fences_owner, claim_recovery_blocks_new_lease,
}
use semiconductor_domain_lab.Store.Terminal.{AllRefused, ended-AllRefused, accepted-AllRefused}
use semiconductor_domain_lab.Store.History.{Call, replay}
use semiconductor_domain_lab.Store.History.Phases.{Progressed, replay-Progressed}
use semiconductor_domain_lab.Examples.Scene.{
  scene, scene_of, scene_of-HasKeys, leased, recovering, request, success,
}

abbrev completed : Database × Bool
completed = finalize_attempt_and_run scene 5 "job" 1 "lease" success

completed_test : completed.1 ≡ true
unfolding finalize_attempt_and_run update_attempt update_running_run update_rows count_rows
    exists_row
completed_test = refl

finalize_attempt_and_run_atomic_example :
    ((completed.1 ≡ false) × (completed.0 ≡ scene))
    ⊎ ((completed.1 ≡ true)
        × Ended scene completed.0 "job" 1
            (may_finalize scene 5 "lease" success.execution_owner)
            (λ a. record a {
              status = AttemptStatus.succeeded;
              error_type = none;
              error = none;
              artifact_path = some "report";
              retry_class = some "not_applicable";
              updated_at = 5;
            })
            (assign (final_fields success) 5)
        × RunWritten completed.0 "job" 5 success
        × ((a : Attempt) × (attempt_at scene "job" 1 ≡ some a) × LeaseHeld 5 "lease" a))
finalize_attempt_and_run_atomic_example =
    finalize_attempt_and_run_atomic scene (scene_of-HasKeys leased request) 5 "job" 1 "lease"
      success

accepted-AllRefused_example : AllRefused completed.0 "job" 1
accepted-AllRefused_example =
    accepted-AllRefused scene (scene_of-HasKeys leased request) 5 "job" 1 "lease" success refl
      completed_test

abbrev abandoned : Attempt
abandoned = record leased { status = AttemptStatus.abandoned }

ended-AllRefused_example : AllRefused (scene_of abandoned request) "job" 1
unfolding fetch_one
ended-AllRefused_example =
    ended-AllRefused (scene_of abandoned request) (scene_of-HasKeys abandoned request) "job" 1
      abandoned refl refl

-- The lease of the scene has run out at 20.
abbrev claimed : Database × Bool
claimed = claim_recovery scene 20 "job" 1 "recoverer" "recovery" 5

claimed_test : claimed.1 ≡ true
unfolding claim_recovery update_attempt count_rows
claimed_test = refl

claim_recovery_exclusive_example :
    Refused claimed.0 (claim_recovery claimed.0 25 "job" 1 "other" "token" 9)
claim_recovery_exclusive_example =
    claim_recovery_exclusive scene (scene_of-HasKeys leased request) "job" 1 20 "recoverer"
      "recovery" 5 claimed_test 25 "other" "token" 9 (le_refl 25)

claim_recovery_fences_owner_example :
    Refused claimed.0 (heartbeat_attempt claimed.0 21 "job" 1 "lease" 10)
    × Refused claimed.0 (transition_attempt claimed.0 21 21 22 "job" 1 "lease" success.outcome)
    × Refused claimed.0 (finalize_attempt_and_run claimed.0 21 "job" 1 "lease" success)
claim_recovery_fences_owner_example =
    claim_recovery_fences_owner scene (scene_of-HasKeys leased request) "job" 1 20 "recoverer"
      "recovery" 5 claimed_test 21 "lease" (omega arith) 10 21 22 success.outcome success

abbrev leased_again : Database × Bool
leased_again = acquire_attempt_lease claimed.0 21 "job" 1 "worker" "second" 10

leased_again_test : leased_again.1 ≡ true
unfolding acquire_attempt_lease claim_recovery update_attempt update_rows count_rows
leased_again_test = refl

claim_recovery_blocks_new_lease_example :
    Refused leased_again.0
      (transition_attempt leased_again.0 22 22 22 "job" 1 "second" success.outcome)
    × Refused leased_again.0 (finalize_attempt_and_run leased_again.0 22 "job" 1 "second" success)
claim_recovery_blocks_new_lease_example =
    claim_recovery_blocks_new_lease scene (scene_of-HasKeys leased request) "job" 1 20 "recoverer"
      "recovery" 5 claimed_test 21 "worker" "second" 10 22 22 22 success.outcome success
      leased_again_test (omega arith)

abbrev recovered : Database × Bool
recovered =
    finalize_recovery (scene_of recovering request) 22 "job" 1 "recovery" "lease_expired" "lost"

recovered_test : recovered.1 ≡ true
unfolding finalize_recovery update_attempt update_running_run retire_requests update_rows count_rows
recovered_test = refl

finalize_recovery_atomic_example :
    ((recovered.1 ≡ false) × (recovered.0 ≡ scene_of recovering request))
    ⊎ ((recovered.1 ≡ true)
        × Ended
            (scene_of recovering request)
            recovered.0
            "job"
            1
            (holds_recovery "recovery")
            (λ a. record a {
              status = AttemptStatus.abandoned;
              error_type = some "lease_expired";
              error = some "lost";
              retry_class = some "recovery_required";
              updated_at = 22;
            })
            (λ r. record r { status = RunStatus.failed; error = some "lost"; updated_at = 22 })
        × (count_rows (active_of "job" 1) recovered.0.execution_requests ≡ 0))
finalize_recovery_atomic_example =
    finalize_recovery_atomic (scene_of recovering request) (scene_of-HasKeys recovering request) 22
      "job" 1 "recovery" "lease_expired" "lost"

-- A recovery is claimed and done, and the owner's completion comes too late.
abbrev history : List Call
history =
    Call.claim 20 "job" 1 "recoverer" "recovery" 5
    ∷ Call.recover 22 "job" 1 "recovery" "lease_expired" "lost"
    ∷ Call.complete 23 "job" 1 "lease" success
    ∷ []

replay-Progressed_example :
    Progressed (attempt_at scene "job" 1) (attempt_at (replay history scene) "job" 1)
replay-Progressed_example = replay-Progressed history scene "job" 1
