-- ===== src/Examples/Queue.antt =====
-- A Worker on a queue of one Run, a client that is turned away, and adapters with their clients.
use semiconductor_domain_lab.Prelude.{
  ℕ, ◌<◌, String, true, false, none, some, List, [], ◌∷◌, ◌++◌, ◌≡◌, ◌⊎◌, ◌≤◌, ◌≢◌, refl, arith,
  length, ltb, if◌then◌else◌,
}
use semiconductor_domain_lab.Prelude.Text.{◌<>◌}
use semiconductor_domain_lab.Prelude.Table.{count_rows, select_rows}
use semiconductor_domain_lab.Prelude.Earliest.{earliest}
use semiconductor_domain_lab.Postgres.Dispatch.{Central, claim_next_run}
use semiconductor_domain_lab.Worker.{Worker, Waited, Loop, turn, drain_loop}
use semiconductor_domain_lab.Worker.Drains.{
  queued, Sound, Waits, Bounded, after, drain_loop-empties, drain_loop-Bounded,
}
use semiconductor_domain_lab.Client.{
  Response, RetryingJobClient, Submission, submit, exhausted_message,
}
use semiconductor_domain_lab.Client.Retries.{delays, submit-accepted, submit-exhausted}
use semiconductor_domain_lab.Adapters.{Value, Spec, Outcome, State}
use semiconductor_domain_lab.Adapters.Fixture.{Host, item, is_held, run}
use semiconductor_domain_lab.Adapters.Real.{get_optional, trace32_methods, aardvark_methods}
use semiconductor_domain_lab.Adapters.Released.{run-real_held}
use semiconductor_domain_lab.Adapters.Replay.{
  Replay, replay_trace32, replay_aardvark, replies_to, run-replay,
}
use semiconductor_domain_lab.Examples.Scene.{spec, queued_run, leased}
use semiconductor_domain_lab.Examples.Central.{queue, with_run-HasKeys}

-- Every future is done when it is waited for.
abbrev all_done : Central → List String → Waited
all_done central active = record { central = central; done = active; pending = [] }

abbrev worker : Worker
worker = record { max_jobs = none; concurrency = 1; dispatch = none }

abbrev start : Loop
start = record { central = queue; active = []; completed = [] }

queue-Sound : Sound queue
queue-Sound = record { keys = with_run-HasKeys queued_run leased; payloads = λ j h. cc }

nonempty : (active : List String) → active ≢ [] → 0 < length active
nonempty [] h = absurd (h refl)
nonempty (job ∷ rest) h = omega arith

all_done-Waits : Waits all_done
all_done-Waits central active s h = (s, nonempty active h, omega arith)

drain_loop-empties_example :
    (final : Loop) × (drain_loop worker all_done 7 3 start ≡ some final)
    × (queued final.central ≡ 0)
unfolding count_rows
drain_loop-empties_example =
    drain_loop-empties worker all_done 7 refl refl (omega arith) all_done-Waits 3 start queue-Sound
      (omega arith)

abbrev bounded : Worker
bounded = record worker { max_jobs = some 1 }

abbrev finished : Loop
finished = record { central = (claim_next_run queue 7).0; active = "job" ∷ []; completed = [] }

finished_test : drain_loop bounded all_done 7 2 start ≡ some finished
unfolding drain_loop turn claim_next_run earliest select_rows
finished_test = refl

drain_loop-Bounded_example :
    Bounded bounded 1 (after bounded all_done 7 5 start)
    × ((drain_loop bounded all_done 7 2 start ≡ none)
        ⊎ ((r : ℕ) × (r ≤ 2)
            × (drain_loop bounded all_done 7 2 start ≡ some (after bounded all_done 7 r start))))
drain_loop-Bounded_example =
    drain_loop-Bounded bounded all_done 7 1 refl (λ central active. omega arith) 2 5 start
      (omega arith, omega arith)

abbrev turned_away : Response
turned_away = Response.http_error 429 true 50

abbrev client_of : ℕ → RetryingJobClient
client_of busy = record {
  base_url = "http://lab";
  max_backpressure_retries = 3;
  opener = λ n r. if ltb n busy then turned_away else Response.opened "{}";
  jitter = λ n. 0;
  dumps = λ d. "{}";
}

submit-accepted_example :
    submit (client_of 2) spec ≡ (Submission.returned "{}", delays (client_of 2) (λ n. 50) 0 2)
submit-accepted_example =
    submit-accepted (client_of 2) spec (λ n. 50) 2 "{}" (omega arith)
      (λ i less. ground (arith, less)) refl

submit-exhausted_example :
    submit (client_of 4) spec
    ≡ (Submission.exhausted (exhausted_message spec 3), delays (client_of 4) (λ n. 50) 0 3)
submit-exhausted_example =
    submit-exhausted (client_of 4) spec (λ n. 50) (λ i less. ground (arith, less))

abbrev host : Host
host = record { str = λ v. "job"; now = 1; directory = "/tmp/lab" }

abbrev session : Spec
session = ("job_id", Value.text "job") ∷ ("commands", Value.texts ("Go" ∷ "Break" ∷ [])) ∷ []

abbrev recorded : State Replay
recorded = record {
  held = [];
  client = record { responses = ("Break", "halted") ∷ ("Go", "ok") ∷ []; connected = false };
  artifacts = [];
}

run-real_held_example :
    ((run (trace32_methods host (some replay_trace32) "target") session recorded).0.held ≡ [])
    × ((run
          (aardvark_methods host (some (replay_aardvark (λ t. ""))) "target")
          session
          recorded).0.held
        ≡ [])
run-real_held_example =
    run-real_held host (some replay_trace32) (some (replay_aardvark (λ t. ""))) "target" session
      recorded

run-replay_example : run (trace32_methods host (some replay_trace32) "target") session recorded ≡ (
  record {
    held = [];
    client = record { responses = recorded.client.responses; connected = false };
    artifacts =
        []
        ++ (
          "/tmp/lab" <> "/trace32.json",
          record {
            source_kind = "real";
            adapter = "trace32";
            execution_status = "SUCCEEDED";
            transport_status = "OK";
            payload =
                ("job_id", Value.text "job")
                ∷ ("responses", Value.texts ("ok" ∷ "halted" ∷ []))
                ∷ [];
          },
        )
          ∷ [];
  },
  Outcome.returned (record {
    paths = ("/tmp/lab" <> "/trace32.json") ∷ [];
    source_kind = "real";
    adapter = "trace32";
  }),
)
unfolding is_held item get_optional replies_to
run-replay_example =
    run-replay host "target" session ("Go" ∷ "Break" ∷ []) ("ok" ∷ "halted" ∷ []) recorded
      (Value.text "job") refl (λ t. refl) refl refl
