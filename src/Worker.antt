-- ===== src/Worker.antt =====
-- src/eda_lab/worker.py: `PostgresWorker.drain` over the central store. The futures are the names of
-- their jobs; what the executor's threads and other processes do to the store is a parameter, and so
-- is `recover_stale_runs`, which Service/Recover models on a database.
pub mod Drains
use semiconductor_domain_lab.Prelude.{
  ℕ, zero, suc, ◌+◌, String, Bool, true, false, not, ◌&&◌, Option, none, some, List, [], ◌∷◌, ◌++◌,
  if◌then◌else◌, leb, ltb, length,
}
use semiconductor_domain_lab.Models.{JobSpec}
use semiconductor_domain_lab.Postgres.Dispatch.{
  Central, claim_next_run, count_active_execution_requests, release_terminal_execution_requests,
}

-- The arguments of `drain`, and the host with its budget where the service is supervised and has an
-- execution owner.
pub record Worker : Type 0 where
  pub max_jobs : Option ℕ
  pub concurrency : ℕ
  pub dispatch : Option (String × ℕ)

-- What `wait` finds: the store then, the futures that are done, and those that are not.
pub record Waited : Type 0 where
  pub central : Central
  pub done : List String
  pub pending : List String

pub record Loop : Type 0 where
  pub central : Central
  pub active : List String
  pub completed : List String

abbrev pub below_max : Option ℕ → ℕ → Bool
below_max none n = true
below_max (some m) n = ltb n m

abbrev pub has_capacity : Option (String × ℕ) → Central → Bool
has_capacity none central = true
has_capacity (some (host_id, max_in_flight)) central =
    ltb (count_active_execution_requests central.tables host_id) max_in_flight

-- What follows the claim: whether the loop goes on.
abbrev pub dispatched : Loop → Central × Option JobSpec → Loop × Bool
dispatched l (central, none) = (record l { central = central }, false)
dispatched l (central, some spec) =
    (record l { central = central; active = l.active ++ spec.job_id ∷ [] }, true)

abbrev pub collected : Loop → Waited → Loop × Bool
collected l waited = (
  record {
    central = waited.central;
    active = waited.pending;
    completed = l.completed ++ waited.done;
  },
  true,
)

-- One round of the loop.
unfoldable pub turn : Worker → (Central → List String → Waited) → ℕ → Loop → Loop × Bool
unfolding claim_next_run
turn w wait now l =
    if not (below_max w.max_jobs (length l.completed + length l.active))
    then (l, false)
    else if not (has_capacity w.dispatch l.central)
    then (l, false)
    else if leb w.concurrency (length l.active)
    then collected l (wait l.central l.active)
    else dispatched l (claim_next_run l.central now)

-- The fuel bounds the rounds; none where it is not enough.
unfoldable pub drain_loop : Worker → (Central → List String → Waited) → ℕ → ℕ → Loop → Option Loop
unfolding turn
drain_loop w wait now zero l = none
drain_loop w wait now (suc fuel) l =
    let (next, more) = turn w wait now l in
    let rest = drain_loop w wait now fuel next in if more then rest else some next

pub data Drained : Type 0 where
  completed : Central → List String → Drained
  -- concurrency must be positive
  value_error : Drained
  out_of_fuel : Drained

-- `result()` of the futures that are left: all of them end.
abbrev pub join_active : (Central → List String → Central) → Option Loop → Drained
join_active finish none = Drained.out_of_fuel
join_active finish (some l) =
    Drained.completed (finish l.central l.active) (l.completed ++ l.active)

unfoldable pub drain :
    Worker
    → (Central → Central)
    → (Central → List String → Waited)
    → (Central → List String → Central)
    → ℕ
    → ℕ
    → Central
    → Drained
unfolding drain_loop release_terminal_execution_requests
drain w recover wait finish now fuel central =
    let recovered = recover central in
    if ltb w.concurrency 1
    then Drained.value_error
    else join_active finish (
        drain_loop w wait now fuel (record {
          central = record recovered {
            tables = (release_terminal_execution_requests recovered.tables).0;
          };
          active = [];
          completed = [];
        }))
