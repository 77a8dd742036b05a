-- ===== src/Runner/OpenSta/Released.antt =====
-- src/eda_lab/runner.py: what a run of the OpenSTA adapter leaves behind, on each of its outcomes.
use semiconductor_domain_lab.Prelude.{ℕ, String, false, none, List, [], ◌∷◌, ◌≡◌, refl, arith}
use semiconductor_domain_lab.Models.{ℤ, JobSpec}
use semiconductor_domain_lab.Runner.OpenSta.{
  Config, Signal, Adapter, Waited, World, Sources, Found, process_of, pop_process, find_sources,
  mem_text, discard,
}
use semiconductor_domain_lab.Runner.OpenSta.Run.{
  run, run_found, forget_process, after_wait, conclude, give_up, launch, write_output,
}

process_of-pop_process :
    (job_id : String) (processes : List (String × ℕ))
    → process_of job_id (pop_process job_id processes) ≡ none
unfolding process_of pop_process
process_of-pop_process job_id [] = refl
process_of-pop_process job_id ((k, pid) ∷ rest) = ground (arith, process_of-pop_process job_id rest)

pub mem_text-discard : (s : String) (texts : List String) → mem_text s (discard s texts) ≡ false
unfolding mem_text discard
mem_text-discard s [] = refl
mem_text-discard s (t ∷ rest) = ground (arith, mem_text-discard s rest)

-- A child that has ended leaves the job without an entry, cancelled or not.
conclude-process_of :
    (c : Config) (w : World) (job_id : String) (s : Sources) (out err : String) (code : ℤ)
    (a : Adapter)
    → process_of job_id a.processes ≡ none
    → process_of job_id (conclude c w job_id s out err code a).0.processes ≡ none
unfolding conclude write_output
conclude-process_of c w job_id s out err code a h = ground (arith, h)

after_wait-process_of :
    (c : Config) (w : World) (job_id : String) (s : Sources) (waited : Waited) (a : Adapter)
    → process_of job_id (after_wait c w job_id s waited a).0.processes ≡ none
unfolding after_wait
after_wait-process_of c w job_id s (Waited.finished out err code) a =
    conclude-process_of c w job_id s out err code (forget_process job_id a)
      (process_of-pop_process job_id a.processes)
after_wait-process_of c w job_id s Waited.expired a =
    process_of-pop_process job_id (give_up c w w.after_sigterm _).0.processes

run_found-process_of :
    (c : Config) (w : World) (spec : JobSpec) (a : Adapter)
    → process_of spec.job_id a.processes ≡ none
    → (f : Found Sources) → process_of spec.job_id (run_found c w spec f a).0.processes ≡ none
unfolding run_found
run_found-process_of c w spec a h (Found.refused e) = h
run_found-process_of c w spec a h (Found.found s) =
    after_wait-process_of c w spec.job_id s w.communicated (w.meanwhile (launch c w spec s a))

-- A run leaves no process of its job behind, on each of its outcomes: a file that is missing or a
-- corner that does not fit leaves the adapter as it was, and after a child was started, whatever other
-- threads did and however it ended, the job has no entry.
pub run-process_of :
    (c : Config) (w : World) (spec : JobSpec) (a : Adapter)
    → process_of spec.job_id a.processes ≡ none
    → process_of spec.job_id (run c w spec a).0.processes ≡ none
unfolding run
run-process_of c w spec a h = run_found-process_of c w spec a h (find_sources c w spec)

-- The signals that the documented escalation sends.
abbrev pub escalation : Waited → Waited → List Signal
escalation (Waited.finished out err code) _ = []
escalation Waited.expired (Waited.finished out err code) = Signal.sigterm ∷ []
escalation Waited.expired Waited.expired = Signal.sigterm ∷ Signal.sigkill ∷ []

abbrev pub to_child : ℕ → List Signal → List (ℕ × Signal)
to_child pid [] = []
to_child pid (sig ∷ rest) = (pid, sig) ∷ to_child pid rest
