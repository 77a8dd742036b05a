-- ===== src/Runner/OpenSta/Cancel.antt =====
-- src/eda_lab/runner.py: `cancel` of the OpenSTA adapter, from another thread, while `run` waits for the
-- child.
use semiconductor_domain_lab.Prelude.{
  String, true, false, List, [], ◌∷◌, ◌++◌, ◌≡◌, refl, ap, arith, eq_iff,
}
use semiconductor_domain_lab.Models.{ℤ, JobSpec}
use semiconductor_domain_lab.Prelude.Text.{◌<>◌}
use semiconductor_domain_lab.Service.Text.{show_ℕ}
use semiconductor_domain_lab.Runner.{AdapterError}
use semiconductor_domain_lab.Runner.OpenSta.{
  Config, Signal, Adapter, Waited, World, Ran, Sources, Found, process_of, find_sources, mem_text,
  discard, add_text, terminate_process_group, cancel, cancel_process, notify_process_started,
}
use semiconductor_domain_lab.Runner.OpenSta.Released.{mem_text-discard}
use semiconductor_domain_lab.Runner.OpenSta.Run.{
  run, run_found, forget_process, after_wait, conclude, launch, write_output,
}

mem_text-add : (s : String) (texts : List String) → mem_text s (add_text s texts) ≡ true
unfolding mem_text
mem_text-add s texts = ground (arith, (eq_iff s s).1 refl)

-- `cancel` right after the child has been registered.
cancel-launch :
    (c : Config) (w : World) (spec : JobSpec) (s : Sources) (a : Adapter)
    → w.is_running w.pid ≡ true
    → cancel w spec.job_id (launch c w spec s a) ≡ (
      true,
      terminate_process_group w.pid Signal.sigterm (record (launch c w spec s a) {
        cancelled_jobs = add_text spec.job_id (launch c w spec s a).cancelled_jobs;
      }),
    )
unfolding cancel cancel_process process_of launch
cancel-launch c w spec s a r = rw ((eq_iff spec.job_id spec.job_id).1 refl) (rw r refl)

run-finished :
    (c : Config) (w : World) (spec : JobSpec) (s : Sources) (a : Adapter) (out err : String)
    (code : ℤ)
    → find_sources c w spec ≡ Found.found s
    → w.communicated ≡ Waited.finished out err code
    → run c w spec a
      ≡ conclude c w spec.job_id s out err code
          (forget_process spec.job_id (w.meanwhile (launch c w spec s a)))
unfolding run run_found after_wait
run-finished c w spec s a out err code h k =
    rw h (ap (λ waited. after_wait c w spec.job_id s waited (w.meanwhile (launch c w spec s a))) k)

conclude-cancelled :
    (c : Config) (w : World) (job_id : String) (s : Sources) (out err : String) (code : ℤ)
    (a : Adapter)
    → mem_text job_id a.cancelled_jobs ≡ true
    → conclude c w job_id s out err code a ≡ (
      write_output w out err (record a { cancelled_jobs = discard job_id a.cancelled_jobs }),
      Ran.raised
          (AdapterError.adapter_cancelled ("OpenSTA cancellation observed; pid=" <> show_ℕ w.pid)),
    )
unfolding conclude
conclude-cancelled c w job_id s out err code a h = rw h refl

-- When another thread cancels the job while the run waits for its running child, `cancel` answers True,
-- the child gets SIGTERM and nothing else, and when it then ends, with whatever output and return
-- code, the run raises the cancellation and takes the mark of the job away again.
pub run-cancel :
    (c : Config) (w : World) (spec : JobSpec) (s : Sources) (a : Adapter) (out err : String)
    (code : ℤ)
    → find_sources c w spec ≡ Found.found s
    → w.is_running w.pid ≡ true
    → w.meanwhile (launch c w spec s a) ≡ (cancel w spec.job_id (launch c w spec s a)).1
    → w.communicated ≡ Waited.finished out err code
    → ((cancel w spec.job_id (launch c w spec s a)).0 ≡ true)
      × ((run c w spec a).1
          ≡ Ran.raised (
              AdapterError.adapter_cancelled
                ("OpenSTA cancellation observed; pid=" <> show_ℕ w.pid)))
      × (mem_text spec.job_id (run c w spec a).0.cancelled_jobs ≡ false)
      × ((run c w spec a).0.signals ≡ a.signals ++ (w.pid, Signal.sigterm) ∷ [])
unfolding launch notify_process_started write_output
run-cancel c w spec s a out err code h r m k = rw (run-finished c w spec s a out err code h k) (
    rw m (
      rw (cancel-launch c w spec s a r) (
        rw
          (conclude-cancelled c w spec.job_id s out err code
            (forget_process spec.job_id (
              terminate_process_group w.pid Signal.sigterm (record (launch c w spec s a) {
                cancelled_jobs = add_text spec.job_id (launch c w spec s a).cancelled_jobs;
              })))
            (mem_text-add spec.job_id a.cancelled_jobs))
          (
            refl,
            refl,
            mem_text-discard spec.job_id (add_text spec.job_id a.cancelled_jobs),
            refl,
          ))))
