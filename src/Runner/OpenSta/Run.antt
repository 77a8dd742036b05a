-- ===== src/Runner/OpenSta/Run.antt =====
-- src/eda_lab/runner.py: `OpenStaSubprocessAdapter.run` from the directory that it makes on. The wait of
-- EDA_OPENSTA_HOLD_AFTER_START_SECONDS is left out: it changes nothing.
use semiconductor_domain_lab.Prelude.{
  ℕ, String, Option, none, some, List, [], ◌∷◌, ◌++◌, if◌then◌else◌,
}
use semiconductor_domain_lab.Prelude.Text.{◌<>◌, file_name}
use semiconductor_domain_lab.Models.{ℤ, Json, JobSpec, AdapterRunResult}
use semiconductor_domain_lab.Service.Text.{show_ℕ}
use semiconductor_domain_lab.Runner.{AdapterError}
use semiconductor_domain_lab.Runner.OpenSta.{
  Config, Signal, Adapter, Waited, World, Ran, Sources, Found, find_sources, pop_process,
  set_process, mem_text, discard, terminate_process_group, notify_process_started,
}

abbrev sdc_list : Option String → List String
sdc_list none = []
sdc_list (some path) = path ∷ []

abbrev own_netlist : Option String → String → List String
own_netlist none netlist = netlist ∷ []
own_netlist (some path) netlist = []

copies_to : String → List String → List (String × String)
unfolding ◌<>◌ file_name
copies_to directory [] = []
copies_to directory (path ∷ rest) =
    (path, directory <> ("/" <> file_name path)) ∷ copies_to directory rest

abbrev netlist_path : Option String → String → String → String
netlist_path none directory netlist = directory <> ("/" <> file_name netlist)
netlist_path (some path) directory netlist = netlist

abbrev sdc_environment : String → Option String → List (String × String)
sdc_environment directory none = []
sdc_environment directory (some path) = ("EDA_SDC", directory <> ("/" <> file_name path)) ∷ []

-- The copies and the start of the child, up to its entry into `_processes`.
unfoldable pub launch : Config → World → JobSpec → Sources → Adapter → Adapter
unfolding copies_to ◌<>◌ file_name notify_process_started
launch c w spec s a =
    let started = record a {
      copies =
          a.copies
          ++ copies_to w.directory
              (s.script ∷ sdc_list s.sdc ++ own_netlist c.netlist_path s.netlist);
      launched =
          a.launched
          ++ record {
            pid = w.pid;
            command = c.sta_path ∷ "-no_init" ∷ "-exit" ∷ file_name s.script ∷ [];
            cwd = w.directory;
            environment =
                ("EDA_LIB", c.liberty_path)
                ∷ ("EDA_NETLIST", netlist_path c.netlist_path w.directory s.netlist)
                ∷ sdc_environment w.directory s.sdc;
          }
            ∷ [];
    } in
    let told = notify_process_started w.pid started in
    record told { processes = set_process spec.job_id w.pid told.processes }

unfoldable pub write_output : World → String → String → Adapter → Adapter
unfolding ◌<>◌
write_output w stdout stderr a = record a {
  files =
      a.files
      ++ (w.directory <> "/timing.report", stdout) ∷ (w.directory <> "/stderr.log", stderr) ∷ [];
}

timeout_message : Config → ℕ → String → String
unfolding ◌<>◌
timeout_message c pid termination =
    "OpenSTA timed out after "
    <> (c.timeout_text <> ("s; pid=" <> (show_ℕ pid <> ("; termination=" <> termination))))

-- `finally`
abbrev pub forget_process : String → Adapter → Adapter
forget_process job_id a = record a { processes = pop_process job_id a.processes }

-- `except subprocess.TimeoutExpired`, after the SIGTERM
unfoldable pub give_up : Config → World → Waited → Adapter → Adapter × Ran
unfolding write_output timeout_message
give_up c w (Waited.finished stdout stderr code) a = (
  write_output w stdout stderr a,
  Ran.raised (AdapterError.timeout_error (timeout_message c w.pid "SIGTERM")),
)
give_up c w Waited.expired a = (
  write_output w w.after_sigkill.0 w.after_sigkill.1
      (terminate_process_group w.pid Signal.sigkill a),
  Ran.raised (AdapterError.timeout_error (timeout_message c w.pid "SIGKILL")),
)

abbrev sha_of : World → Option String → Json
sha_of w none = Json.null
sha_of w (some path) = Json.text (w.sha256 path)

unfoldable pub result_of : Config → World → Sources → ℤ → AdapterRunResult
unfolding ◌<>◌
result_of c w s code = record {
  artifact_path = w.directory <> "/timing.report";
  process_exit_code = some code;
  execution_provenance = some (
      ("command_template_id", Json.text "opensta-fixed-fixture-v1")
      ∷ ("tool_path", Json.text c.sta_path)
      ∷ ("liberty_sha256", Json.text (w.sha256 c.liberty_path))
      ∷ ("script_sha256", Json.text (w.sha256 s.script))
      ∷ ("sdc_sha256", sha_of w s.sdc)
      ∷ ("netlist_sha256", Json.text (w.sha256 s.netlist))
      ∷ []);
}

-- What follows the `finally`, where the child has ended by itself.
unfoldable pub conclude :
    Config → World → String → Sources → String → String → ℤ → Adapter → Adapter × Ran
unfolding write_output result_of mem_text discard
conclude c w job_id s stdout stderr code a =
    let kept = record a { cancelled_jobs = discard job_id a.cancelled_jobs } in
    let ended = write_output w stdout stderr kept in
    if mem_text job_id a.cancelled_jobs
    then (
      ended,
      Ran.raised
          (AdapterError.adapter_cancelled ("OpenSTA cancellation observed; pid=" <> show_ℕ w.pid)),
    )
    else (ended, Ran.returned (result_of c w s code))

-- What the wait for the child gave.
unfoldable pub after_wait : Config → World → String → Sources → Waited → Adapter → Adapter × Ran
unfolding give_up conclude pop_process
after_wait c w job_id s (Waited.finished stdout stderr code) a =
    conclude c w job_id s stdout stderr code (forget_process job_id a)
after_wait c w job_id s Waited.expired a =
    let (gone, outcome) =
      give_up c w w.after_sigterm (terminate_process_group w.pid Signal.sigterm a) in
    (forget_process job_id gone, outcome)

unfoldable pub run_found : Config → World → JobSpec → Found Sources → Adapter → Adapter × Ran
unfolding after_wait launch
run_found c w spec (Found.refused e) a = (a, Ran.raised e)
run_found c w spec (Found.found s) a =
    after_wait c w spec.job_id s w.communicated (w.meanwhile (launch c w spec s a))

unfoldable pub run : Config → World → JobSpec → Adapter → Adapter × Ran
unfolding run_found find_sources
run c w spec a = run_found c w spec (find_sources c w spec) a
