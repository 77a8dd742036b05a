-- ===== src/Examples/Processes.antt =====
-- The OpenSTA adapter: a child that ends, one that is cancelled, and one that outlives its timeout.
use semiconductor_domain_lab.Prelude.{true, false, none, some, [], ◌∷◌, ◌++◌, ◌≡◌, refl}
use semiconductor_domain_lab.Prelude.Text.{◌<>◌}
use semiconductor_domain_lab.Models.{negsuc}
use semiconductor_domain_lab.Service.Text.{show_ℕ}
use semiconductor_domain_lab.Runner.{AdapterError}
use semiconductor_domain_lab.Runner.OpenSta.{
  Config, Signal, Adapter, Waited, World, Ran, Sources, Found, find_sources, mem_text, cancel,
}
use semiconductor_domain_lab.Runner.OpenSta.Run.{launch, run}
use semiconductor_domain_lab.Runner.OpenSta.Cancel.{run-cancel}
use semiconductor_domain_lab.Examples.Scene.{spec}

abbrev setup : Config
setup = record {
  sta_path = "/bin/sta";
  liberty_path = "/lib/tt.lib";
  fixture_dir = "/fixture";
  sdc_name = some "normal.sdc";
  netlist_path = none;
  script_name = "run.tcl";
  timeout_text = "30";
  expected_corner = some "tt";
}

abbrev idle : Adapter
idle = record {
  process_observer = none;
  additional_observers = [];
  processes = [];
  cancelled_jobs = [];
  launched = [];
  signals = [];
  copies = [];
  files = [];
  notified = [];
}

abbrev sources : Sources
sources = record {
  script = "/fixture/run.tcl";
  sdc = some "/fixture/normal.sdc";
  netlist = "/fixture/tiny_mapped.v";
}

-- A child that ignores SIGTERM.
abbrev stubborn : World
stubborn = record {
  is_file = λ path. true;
  sha256 = λ path. "ab";
  directory = "/work";
  pid = 7;
  is_running = λ pid. true;
  meanwhile = λ a. a;
  communicated = Waited.expired;
  after_sigterm = Waited.expired;
  after_sigkill = ("", "");
}

abbrev cancelling : World
cancelling = record stubborn {
  meanwhile = λ a. (cancel stubborn "job" a).1;
  communicated = Waited.finished "" "" (negsuc 14);
}

cancelling_test : find_sources setup cancelling spec ≡ Found.found sources
unfolding find_sources
cancelling_test = refl

run-cancel_example :
    ((cancel cancelling "job" (launch setup cancelling spec sources idle)).0 ≡ true)
    × ((run setup cancelling spec idle).1
        ≡ Ran.raised
            (AdapterError.adapter_cancelled ("OpenSTA cancellation observed; pid=" <> show_ℕ 7)))
    × (mem_text "job" (run setup cancelling spec idle).0.cancelled_jobs ≡ false)
    × ((run setup cancelling spec idle).0.signals ≡ [] ++ (7, Signal.sigterm) ∷ [])
unfolding cancel launch
run-cancel_example =
    run-cancel setup cancelling spec sources idle "" "" (negsuc 14) cancelling_test refl refl refl
