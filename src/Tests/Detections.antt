-- ===== src/Tests/Detections.antt =====
-- A run of the tasks of a node, with one task that succeeds, one that fails and one unknown.
use kube_combo.Prelude.{ℕ, ◌+◌, String, ◌≡◌, refl, sym, ap, ◌∙◌, ◌≢◌, none, List, [], ◌∷◌, ◌++◌}
use kube_combo.Prelude.{if◌then◌else◌, ◌==◌, ret, ok, ret-world, ret-value, bool_eq, nat_eq}
use kube_combo.Prelude.{string_eq, option_eq, list_eq}
use kube_combo.Text.Words.{starts_with}
use kube_combo.Tasks.{Detection, find_task, count_names, count_valid_tasks}
use kube_combo.Tasks.Config.{Flags, Configuration, configuration, get_script_env}
use kube_combo.Tasks.Run.{Host, Exit, Counts, summary, run_result, format_env, run_task}
use kube_combo.Tasks.Run.{start_flag, finish_flag, node_report}
use kube_combo.Tasks.Reported.{Happened, ran, LogsRun}
use kube_combo.Tasks.Sent.{HappenedRun, IsLoaded, start_debugger-Posted}
use kube_combo.Tasks.Run.{after_task, run_named, run_names, run_tasks, run_registered}
use kube_combo.Tasks.Run.{register_and_run, run_detection, start_debugger}
use kube_combo.Util.{build_url}
use kube_combo.Tasks.Count.{start_debugger-summary}

abbrev cpu_tasks : String × List String
cpu_tasks = ("cpu", "CPU_LOAD" ∷ [])

abbrev network_tasks : String × List String
network_tasks = ("network", "LATENCY" ∷ "UNKNOWN" ∷ [])

abbrev pub detection : Detection
detection = record { timestamp = "1700000000"; tasks = cpu_tasks ∷ network_tasks ∷ [] }

abbrev flags : Flags
flags = record {
  task = "task.json";
  task_dir = "/runAt";
  script_dir = "/scripts";
  log_perm = "640";
}

abbrev variables : String → String
variables name =
    if name == "NODE_NAME" then "node-1" else if name == "REPORT" then "v1/report" else ""

abbrev pub settings : Configuration
settings = record {
  task_file = "task.json";
  task_file_path = "/runAt";
  script_file_path = "/scripts";
  log_perm = "640";
  node_name = "node-1";
  log_level = "info";
  log_flag = "false";
  log_file = "/var/log/debugger.log";
  eis_service_address = "http://eis.eis.svc.cluster.local";
  eis_service_port = "8361";
  register = "/v1/clusters/detection/register";
  report = "v1/report";
  terminate = "/v1/clusters/detection/terminate";
}

configured : configuration flags variables ≡ settings
unfolding configuration string_eq
configured = refl

abbrev exit_of : String → Exit
exit_of path =
    if path == "/runAt/cpu/CPU_Detection.sh" then Exit.done "fine" else Exit.exited 2 "slow"

-- The world is the list of the addresses that were posted to.
abbrev node : Host
node = record {
  World = List String;
  check_file = λ dir file w. ret (none, w);
  load_detection = λ dir file w. ret (ok detection, w);
  execute = λ path args env w. ret (exit_of path, w);
  post = λ address payload w. ret (none, w ++ (address ∷ []));
}

abbrev pub counted : Counts
counted = record { success = 1; fail = 1 }

abbrev posted : List String
posted =
    "http://eis.eis.svc.cluster.local:8361/v1/clusters/detection/register"
    ∷ "http://eis.eis.svc.cluster.local:8361/v1/report"
    ∷ "http://eis.eis.svc.cluster.local:8361/v1/clusters/detection/terminate" ∷ []

run : start_debugger node settings [] ≡ ret (summary 2 counted, posted)
unfolding start_debugger run_detection register_and_run run_registered run_tasks run_names run_named
    find_task run_task run_result format_env after_task count_valid_tasks count_names get_script_env
    build_url starts_with string_eq nat_eq kube_combo.Prelude.Dict.lookup
run = refl

start_debugger-summary_example : (counted.success + counted.fail ≡ 2) × (◌≢◌ {A = ℕ} 2 0)
start_debugger-summary_example = start_debugger-summary node settings 2 counted [] posted run

-- The same host, whose state is the trace of what ran and what was posted.
abbrev service : Host
service = record {
  World = List Happened;
  check_file = λ dir file w. ret (none, w);
  load_detection = λ dir file w. ret (ok detection, w);
  execute = λ path args env w. ret (exit_of path, w ++ ran path args env (exit_of path) ∷ []);
  post = λ address payload w. ret (none, w ++ Happened.posted address payload ∷ []);
}

service-LogsRun : LogsRun service (λ w. w)
service-LogsRun = record {
  post_logs = λ address payload w v e h.
      sym (ret-world none e (w ++ Happened.posted address payload ∷ []) v h);
  execute_logs = λ path args env w v exit h.
      sym (ret-world (exit_of path) exit _ v h)
      ∙ ap (λ (x : Exit). w ++ ran path args env x ∷ []) (ret-value (exit_of path) exit _ v h);
  check_file_keeps = λ dir file w v r h. sym (ret-world _ r w v h);
  load_keeps = λ dir file w v r h. sym (ret-world _ r w v h);
}

abbrev script_env : List String
script_env = format_env (get_script_env settings detection)

abbrev happened : List Happened
happened =
    Happened.posted "http://eis.eis.svc.cluster.local:8361/v1/clusters/detection/register"
      (start_flag "node-1" 2 "1700000000")
    ∷ ran "/runAt/cpu/CPU_Detection.sh" [] script_env (Exit.done "fine")
    ∷ ran "/runAt/network-configuration/latency-detection.sh" [] script_env (Exit.exited 2 "slow")
    ∷ Happened.posted "http://eis.eis.svc.cluster.local:8361/v1/report"
        (node_report "node-1" "1700000000" "network" "LATENCY")
    ∷ Happened.posted "http://eis.eis.svc.cluster.local:8361/v1/clusters/detection/terminate"
        (finish_flag "node-1" "1700000000")
    ∷ []

service_run : start_debugger service settings [] ≡ ret (summary 2 counted, happened)
unfolding start_debugger run_detection register_and_run run_registered run_tasks run_names run_named
    find_task run_task run_result format_env after_task count_valid_tasks count_names get_script_env
    build_url starts_with string_eq nat_eq kube_combo.Prelude.Dict.lookup
    kube_combo.Prelude.Dict.insert
service_run = refl

start_debugger-Posted_example :
    (d : Detection) × IsLoaded service (λ w. w) service-LogsRun settings d
    × HappenedRun service (λ w. w) service-LogsRun settings d counted [] happened
start_debugger-Posted_example =
    start_debugger-Posted service (λ w. w) service-LogsRun settings 2 counted [] happened
      service_run
