-- ===== src/Tasks/Run.antt =====
-- `runTask`, `formatEnv` and `StartDebugger`.
use kube_combo.Prelude.{ℕ, ◌+◌, String, ◌<>◌, Option, none, some, List, [], ◌∷◌, if◌then◌else◌}
use kube_combo.Prelude.{◌==◌, ◌!=◌, Io, ◌>>=◌, pure, Result, ok, err, bool_eq, nat_eq, string_eq}
use kube_combo.Prelude.{option_eq, list_eq}
use kube_combo.Prelude.Dict
use kube_combo.Prelude.Dict.{Dict}
use kube_combo.Text.Words.{fields}
use kube_combo.Text.Decimal.{itoa}
use kube_combo.Tasks.{Task, Tasks, Detection, find_task, count_valid_tasks}
use kube_combo.Tasks.Config.{Configuration, get_script_env}
use kube_combo.Util.{build_url}

-- How a process ended: with its output, at the timeout, with a code that is not 0, by a signal
-- (for which the code is -1), or it never ran.
pub data Exit : Type 0 where
  done : String → Exit
  timed_out : Exit
  exited : ℕ → String → Exit
  killed : String → Exit
  not_run : String → String → Exit

-- What is posted: the fields of `StartFlag`, of `FinishFlag`, and of a report on one task.
pub data Payload : Type 0 where
  start_flag : String → ℕ → String → Payload
  finish_flag : String → String → Payload
  node_report : String → String → String → String → Payload

-- The file system, the processes and the service, over the state of the world. The task file is
-- given by its directory and its name; a command by its path, its arguments and its environment.
pub record Host : Type 1 where
  pub World : Type 0
  pub check_file : String → String → Io World (Option String)
  pub load_detection : String → String → Io World (Result Detection)
  pub execute : String → List String → List String → Io World Exit
  pub post : String → Payload → Io World (Option String)

-- `k=v`; the order of the map is that of the list.
unfoldable pub format_env : Dict → List String
format_env [] = []
format_env ((k, v) ∷ env) = (k <> ("=" <> v)) ∷ format_env env

abbrev pub arguments : Task → List String
arguments task = if task.args != "" then fields task.args else []

abbrev exit_text : String → String → String
exit_text code output = "task exited with code " <> (code <> (", output:\n" <> output))

-- The exit code and the error of `runTask`, whose timeout is ten seconds.
unfoldable pub run_result : Task → Exit → ℕ × Option String
run_result task (done output) = (0, none)
run_result task timed_out = (1, some "task timed out after 10s")
run_result task (exited code output) =
    if code == 100
    then (100, some (exit_text (itoa code) output))
    else (1, some (exit_text (itoa code) output))
run_result task (killed output) = (1, some (exit_text "-1" output))
run_result task (not_run e output) =
    (1, some ("failed to run " <> (task.script <> (": " <> (e <> (", output:\n" <> output))))))

-- The counts of the summary.
pub record Counts : Type 0 where
  pub success : ℕ
  pub fail : ℕ

-- `varEnv[key]`, which is empty without an entry.
abbrev pub value_of : Dict → String → String
value_of env key = elim (Dict.lookup key env) [ none ↦ "" | some v ↦ v ]

module _ (h : Host) (config : Configuration) (env : Dict) where
  open h use {World, execute, post}

  unfoldable pub run_task : Task → Io World (ℕ × Option String)
  unfolding run_result format_env
  run_task task = do
    exit ← execute task.script (arguments task) (format_env env)
    pure (run_result task exit)

  abbrev url : String → String
  url path = build_url config.eis_service_address config.eis_service_port path

  -- A task that failed is counted and reported; that the report fails is only logged.
  unfoldable pub after_task : String → String → Counts → ℕ × Option String → Io World Counts
  after_task category name counts (code, none) =
      pure (record counts { success = counts.success + 1 })
  after_task category name counts (code, some e) = do
    posted ←
        post (url config.report)
          (node_report (value_of env "NodeName") (value_of env "Timestamp") category name)
    pure (record counts { fail = counts.fail + 1 })

  -- A task without a script is passed over.
  unfoldable pub run_named : String → String → Option Task → Counts → Io World Counts
  run_named category name none counts = pure counts
  run_named category name (some task) counts = do
    r ← run_task task
    after_task category name counts r

  unfoldable pub run_names : String → List String → Counts → Io World Counts
  run_names category [] counts = pure counts
  run_names category (name ∷ names) counts = do
    next ← run_named category name (find_task name) counts
    run_names category names next

  unfoldable pub run_tasks : Tasks → Counts → Io World Counts
  run_tasks [] counts = pure counts
  run_tasks ((category, names) ∷ tasks) counts = do
    next ← run_names category names counts
    run_tasks tasks next

-- The program ends early, or with its summary: the valid tasks and the counts.
pub data Ended : Type 0 where
  early : Ended
  summary : ℕ → Counts → Ended

module _ (h : Host) (config : Configuration) where
  open h use {World, check_file, load_detection, post}

  abbrev pub service_url : String → String
  service_url path = build_url config.eis_service_address config.eis_service_port path

  abbrev pub unless_failed : Option String → Io World Ended → Io World Ended
  unless_failed (some e) rest = pure early
  unless_failed none rest = rest

  abbrev pub no_counts : Counts
  no_counts = record { success = 0; fail = 0 }

  unfoldable pub run_registered : Detection → Dict → Io World Ended
  run_registered detection env = do
    counts ← run_tasks h config env detection.tasks no_counts
    e ←
        post (service_url config.terminate)
          (finish_flag (value_of env "NodeName") (value_of env "Timestamp"))
    unless_failed e (pure (summary (count_valid_tasks detection.tasks) counts))

  unfoldable pub register_and_run : Detection → Dict → Io World Ended
  register_and_run detection env = do
    e ← post (service_url config.register) (
        start_flag (value_of env "NodeName") (count_valid_tasks detection.tasks)
          (value_of env "Timestamp"))
    unless_failed e (run_registered detection env)

  unfoldable pub run_detection : Result Detection → Io World Ended
  run_detection (err e) = pure early
  run_detection (ok detection) =
      if count_valid_tasks detection.tasks == 0
      then pure early
      else register_and_run detection (get_script_env config detection)

  unfoldable pub start_debugger : Io World Ended
  start_debugger =
      if config.task_file == ""
      then pure early
      else if config.node_name == ""
      then pure early
      else (do
        missing ← check_file config.task_file_path config.task_file
        unless_failed missing
            (load_detection config.task_file_path config.task_file >>= run_detection))
