-- ===== src/Tasks/Kept.antt =====
-- A relation between the states before and after the debugger's run, from those of its calls.
use kube_combo.Prelude.{ℕ, String, Option, none, some, List, [], ◌∷◌, ◌==◌, Io, Result, ok, err}
use kube_combo.Prelude.{Keeps, IsPreorder, pure-Keeps, >>=-Keeps, if-Keeps, bool_eq, nat_eq}
use kube_combo.Prelude.{string_eq, option_eq, list_eq}
use kube_combo.Prelude.Dict.{Dict}
use kube_combo.Tasks.{Task, Tasks, Detection, find_task, count_valid_tasks}
use kube_combo.Tasks.Config.{Configuration, get_script_env}
use kube_combo.Tasks.Run.{Payload, Host, Counts, Ended, early, arguments, format_env, run_result}
use kube_combo.Tasks.Run.{run_task, after_task, run_named, run_names, run_tasks, unless_failed}
use kube_combo.Tasks.Run.{no_counts, run_registered, register_and_run, run_detection}
use kube_combo.Tasks.Run.{start_debugger}

-- The calls of a host stay within a relation.
pub record Respects (h : Host) (R : h.World → h.World → Type 0) : Type 0 where
  pub order : IsPreorder R
  pub check_file_keeps : (directory name : String) → Keeps R (h.check_file directory name)
  pub load_keeps : (directory name : String) → Keeps R (h.load_detection directory name)
  pub execute_keeps : (path : String) (args env : List String) → Keeps R (h.execute path args env)
  pub post_keeps : (url : String) (payload : Payload) → Keeps R (h.post url payload)

module _ (h : Host) (R : h.World → h.World → Type 0) (respects : Respects h R)
    (config : Configuration) where
  open respects use {order, check_file_keeps, load_keeps, execute_keeps, post_keeps}

  after_task-Keeps :
      (env : Dict) (category name : String) (counts : Counts) (r : ℕ × Option String)
      → Keeps R (after_task h config env category name counts r)
  unfolding after_task
  after_task-Keeps env category name counts (code, none) = pure-Keeps R order _
  after_task-Keeps env category name counts (code, some e) =
      >>=-Keeps R order (h.post _ _) _ (post_keeps _ _) (λ posted. pure-Keeps R order _)

  run_named-Keeps :
      (env : Dict) (category name : String) (task : Option Task) (counts : Counts)
      → Keeps R (run_named h config env category name task counts)
  unfolding run_named run_task
  run_named-Keeps env category name none counts = pure-Keeps R order counts
  run_named-Keeps env category name (some task) counts =
      >>=-Keeps R order (run_task h config env task) _
        (>>=-Keeps R order (h.execute task.script (arguments task) (format_env env)) _
          (execute_keeps task.script (arguments task) (format_env env))
          (λ exit. pure-Keeps R order (run_result task exit)))
        (λ r. after_task-Keeps env category name counts r)

  run_names-Keeps :
      (env : Dict) (category : String) (names : List String) (counts : Counts)
      → Keeps R (run_names h config env category names counts)
  unfolding run_names
  run_names-Keeps env category [] counts = pure-Keeps R order counts
  run_names-Keeps env category (name ∷ names) counts =
      >>=-Keeps R order (run_named h config env category name (find_task name) counts) _
        (run_named-Keeps env category name (find_task name) counts)
        (λ next. run_names-Keeps env category names next)

  run_tasks-Keeps :
      (env : Dict) (tasks : Tasks) (counts : Counts) → Keeps R (run_tasks h config env tasks counts)
  unfolding run_tasks
  run_tasks-Keeps env [] counts = pure-Keeps R order counts
  run_tasks-Keeps env ((category, names) ∷ tasks) counts =
      >>=-Keeps R order (run_names h config env category names counts) _
        (run_names-Keeps env category names counts) (λ next. run_tasks-Keeps env tasks next)

  unless_failed-Keeps :
      (e : Option String) (rest : Io h.World Ended)
      → Keeps R rest
      → Keeps R (unless_failed h config e rest)
  unless_failed-Keeps (some e) rest keeps = pure-Keeps R order early
  unless_failed-Keeps none rest keeps = keeps

  run_registered-Keeps :
      (detection : Detection) (env : Dict) → Keeps R (run_registered h config detection env)
  unfolding run_registered
  run_registered-Keeps detection env =
      >>=-Keeps R order (run_tasks h config env detection.tasks (no_counts h config)) _
        (run_tasks-Keeps env detection.tasks (no_counts h config))
        (λ counts.
          >>=-Keeps R order (h.post _ _) _ (post_keeps _ _)
            (λ e. unless_failed-Keeps e _ (pure-Keeps R order _)))

  run_detection-Keeps : (r : Result Detection) → Keeps R (run_detection h config r)
  unfolding run_detection register_and_run
  run_detection-Keeps (err e) = pure-Keeps R order early
  run_detection-Keeps (ok detection) =
      if-Keeps R order (count_valid_tasks detection.tasks == 0) (λ p. pure-Keeps R order early)
        (λ p. >>=-Keeps R order (h.post _ _) _ (post_keeps _ _) (λ e.
          unless_failed-Keeps e _
            (run_registered-Keeps detection (get_script_env config detection))))

  pub start_debugger-Keeps : Keeps R (start_debugger h config)
  unfolding start_debugger
  start_debugger-Keeps =
      if-Keeps R order (config.task_file == "") (λ p. pure-Keeps R order early)
        (λ p.
          if-Keeps R order (config.node_name == "") (λ q. pure-Keeps R order early)
            (λ q.
              >>=-Keeps R order (h.check_file config.task_file_path config.task_file) _
                (check_file_keeps config.task_file_path config.task_file)
                (λ missing. unless_failed-Keeps missing _ (
                  >>=-Keeps R order (h.load_detection config.task_file_path config.task_file) _
                    (load_keeps config.task_file_path config.task_file) run_detection-Keeps))))
