-- ===== src/Tasks/Sent.antt =====
-- What happens in a run of the debugger, and in which order.
use kube_combo.Prelude.{ℕ, String, ◌≡◌, refl, sym, ap, ◌∙◌, Bool, true, false, Option, none, some}
use kube_combo.Prelude.{List, [], ◌∷◌, ◌++◌, map, arith, if◌then◌else◌, ◌==◌, ret, Io, ◌>>=◌, pure}
use kube_combo.Prelude.{Result, ok, err, >>=-ret, ret-world, ret-value, bool_eq, nat_eq, string_eq}
use kube_combo.Prelude.{option_eq, list_eq}
use kube_combo.Prelude.Dict.{Dict}
use mathlib.Core.List.{append_assoc}
use kube_combo.Tasks.{Detection, count_valid_tasks}
use kube_combo.Tasks.Config.{Configuration, get_script_env}
use kube_combo.Tasks.Run.{Payload, start_flag, finish_flag, Host, Counts, Ended, early}
use kube_combo.Tasks.Run.{summary, value_of}
use kube_combo.Tasks.Run.{run_tasks, unless_failed, no_counts, service_url}
use kube_combo.Tasks.Run.{run_registered, register_and_run, run_detection, start_debugger}
use kube_combo.Tasks.Reported.{Happened, posted, Entry, key_of, known, listed, successes, failures}
use kube_combo.Tasks.Reported.{LogsRun, happenings}
use kube_combo.Tasks.Performed.{run_tasks-Performed}

module _ (h : Host) (trace : h.World → List Happened) (logs : LogsRun h trace)
    (config : Configuration) where
  abbrev start_of : Detection → Dict → Payload
  start_of detection env =
      start_flag (value_of env "NodeName") (count_valid_tasks detection.tasks)
        (value_of env "Timestamp")

  abbrev finish_of : Dict → Payload
  finish_of env = finish_flag (value_of env "NodeName") (value_of env "Timestamp")

  abbrev started : Detection → Dict → Happened
  started detection env = posted (service_url h config config.register) (start_of detection env)

  abbrev finished : Dict → Happened
  finished env = posted (service_url h config config.terminate) (finish_of env)

  -- What happens in a whole run: its start is posted, the scripts run and the failed tasks are
  -- reported, and its end is posted.
  abbrev pub whole_run : Detection → Dict → List Entry → List Happened
  whole_run detection env entries =
      started detection env ∷ (happenings h config env entries ++ finished env ∷ [])

  -- The counts of a summary.
  abbrev counts_of : Ended → Counts
  counts_of early = no_counts h config
  counts_of (summary n c) = c

  summary-unless_failed :
      (e : Option String) (rest : Io h.World Ended) (n : ℕ) (c : Counts) (w v : h.World)
      → unless_failed h config e rest w ≡ ret (summary n c, v)
      → rest w ≡ ret (summary n c, v)
  summary-unless_failed (some e) rest n c w v k = cc
  summary-unless_failed none rest n c w v k = k

  summary-if :
      (b : Bool) (m : Io h.World Ended) (n : ℕ) (c : Counts) (w v : h.World)
      → (if b then pure early else m) w ≡ ret (summary n c, v)
      → m w ≡ ret (summary n c, v)
  summary-if true m n c w v k = cc
  summary-if false m n c w v k = k

  run_registered-Performed :
      (detection : Detection) (env : Dict) (n : ℕ) (c : Counts) (w v : h.World)
      → run_registered h config detection env w ≡ ret (summary n c, v)
      → (entries : List Entry) × (map key_of entries ≡ known (listed detection.tasks))
        × (trace v ≡ trace w ++ (happenings h config env entries ++ finished env ∷ []))
        × (c.success ≡ successes entries)
        × (c.fail ≡ failures entries)
  unfolding run_registered
  run_registered-Performed detection env n c w v k =
      let (d, u, first, rest) =
        >>=-ret (run_tasks h config env detection.tasks (no_counts h config)) _ w v (summary n c)
          k in
      let (e, t, sent, last) = >>=-ret (h.post _ (finish_of env)) _ u v (summary n c) rest in
      let over =
        summary-unless_failed e (pure (summary (count_valid_tasks detection.tasks) d)) n c t v
          last in
      let (entries, all_known, made, success, fail) =
        run_tasks-Performed h trace logs config env detection.tasks (no_counts h config) d w u
          first in
      let same =
        ap counts_of
          (ret-value (summary (count_valid_tasks detection.tasks) d) (summary n c) t v over) in
      (
        entries,
        all_known,
        ap trace (
              sym
                (ret-world (summary (count_valid_tasks detection.tasks) d) (summary n c) t v over))
            ∙ logs.post_logs _ (finish_of env) u t e sent
            ∙ ap (λ hs. hs ++ finished env ∷ []) made
            ∙ append_assoc (trace w) (happenings h config env entries) (finished env ∷ []),
        ap (λ (x : Counts). x.success) (sym same) ∙ success ∙ omega arith,
        ap (λ (x : Counts). x.fail) (sym same) ∙ fail ∙ omega arith,
      )

  -- The whole run of a detection happened: each of its tasks that has a script ran it once, and the
  -- counts are those of the scripts that succeeded and failed.
  abbrev pub HappenedRun : Detection → Counts → h.World → h.World → Type 0
  HappenedRun detection c w v =
      (entries : List Entry) × (map key_of entries ≡ known (listed detection.tasks))
      × (trace v ≡ trace w ++ whole_run detection (get_script_env config detection) entries)
      × (c.success ≡ successes entries)
      × (c.fail ≡ failures entries)

  -- The detection is that of the task file.
  abbrev pub IsLoaded : Detection → Type 0
  IsLoaded detection =
      (u t : h.World) × (h.load_detection config.task_file_path config.task_file u
        ≡ ret (ok detection, t))

  register_and_run-Happened :
      (detection : Detection) (n : ℕ) (c : Counts) (w v : h.World)
      → register_and_run h config detection (get_script_env config detection) w
        ≡ ret (summary n c, v)
      → HappenedRun detection c w v
  unfolding register_and_run
  register_and_run-Happened detection n c w v k =
      let env = get_script_env config detection in
      let (e, u, sent, rest) = >>=-ret (h.post _ (start_of detection env)) _ w v (summary n c) k in
      let over = summary-unless_failed e (run_registered h config detection env) n c u v rest in
      let (entries, all_known, made, success, fail) =
        run_registered-Performed detection env n c u v over in
      (
        entries,
        all_known,
        made
            ∙ ap (λ hs. hs ++ (happenings h config env entries ++ finished env ∷ []))
                (logs.post_logs _ (start_of detection env) w u e sent)
            ∙ append_assoc (trace w) (started detection env ∷ [])
                (happenings h config env entries ++ finished env ∷ []),
        success,
        fail,
      )

  run_detection-Happened :
      (r : Result Detection) (n : ℕ) (c : Counts) (w v : h.World)
      → run_detection h config r w ≡ ret (summary n c, v)
      → (detection : Detection) × (r ≡ ok detection) × HappenedRun detection c w v
  unfolding run_detection
  run_detection-Happened (err e) n c w v k = cc
  run_detection-Happened (ok detection) n c w v k = (
    detection,
    refl,
    register_and_run-Happened detection n c w v (
        summary-if (count_valid_tasks detection.tasks == 0)
          (register_and_run h config detection (get_script_env config detection)) n c w v k),
  )

  -- If each command that ran and each post is logged and nothing else is, then a run that ends with
  -- its summary logged just this, in this order: the post of its start; for each task of the loaded
  -- task file that has a script, in the order in which the categories and their names are iterated,
  -- its script with how it ended, and behind it a report on the task if and only if it did not end
  -- with its output; and the post of its end. The counts are the numbers of the scripts that
  -- succeeded and that failed.
  pub start_debugger-Posted :
      (n : ℕ) (c : Counts) (w v : h.World)
      → start_debugger h config w ≡ ret (summary n c, v)
      → (detection : Detection) × IsLoaded detection × HappenedRun detection c w v
  unfolding start_debugger
  start_debugger-Posted n c w v k =
      let load = h.load_detection config.task_file_path config.task_file in
      let check = h.check_file config.task_file_path config.task_file in
      let on_file = λ (missing : Option String).
        unless_failed h config missing (load >>= run_detection h config) in
      let on =
        summary-if (config.node_name == "") (check >>= on_file) n c w v
          (summary-if (config.task_file == "") _ n c w v k) in
      let (missing, u, checked, rest) = >>=-ret check on_file w v (summary n c) on in
      let (r, t, loaded, last) =
        >>=-ret load (run_detection h config) u v (summary n c)
          (summary-unless_failed missing (load >>= run_detection h config) n c u v rest) in
      let (detection, is_ok, (entries, all_known, made, success, fail)) =
        run_detection-Happened r n c t v last in
      let same = logs.load_keeps _ _ u t r loaded ∙ logs.check_file_keeps _ _ w u missing checked in
      (
        detection,
        (u, t, loaded ∙ ap (λ x. ret (x, t)) is_ok),
        (
          entries,
          all_known,
          made
              ∙ ap (λ hs. hs ++ whole_run detection (get_script_env config detection) entries) same,
          success,
          fail,
        ),
      )
