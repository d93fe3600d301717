-- ===== src/Tasks/Performed.antt =====
-- The tasks of the debugger leave the trace of their scripts and reports.
use kube_combo.Prelude.{ℕ, ◌+◌, String, ◌≡◌, refl, sym, ap, ◌∙◌, Option, none, some, List, [], ◌∷◌}
use kube_combo.Prelude.{◌++◌, map, arith, Go, ret, pure, >>=-ret, subst, ret-world, ret-value}
use kube_combo.Prelude.{bool_eq, nat_eq, string_eq, option_eq, list_eq}
use kube_combo.Prelude.Dict.{Dict}
use mathlib.Core.List.{append-nil, append_assoc, map-append}
use kube_combo.Tasks.{Task, Tasks, find_task}
use kube_combo.Tasks.Config.{Configuration}
use kube_combo.Tasks.Run.{node_report, Host, Counts}
use kube_combo.Tasks.Run.{arguments, format_env, run_result, run_task, value_of}
use kube_combo.Tasks.Run.{after_task, run_named, run_names, run_tasks}
use kube_combo.Tasks.Reported.{Happened, ran, Entry, Named, key_of, keyed, known, successes}
use kube_combo.Tasks.Reported.{failures, successes-append, failures-append, listed_names, listed}
use kube_combo.Tasks.Reported.{known-append, Agrees, run_result-Agrees, LogsRun, report_on}
use kube_combo.Tasks.Reported.{happenings, happenings-append}

module _ (h : Host) (trace : h.World → List Happened) (logs : LogsRun h trace)
    (config : Configuration) (env : Dict) where
  -- Between two counts, each of the tasks that have a script ran it once, in their order, and was
  -- reported at once if it failed; the counts grew by the numbers of successes and failures.
  abbrev pub Performed : List Named → Counts → Counts → h.World → h.World → Type 0
  Performed tasks c d w v =
      (entries : List Entry) × (map key_of entries ≡ known tasks)
      × (trace v ≡ trace w ++ happenings h config env entries)
      × (d.success ≡ c.success + successes entries)
      × (d.fail ≡ c.fail + failures entries)

  Performed-none :
      (tasks : List Named) (c d : Counts) (w v : h.World)
      → known tasks ≡ []
      → ◌≡◌ {A = Go (Counts × h.World)} (ret (c, w)) (ret (d, v))
      → Performed tasks c d w v
  Performed-none tasks c d w v empty k =
      let same = ret-value c d w v k in
      let success = ap (λ (x : Counts). x.success) same in
      let fail = ap (λ (x : Counts). x.fail) same in
      (
        [],
        sym empty,
        ap trace (sym (ret-world c d w v k)) ∙ sym (append-nil (trace w)),
        omega arith,
        omega arith,
      )

  Performed-follows :
      (first rest : List Named) (b c d : Counts) (u v w : h.World)
      → Performed first b c u v
      → Performed rest c d v w
      → Performed (first ++ rest) b d u w
  Performed-follows first rest b c d u v w (xs, xs_known, xs_trace, xs_success, xs_fail)
        (ys, ys_known, ys_trace, ys_success, ys_fail) =
      let success = successes-append xs ys in
      let fail = failures-append xs ys in
      (
        xs ++ ys,
        map-append key_of xs ys
            ∙ ap (λ ks. ks ++ map key_of ys) xs_known
            ∙ ap (λ ks. known first ++ ks) ys_known
            ∙ sym (known-append first rest),
        ys_trace
            ∙ ap (λ hs. hs ++ happenings h config env ys) xs_trace
            ∙ append_assoc (trace u) (happenings h config env xs) (happenings h config env ys)
            ∙ ap (λ hs. trace u ++ hs) (sym (happenings-append h config env xs ys)),
        omega arith,
        omega arith,
      )

  -- The count and the report behind a script that ended.
  after_task-Performed :
      (e : Entry) (c d : Counts) (r : ℕ × Option String) (w u v : h.World)
      → known ((e.category, e.name) ∷ []) ≡ key_of e ∷ []
      → Agrees e.exit r
      → trace u ≡ trace w ++ ran e.task.script (arguments e.task) (format_env env) e.exit ∷ []
      → after_task h config env e.category e.name c r u ≡ ret (d, v)
      → Performed ((e.category, e.name) ∷ []) c d w v
  unfolding after_task
  after_task-Performed e c d (code, none) w u v is_known agrees log k =
      let next = record c { success = c.success + 1 } in
      let same = ret-value next d u v k in
      let success = ap (λ (x : Counts). x.success) same in
      let fail = ap (λ (x : Counts). x.fail) same in
      (
        e ∷ [],
        sym is_known,
        ap trace (sym (ret-world next d u v k)) ∙ log ∙ rw agrees refl,
        rw agrees (omega arith),
        rw agrees (omega arith),
      )
  after_task-Performed e c d (code, some m) w u v is_known agrees log k =
      let next = record c { fail = c.fail + 1 } in
      let report =
        node_report (value_of env "NodeName") (value_of env "Timestamp") e.category e.name in
      let (answer, t, first, last) = >>=-ret (h.post _ report) (λ answer. pure next) u v d k in
      let same = ret-value next d t v last in
      let success = ap (λ (x : Counts). x.success) same in
      let fail = ap (λ (x : Counts). x.fail) same in
      (
        e ∷ [],
        sym is_known,
        ap trace (sym (ret-world next d t v last))
            ∙ logs.post_logs _ report u t answer first
            ∙ ap (λ hs. hs ++ report_on h config env (e.category, e.name) ∷ []) log
            ∙ append_assoc (trace w)
                (ran e.task.script (arguments e.task) (format_env env) e.exit ∷ [])
                (report_on h config env (e.category, e.name) ∷ [])
            ∙ rw agrees refl,
        rw agrees (omega arith),
        rw agrees (omega arith),
      )

  run_named-Performed :
      (category name : String) (o : Option Task) (c d : Counts) (w v : h.World)
      → find_task name ≡ o
      → run_named h config env category name o c w ≡ ret (d, v)
      → Performed ((category, name) ∷ []) c d w v
  unfolding run_named run_task known
  run_named-Performed category name none c d w v is_task k =
      Performed-none ((category, name) ∷ []) c d w v (ap (λ o. keyed category name o []) is_task) k
  run_named-Performed category name (some task) c d w v is_task k =
      let (r, u, first, rest) =
        >>=-ret (run_task h config env task) (after_task h config env category name c) w v d k in
      let (exit, t, executed, last) =
        >>=-ret (h.execute task.script (arguments task) (format_env env))
          (λ exit. pure (run_result task exit)) w u r first in
      after_task-Performed (record { category = category; name = name; task = task; exit = exit }) c
        d r w u v (ap (λ o. keyed category name o []) is_task)
        (subst (Agrees exit) (ret-value (run_result task exit) r t u last)
          (run_result-Agrees task exit))
        (ap trace (sym (ret-world (run_result task exit) r t u last))
          ∙ logs.execute_logs task.script (arguments task) (format_env env) w t exit executed)
        rest

  run_names-Performed :
      (category : String) (names : List String) (c d : Counts) (w v : h.World)
      → run_names h config env category names c w ≡ ret (d, v)
      → Performed (listed_names category names) c d w v
  unfolding run_names known
  run_names-Performed category [] c d w v k = Performed-none [] c d w v refl k
  run_names-Performed category (name ∷ names) c d w v k =
      let (b, u, first, rest) =
        >>=-ret (run_named h config env category name (find_task name) c)
          (run_names h config env category names) w v d k in
      Performed-follows ((category, name) ∷ []) (listed_names category names) c b d w u v
        (run_named-Performed category name (find_task name) c b w u refl first)
        (run_names-Performed category names b d u v rest)

  pub run_tasks-Performed :
      (tasks : Tasks) (c d : Counts) (w v : h.World)
      → run_tasks h config env tasks c w ≡ ret (d, v)
      → Performed (listed tasks) c d w v
  unfolding run_tasks known
  run_tasks-Performed [] c d w v k = Performed-none [] c d w v refl k
  run_tasks-Performed ((category, names) ∷ tasks) c d w v k =
      let (b, u, first, rest) =
        >>=-ret (run_names h config env category names c) (run_tasks h config env tasks) w v d k in
      Performed-follows (listed_names category names) (listed tasks) c b d w u v
        (run_names-Performed category names c b w u first) (run_tasks-Performed tasks b d u v rest)
