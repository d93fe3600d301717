-- ===== src/Tasks/Count.antt =====
-- The counts of a run.
use kube_combo.Prelude.{ℕ, ◌+◌, String, ◌≡◌, refl, sym, ap, ◌∙◌, ◌≢◌, inl, inr, true, false, Option}
use kube_combo.Prelude.{none, some, List, [], ◌∷◌, arith, if◌then◌else◌, ◌==◌, Go, ret, ◌>>=◌, pure}
use kube_combo.Prelude.{Result, ok, err, Bool-cases, >>=-ret, bool_eq, nat_eq, string_eq, option_eq}
use kube_combo.Prelude.{list_eq}
use kube_combo.Prelude.Dict.{Dict}
use mathlib.Core.List.{Permᴰ}
use kube_combo.Tasks.{Task, Tasks, Detection, find_task, count_names, count_valid_tasks}
use kube_combo.Tasks.Config.{Configuration, get_script_env}
use kube_combo.Tasks.Run.{Host, Counts, Ended, early, summary, run_task, after_task, run_named}
use kube_combo.Tasks.Run.{run_names, run_tasks, no_counts, unless_failed, run_registered}
use kube_combo.Tasks.Run.{register_and_run}
use kube_combo.Tasks.Run.{run_detection, start_debugger}

count_cons :
    (t : String × List String) (ts : Tasks)
    → count_valid_tasks (t ∷ ts) ≡ count_names t.1 + count_valid_tasks ts
unfolding count_valid_tasks
count_cons (category, names) ts = refl

cons_same :
    (ts us : Tasks) {t u : String × List String}
    → t ≡ u
    → count_valid_tasks ts ≡ count_valid_tasks us
    → count_valid_tasks (t ∷ ts) ≡ count_valid_tasks (u ∷ us)
cons_same ts us {t} {u} e h =
    count_cons t ts
    ∙ ap (λ (x : String × List String). count_names x.1 + count_valid_tasks ts) e
    ∙ ap (λ (n : ℕ). count_names u.1 + n) h
    ∙ sym (count_cons u us)

swap_same :
    (t u : String × List String) (ts : Tasks)
    → count_valid_tasks (t ∷ u ∷ ts) ≡ count_valid_tasks (u ∷ t ∷ ts)
swap_same t u ts =
    omega (arith, count_cons t (u ∷ ts), count_cons u ts, count_cons u (t ∷ ts), count_cons t ts)

-- The count of the valid tasks is the same in whatever order the categories are iterated.
count_valid_tasks-Perm : {ts us : Tasks} → Permᴰ ts us → count_valid_tasks ts ≡ count_valid_tasks us
unfolding count_valid_tasks
count_valid_tasks-Perm Permᴰ.nil = refl
count_valid_tasks-Perm (Permᴰ.cons {l₁ = ts} {l₂ = us} e p) =
    cons_same ts us e (count_valid_tasks-Perm p)
count_valid_tasks-Perm (Permᴰ.swap {a = a} {b = b} {b' = b'} {l = l} e f) =
    swap_same a b l ∙ cons_same (a ∷ l) (b' ∷ l) f (cons_same l l e refl)
count_valid_tasks-Perm (Permᴰ.trans p q) = count_valid_tasks-Perm p ∙ count_valid_tasks-Perm q

abbrev total : Counts → ℕ
total c = c.success + c.fail

module _ (h : Host) (config : Configuration) (env : Dict) where
  after_task-total :
      (category name : String) (c d : Counts) (r : ℕ × Option String) (w v : h.World)
      → after_task h config env category name c r w ≡ ret (d, v)
      → total d ≡ 1 + total c
  unfolding after_task
  after_task-total category name c d (code, none) w v e = ground arith
  after_task-total category name c d (code, some m) w v e =
      let (posted, u, got, rest) = >>=-ret (h.post _ _) _ w v d e in ground arith

  run_named-total :
      (category name : String) (o : Option Task) (c d : Counts) (w v : h.World)
      → run_named h config env category name o c w ≡ ret (d, v)
      → total d ≡ (elim o [ none ↦ 0 | some task ↦ 1 ]) + total c
  unfolding run_named
  run_named-total category name none c d w v e = ground arith
  run_named-total category name (some task) c d w v e =
      let (r, u, got, rest) =
        >>=-ret (run_task h config env task) (after_task h config env category name c) w v d e in
      after_task-total category name c d r u v rest

  run_names-total :
      (category : String) (names : List String) (c d : Counts) (w v : h.World)
      → run_names h config env category names c w ≡ ret (d, v)
      → total d ≡ count_names names + total c
  unfolding run_names count_names
  run_names-total category [] c d w v e = ground arith
  run_names-total category (name ∷ names) c d w v e =
      let (next, u, got, rest) =
        >>=-ret (run_named h config env category name (find_task name) c)
          (run_names h config env category names) w v d e in
      by_task (find_task name) next (run_named-total category name (find_task name) c next w u got)
        (run_names-total category names next d u v rest)
    where
      by_task :
          (o : Option Task) (next : Counts)
          → total next ≡ (elim o [ none ↦ 0 | some task ↦ 1 ]) + total c
          → total d ≡ count_names names + total next
          → total d
            ≡ (if (elim o [ none ↦ false | some task ↦ true ])
                then 1 + count_names names
                else count_names names)
              + total c
      by_task none next p q = omega arith
      by_task (some task) next p q = omega arith

  run_tasks-total :
      (tasks : Tasks) (c d : Counts) (w v : h.World)
      → run_tasks h config env tasks c w ≡ ret (d, v)
      → total d ≡ count_valid_tasks tasks + total c
  unfolding run_tasks count_valid_tasks
  run_tasks-total [] c d w v e = ground arith
  run_tasks-total ((category, names) ∷ tasks) c d w v e =
      let (next, u, got, rest) =
        >>=-ret (run_names h config env category names c) (run_tasks h config env tasks) w v d e in
      let p = run_names-total category names c next w u got in
      let q = run_tasks-total tasks next d u v rest in omega arith

early-ne-summary :
    (h : Host) (n : ℕ) (c : Counts) (w v : h.World)
    → ◌≢◌ {A = Go (Ended × h.World)} (ret (early, w)) (ret (summary n c, v))
early-ne-summary h n c w v e = cc

module _ (h : Host) (config : Configuration) where
  run_registered-total :
      (detection : Detection) (env : Dict) (n : ℕ) (c : Counts) (w v : h.World)
      → run_registered h config detection env w ≡ ret (summary n c, v)
      → (total c ≡ n) × (n ≡ count_valid_tasks detection.tasks)
  unfolding run_registered
  run_registered-total detection env n c w v e =
      let (counts, u, ran, rest) =
        >>=-ret (run_tasks h config env detection.tasks (no_counts h config)) _ w v (summary n c)
          e in
      let (posted, t, got, rest') = >>=-ret (h.post _ _) _ u v (summary n c) rest in
      by_post counts posted t (run_tasks-total h config env detection.tasks _ counts w u ran) rest'
    where
      by_post :
          (counts : Counts) (posted : Option String) (t : h.World)
          → total counts ≡ count_valid_tasks detection.tasks + 0
          → unless_failed h config posted
              (pure (summary (count_valid_tasks detection.tasks) counts))
              t
            ≡ ret (summary n c, v)
          → (total c ≡ n) × (n ≡ count_valid_tasks detection.tasks)
      by_post counts (some m) t p k = cc
      by_post counts none t p k = ground arith

  register_and_run-total :
      (detection : Detection) (env : Dict) (n : ℕ) (c : Counts) (w v : h.World)
      → register_and_run h config detection env w ≡ ret (summary n c, v)
      → (total c ≡ n) × (n ≡ count_valid_tasks detection.tasks)
  unfolding register_and_run
  register_and_run-total detection env n c w v e =
      let (posted, t, got, rest) = >>=-ret (h.post _ _) _ w v (summary n c) e in
      by_post posted t rest
    where
      by_post :
          (posted : Option String) (t : h.World)
          → unless_failed h config posted (run_registered h config detection env) t
            ≡ ret (summary n c, v)
          → (total c ≡ n) × (n ≡ count_valid_tasks detection.tasks)
      by_post (some m) t k = cc
      by_post none t k = run_registered-total detection env n c t v k

  run_detection-total :
      (r : Result Detection) (n : ℕ) (c : Counts) (w v : h.World)
      → run_detection h config r w ≡ ret (summary n c, v)
      → (total c ≡ n) × (n ≢ 0)
  unfolding run_detection
  run_detection-total (err e) n c w v k = cc
  run_detection-total (ok detection) n c w v k =
      elim (Bool-cases (count_valid_tasks detection.tasks == 0)) [
        | inl none_valid ↦ absurd (early-ne-summary h n c w v (rw none_valid at k))
        | inr some_valid ↦
            let (p, q) =
              register_and_run-total detection (get_script_env config detection) n c w v
                (rw some_valid at k) in
            (p, ground arith)
      ]

-- A run that ends with its summary has at least one valid task, and counted every valid task once,
-- as a success or as a failure.
pub start_debugger-summary :
    (h : Host) (config : Configuration) (n : ℕ) (c : Counts) (w v : h.World)
    → start_debugger h config w ≡ ret (summary n c, v)
    → (c.success + c.fail ≡ n) × (n ≢ 0)
unfolding start_debugger
start_debugger-summary h config n c w v e = elim (Bool-cases (config.task_file == "")) [
  | inl no_file ↦ absurd (early-ne-summary h n c w v (rw no_file at e))
  | inr file ↦ elim (Bool-cases (config.node_name == "")) [
    | inl no_node ↦ absurd (early-ne-summary h n c w v (rw no_node at rw file at e))
    | inr node ↦
        let (missing, u, got, rest) =
          >>=-ret (h.check_file config.task_file_path config.task_file) _ w v (summary n c)
            (rw node at rw file at e) in
        by_file missing u rest
  ]
]
  where
    by_file :
        (missing : Option String) (u : h.World)
        → unless_failed h config missing
            (h.load_detection config.task_file_path config.task_file >>= run_detection h config)
            u
          ≡ ret (summary n c, v)
        → (c.success + c.fail ≡ n) × (n ≢ 0)
    by_file (some m) u k = cc
    by_file none u k =
        let (r, t, got, rest) =
          >>=-ret (h.load_detection config.task_file_path config.task_file) (run_detection h config)
            u v (summary n c) k in
        run_detection-total h config r n c t v rest
