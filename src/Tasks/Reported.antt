-- ===== src/Tasks/Reported.antt =====
-- What the tasks of the debugger run and post.
use kube_combo.Prelude.{ℕ, suc, ◌+◌, String, ◌≡◌, refl, sym, ap, ◌∙◌, inl, inr, Bool, true, false}
use kube_combo.Prelude.{Option, none, some, List, [], ◌∷◌, ◌++◌, arith, if◌then◌else◌, ◌==◌, ret}
use kube_combo.Prelude.{Bool-cases, Keeps, bool_eq, nat_eq, string_eq, option_eq, list_eq}
use kube_combo.Prelude.Dict.{Dict}
use mathlib.Core.List.{append_assoc}
use kube_combo.Tasks.{Task, Tasks, find_task}
use kube_combo.Tasks.Config.{Configuration}
use kube_combo.Tasks.Run.{Exit, done, timed_out, exited, killed, not_run}
use kube_combo.Tasks.Run.{Payload, node_report, Host, service_url}
use kube_combo.Tasks.Run.{arguments, format_env, run_result, value_of}

-- What the debugger does that others see: a command that ran, with its arguments, its environment
-- and how it ended, and what was posted to an address.
pub data Happened : Type 0 where
  ran : String → List String → List String → Exit → Happened
  posted : String → Payload → Happened

-- Only a process that ended with its output is a success.
unfoldable pub is_failure : Exit → Bool
is_failure (done output) = false
is_failure timed_out = true
is_failure (exited code output) = true
is_failure (killed output) = true
is_failure (not_run e output) = true

-- A task of a category, and how its script ended.
pub record Entry : Type 0 where
  pub category : String
  pub name : String
  pub task : Task
  pub exit : Exit

abbrev pub Named : Type 0
Named = String × String

abbrev pub key_of : Entry → String × String × Task
key_of e = (e.category, e.name, e.task)

abbrev pub keyed :
    String → String → Option Task → List (String × String × Task) → List (String × String × Task)
keyed category name none rest = rest
keyed category name (some task) rest = (category, name, task) ∷ rest

-- The tasks that have a script.
unfoldable pub known : List Named → List (String × String × Task)
known [] = []
known ((category, name) ∷ tasks) = keyed category name (find_task name) (known tasks)

abbrev pub successes : List Entry → ℕ
successes [] = 0
successes (e ∷ es) = let n = successes es in if is_failure e.exit then n else suc n

abbrev pub failures : List Entry → ℕ
failures [] = 0
failures (e ∷ es) = let n = failures es in if is_failure e.exit then suc n else n

pub successes-append : (xs ys : List Entry) → successes (xs ++ ys) ≡ successes xs + successes ys
successes-append [] ys = omega arith
successes-append (x ∷ xs) ys =
    let e = successes-append xs ys in
    elim (Bool-cases (is_failure x.exit)) [ inl bad ↦ rw bad e | inr good ↦ rw good (omega arith) ]

pub failures-append : (xs ys : List Entry) → failures (xs ++ ys) ≡ failures xs + failures ys
failures-append [] ys = omega arith
failures-append (x ∷ xs) ys =
    let e = failures-append xs ys in
    elim (Bool-cases (is_failure x.exit)) [ inl bad ↦ rw bad (omega arith) | inr good ↦ rw good e ]

-- The tasks in the order in which they are run, with their categories.
abbrev pub listed_names : String → List String → List Named
listed_names category [] = []
listed_names category (name ∷ names) = (category, name) ∷ listed_names category names

abbrev pub listed : Tasks → List Named
listed [] = []
listed ((category, names) ∷ tasks) = listed_names category names ++ listed tasks

keyed-append :
    (category name : String) (o : Option Task) (ks ls : List (String × String × Task))
    → keyed category name o (ks ++ ls) ≡ keyed category name o ks ++ ls
keyed-append category name none ks ls = refl
keyed-append category name (some task) ks ls = refl

pub known-append : (xs ys : List Named) → known (xs ++ ys) ≡ known xs ++ known ys
unfolding known
known-append [] ys = refl
known-append ((category, name) ∷ xs) ys =
    ap (λ ks. keyed category name (find_task name) ks) (known-append xs ys)
    ∙ keyed-append category name (find_task name) (known xs) (known ys)

-- The error of a task agrees with how its script ended.
abbrev pub Agrees : Exit → ℕ × Option String → Type 0
Agrees exit (code, none) = is_failure exit ≡ false
Agrees exit (code, some e) = is_failure exit ≡ true

pub run_result-Agrees : (task : Task) (exit : Exit) → Agrees exit (run_result task exit)
unfolding run_result is_failure
run_result-Agrees task (done output) = refl
run_result-Agrees task timed_out = refl
run_result-Agrees task (exited code output) = elim (Bool-cases (code == 100)) [
  | inl bad ↦ rw bad refl
  | inr good ↦ rw good refl
]
run_result-Agrees task (killed output) = refl
run_result-Agrees task (not_run e output) = refl

-- Each command that ran and each post is logged, with its end or its payload, and nothing else is.
pub record LogsRun (h : Host) (trace : h.World → List Happened) : Type 0 where
  pub post_logs :
      (address : String) (payload : Payload) (w v : h.World) (e : Option String)
      → h.post address payload w ≡ ret (e, v)
      → trace v ≡ trace w ++ posted address payload ∷ []
  pub execute_logs :
      (path : String) (args env : List String) (w v : h.World) (exit : Exit)
      → h.execute path args env w ≡ ret (exit, v)
      → trace v ≡ trace w ++ ran path args env exit ∷ []
  pub check_file_keeps :
      (directory name : String) → Keeps (λ w v. trace v ≡ trace w) (h.check_file directory name)
  pub load_keeps :
      (directory name : String) → Keeps (λ w v. trace v ≡ trace w) (h.load_detection directory name)

module _ (h : Host) (config : Configuration) (env : Dict) where
  -- The report on a task, to the address of reports.
  abbrev pub report_on : Named → Happened
  report_on (category, name) =
      posted (service_url h config config.report)
        (node_report (value_of env "NodeName") (value_of env "Timestamp") category name)

  -- A task runs its script, and is reported if it failed.
  abbrev pub happened : Entry → List Happened
  happened e =
      ran e.task.script (arguments e.task) (format_env env) e.exit
      ∷ (if is_failure e.exit then report_on (e.category, e.name) ∷ [] else [])

  abbrev pub happenings : List Entry → List Happened
  happenings [] = []
  happenings (e ∷ es) = happened e ++ happenings es

  pub happenings-append :
      (xs ys : List Entry) → happenings (xs ++ ys) ≡ happenings xs ++ happenings ys
  happenings-append [] ys = refl
  happenings-append (x ∷ xs) ys =
      ap (λ hs. happened x ++ hs) (happenings-append xs ys)
      ∙ sym (append_assoc (happened x) (happenings xs) (happenings ys))
