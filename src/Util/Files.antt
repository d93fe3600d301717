-- ===== src/Util/Files.antt =====
-- `CheckFileExistence` and `InitLogFilePerm` of internal/util/util.go.
use kube_combo.Prelude.{ℕ, String, ◌<>◌, Option, none, some, ret, Io, ◌>>=◌, pure, Result, ok, err}

-- What `os.Stat` gives.
pub data Stat : Type 0 where
  present : Stat
  absent : Stat
  stat_failed : String → Stat

-- The calls on files; opening a log file also closes it.
pub record Files (W : Type 0) : Type 0 where
  pub stat : String → Io W Stat
  pub open_file : String → ℕ → Io W (Result ℕ)
  pub close : ℕ → W → W
  pub chmod : String → ℕ → Io W (Option String)

abbrev existence : String → Stat → Option String
existence path present = none
existence path absent = some ("TaskFile " <> path <> " does not exist")
existence path (stat_failed e) = some ("failed to access TaskFile " <> path <> ": " <> e)

module _ {W : Type 0} (files : Files W) where
  open files use {stat, open_file, close, chmod}

  -- `CheckFileExistence`
  unfoldable pub check_file_existence : String → Io W (Option String)
  check_file_existence path = do s ← stat path; pure (existence path s)

  abbrev log_path : String → String
  log_path module_name = "/var/log/kube-combo/" <> module_name <> ".log"

  abbrev after_open : Result ℕ → Io W (Option String)
  after_open (err e) = pure (some ("failed to create log file: " <> e))
  after_open (ok file) = λ w. ret (none, close file w)

  abbrev after_chmod : Option String → Option String
  after_chmod none = none
  after_chmod (some e) = some ("failed to chmod log file: " <> e)

  abbrev set_perm : String → ℕ → Io W (Option String)
  set_perm path perm = do e ← chmod path perm; pure (after_chmod e)

  abbrev after_stat : String → ℕ → Stat → Io W (Option String)
  after_stat path perm present = set_perm path perm
  after_stat path perm (stat_failed e) = set_perm path perm
  after_stat path perm absent = open_file path perm >>= after_open

  -- `InitLogFilePerm`: an error ends the process.
  unfoldable pub init_log_file_perm : String → ℕ → Io W (Option String)
  init_log_file_perm module_name perm =
      stat (log_path module_name) >>= after_stat (log_path module_name) perm
