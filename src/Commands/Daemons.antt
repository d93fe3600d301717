-- ===== src/Commands/Daemons.antt =====
-- cmd/pinger/pinger.go and cmd/debugger/debugger.go: the start of the two daemons.
use kube_combo.Prelude.{ℕ, String, Bool, Option, none, some, List, if◌then◌else◌, Io, ◌>>=◌, pure}
use kube_combo.Text.Octal.{parse_octal}
use kube_combo.Util.{join_host_port}
use kube_combo.Util.Files.{Files, init_log_file_perm}
use kube_combo.Probes.{Configuration, Network}
use kube_combo.Probes.Config.{Flags, Setup, Parsed, parsed, refused, fatal, parse_flags}
use kube_combo.Probes.Check.{Event, Status, uses_metrics, start_pinger}
use kube_combo.Tasks.Config
use kube_combo.Tasks.Config.{configuration}
use kube_combo.Tasks.Run.{Host, Ended, start_debugger}

-- The process exits with code 1, or its program runs.
pub data Launch {ℓ} (A : Type ℓ) : Type ℓ where
  exits : Launch A
  runs : A → Launch A

abbrev pub run_with : {W A : Type 0} → Io W A → Io W (Launch A)
run_with program = program >>= λ a. pure (runs a)

-- The log file gets the permission that the flag gives, and then the program runs.
abbrev pub after_log : {W A : Type 0} → Io W (Launch A) → Option String → Io W (Launch A)
after_log program (some e) = pure exits
after_log program none = program

abbrev pub after_perm :
    {W A : Type 0} → Files W → String → Io W (Launch A) → Option ℕ → Io W (Launch A)
after_perm files module_name program none = pure exits
after_perm files module_name program (some perm) =
    init_log_file_perm files module_name perm >>= after_log program

-- The flags, the files and the network of the pinger; the metrics server runs beside the program.
module _ (net : Network) (setup : Setup net.World) (files : Files net.World)
    (serve : String → net.World → net.World) (events : List Event) where
  abbrev pub serve_if : Bool → String → net.World → net.World
  serve_if b address w = if b then serve address w else w

  abbrev pub run_pinger : Configuration → Io net.World (Launch Status)
  run_pinger config = λ w.
      run_with (start_pinger net config events)
        (serve_if (uses_metrics net config) (join_host_port "0.0.0.0" config.port) w)

  abbrev pub after_parse : Parsed → Io net.World (Launch Status)
  after_parse (refused e) = pure exits
  after_parse fatal = pure exits
  after_parse (parsed config) =
      after_perm files "pinger" (run_pinger config) (parse_octal config.log_perm)

  unfoldable pub pinger_main : Flags → Io net.World (Launch Status)
  pinger_main flags = parse_flags setup flags >>= after_parse

-- The debugger's parse of its flags never fails.
unfoldable pub debugger_main :
    (h : Host) → Files h.World → (String → String) → Config.Flags → Io h.World (Launch Ended)
debugger_main h files getenv flags =
    let config = configuration flags getenv in
    after_perm files "debugger" (run_with (start_debugger h config)) (parse_octal config.log_perm)
