-- ===== src/Probes/Check.antt =====
-- `check` and `StartPinger`.
use kube_combo.Prelude.{ℕ, String, Bool, true, false, ◌&&◌, ◌||◌, Option, none, some, List, [], ◌∷◌}
use kube_combo.Prelude.{if◌then◌else◌, ◌==◌, ◌!=◌, Io, ◌>>=◌, pure, bool_eq, nat_eq, string_eq}
use kube_combo.Prelude.{option_eq, list_eq}
use kube_combo.Probes.{Configuration, Network}
use kube_combo.Probes.Ping.{latest, ping_external, check_ports, ping_pods, ping_nodes, dns_lookup}

abbrev pub probe_if :
    {W : Type 0} → Bool → Io W (Option String) → Option String → Io W (Option String)
probe_if b probe old = if b then (do e ← probe; pure (latest old e)) else pure old

module _ (net : Network) (config : Configuration) (with_metrics : Bool) where
  abbrev pub asks_ports : Bool
  asks_ports = config.tcp_ping != "" || config.udp_ping != ""

  -- The check up to the external addresses, the ports, the pods and the nodes.
  abbrev pub up_to_external : Io net.World (Option String)
  up_to_external = probe_if (config.ping != "") (ping_external net config with_metrics) none

  abbrev pub up_to_ports : Io net.World (Option String)
  up_to_ports = up_to_external >>= probe_if asks_ports (check_ports net config with_metrics)

  abbrev pub up_to_pods : Io net.World (Option String)
  up_to_pods = up_to_ports >>= probe_if true (ping_pods net config with_metrics)

  abbrev pub up_to_nodes : Io net.World (Option String)
  up_to_nodes =
      up_to_pods >>= probe_if config.enable_node_ip_check (ping_nodes net config with_metrics)

  unfoldable pub check : Io net.World (Option String)
  check = up_to_nodes >>= probe_if (config.dns_lookup != "") (dns_lookup net config with_metrics)

-- What the loop waits for: the timer, or the signal to stop.
pub data Event : Type 0 where
  tick : Event
  stop : Event

-- How far the loop has come: it ended after one check, it was stopped, it exited with a code, or it
-- waits for the next event.
pub data Status : Type 0 where
  job_done : Status
  stopped : Status
  exited : ℕ → Status
  waiting : Status

module _ (net : Network) (config : Configuration) where
  abbrev pub uses_metrics : Bool
  uses_metrics = config.mode == "server" && config.enable_metrics

  abbrev pub is_failed : Bool → Option String → Bool
  is_failed before none = before
  is_failed before (some e) = true

  -- The loop from a check on, with the events to come; whether a check failed is never reset.
  unfoldable pub run_loop : List Event → Bool → Io net.World Status
  run_loop [] happened = do
    e ← check net config uses_metrics
    pure (if config.mode != "server" then Status.job_done else Status.waiting)
  run_loop (Event.stop ∷ events) happened = do
    e ← check net config uses_metrics
    pure (if config.mode != "server" then Status.job_done else Status.stopped)
  run_loop (Event.tick ∷ events) happened = do
    e ← check net config uses_metrics
    (if config.mode != "server"
        then pure Status.job_done
        else if is_failed happened e && config.exit_code != 0
        then pure (Status.exited config.exit_code)
        else run_loop events (is_failed happened e))

  unfoldable pub start_pinger : List Event → Io net.World Status
  unfolding run_loop
  start_pinger events = run_loop events false
