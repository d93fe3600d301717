-- ===== src/Probes/Looped.antt =====
-- A relation between the states before and after a check and the loop, from those of their calls.
use kube_combo.Prelude.{Bool, true, false, ◌&&◌, none, List, [], ◌∷◌, ◌!=◌, pure, Keeps, pure-Keeps}
use kube_combo.Prelude.{>>=-Keeps, if-Keeps, bool_eq, nat_eq, string_eq, option_eq, list_eq}
use kube_combo.Probes.{Network}
use kube_combo.Probes.{Configuration}
use kube_combo.Probes.Ping.{ping_external}
use kube_combo.Probes.Check.{check, asks_ports, uses_metrics, is_failed, run_loop}
use kube_combo.Probes.Check.{start_pinger, Event, tick, stop}
use kube_combo.Probes.Kept.{Respects, probe_if-Keeps, external-Keeps, ports-Keeps, ping_pods-Keeps}
use kube_combo.Probes.Kept.{ping_nodes-Keeps, dns-Keeps}

module _ (net : Network) (R : net.World → net.World → Type 0) (respects : Respects net R)
    (config : Configuration) (with_metrics : Bool) where
  open respects use {order}

  check-Keeps : Keeps R (check net config with_metrics)
  unfolding check
  check-Keeps =
      probe_if-Keeps R order (config.dns_lookup != "") _ _
        (probe_if-Keeps R order config.enable_node_ip_check _ _
          (probe_if-Keeps R order true _ _
            (probe_if-Keeps R order (asks_ports net config with_metrics) _ _
              (probe_if-Keeps R order (config.ping != "") (ping_external net config with_metrics)
                (pure none) (pure-Keeps R order none)
                (external-Keeps net R respects config with_metrics))
              (ports-Keeps net R respects config with_metrics))
            (ping_pods-Keeps net R respects config with_metrics))
          (ping_nodes-Keeps net R respects config with_metrics))
        (dns-Keeps net R respects config with_metrics)

-- So does the whole loop, whatever events it meets.
module _ (net : Network) (R : net.World → net.World → Type 0) (respects : Respects net R)
    (config : Configuration) where
  open respects use {order}

  run_loop-Keeps :
      (events : List Event) (happened : Bool) → Keeps R (run_loop net config events happened)
  unfolding run_loop
  run_loop-Keeps [] happened =
      >>=-Keeps R order (check net config (uses_metrics net config)) _
        (check-Keeps net R respects config (uses_metrics net config)) (λ e. pure-Keeps R order _)
  run_loop-Keeps (stop ∷ events) happened =
      >>=-Keeps R order (check net config (uses_metrics net config)) _
        (check-Keeps net R respects config (uses_metrics net config)) (λ e. pure-Keeps R order _)
  run_loop-Keeps (tick ∷ events) happened =
      >>=-Keeps R order (check net config (uses_metrics net config)) _
        (check-Keeps net R respects config (uses_metrics net config))
        (λ e.
          if-Keeps R order (config.mode != "server") (λ p. pure-Keeps R order _)
            (λ p.
              if-Keeps R order (is_failed net config happened e && config.exit_code != 0)
                (λ q. pure-Keeps R order _)
                (λ q. run_loop-Keeps events (is_failed net config happened e))))

  pub start_pinger-Keeps : (events : List Event) → Keeps R (start_pinger net config events)
  unfolding start_pinger
  start_pinger-Keeps events = run_loop-Keeps events false
