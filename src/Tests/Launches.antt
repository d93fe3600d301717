-- ===== src/Tests/Launches.antt =====
-- The starts of the programs: a pod that gets its address late, and a manager whose webhook fails.
use kube_combo.Prelude.{ℕ, ◌+◌, ◌≤◌, String, ◌≡◌, refl, sym, ap, ◌∙◌, false, Option, none, some}
use kube_combo.Prelude.{List, [], ◌∷◌, ◌++◌, map, if◌then◌else◌, ◌==◌, ret, Io, ok, err, ltb}
use kube_combo.Prelude.{ret-world, ret-value, bool_eq, nat_eq, string_eq, option_eq, list_eq}
use kube_combo.Text.Words.{split}
use kube_combo.Util.{Ip, check_protocol}
use kube_combo.Probes.{Configuration}
use kube_combo.Probes.Config
use kube_combo.Probes.Config.{RestConfig, init_kube_client}
use kube_combo.Probes.Config.{Setup, PodStatus, Parsed, parsed, configuration, wait_for_ips}
use kube_combo.Probes.Config.{after_wait, after_client, parse_flags}
use kube_combo.Probes.Waiting.{HasIps, parse_flags_iff}
use kube_combo.Probes.Timely.{IsTimed, parse_flags-EndsIn}
use kube_combo.Commands.Controller.{Flags, default_flags, Call, new_kube_client, new_manager}
use kube_combo.Commands.Controller.{setup_vpn_gw, setup_controller, setup_webhook, vpn_gw}
use kube_combo.Commands.Controller.{ipsec_conn, keep_alived, debugger, pinger, exited}
use kube_combo.Commands.Controller.{vpn_gw_config, manager_options, cmd_main}
use kube_combo.Commands.Started.{plan, Made, Logs, Followed, cmd_main-Starts}

abbrev pod_at : ℕ → PodStatus
pod_at time = record { pod_ips = if ltb time 6 then [] else "10.0.0.9" ∷ []; ready = false ∷ [] }

abbrev rest_config : RestConfig
rest_config = record {
  host = "https://10.96.0.1";
  timeout = 0;
  qps = 0;
  burst = 0;
  content_type = "";
  accept_content_types = "";
}

-- The world is the time; the pod has its address after six seconds.
abbrev setup : Setup ℕ
setup = record {
  getenv = λ name. "pinger-1";
  parse_ip = λ text. some Ip.v4;
  in_cluster_config = λ w. ret (ok rest_config, w);
  build_config_from_flags = λ file w. ret (err "no such file", w);
  new_for_config = λ cfg. none;
  sleep = λ s w. w + s;
  get_pod = λ ns name w. ret (ok (pod_at w), w);
}

abbrev configured : Configuration
configured = record {
  kube_config_file = "";
  daemonset_namespace = "kube-system";
  daemonset_name = "kube-ovn-pinger";
  interval = 5;
  mode = "server";
  exit_code = 1;
  node_name = "pinger-1";
  host_ip = "pinger-1";
  pod_name = "pinger-1";
  pod_ip = "pinger-1";
  pod_protocols = "IPv4" ∷ [];
  enable_metrics = false;
  port = 8080;
  log_perm = "640";
  ping = "";
  tcp_ping = "";
  udp_ping = "";
  dns_lookup = "";
  enable_node_ip_check = false;
}

waited : parse_flags setup Config.default_flags 0 ≡ ret (parsed configured, 6)
unfolding parse_flags init_kube_client after_client after_wait configuration wait_for_ips
    check_protocol split string_eq nat_eq
waited = refl

parse_flags_iff_example :
    (u : ℕ) × (ips : List String) × (init_kube_client setup "" 0 ≡ ret (none, u))
    × HasIps setup "kube-system" "pinger-1" 5 ips u 6
    × (configured ≡ record (configuration setup Config.default_flags) {
      pod_protocols = map (check_protocol setup.parse_ip) ips;
    })
parse_flags_iff_example = (parse_flags_iff setup Config.default_flags configured 0 6).0 waited

setup-IsTimed : IsTimed setup (λ w. w)
setup-IsTimed = record {
  sleep_takes = λ s w. refl;
  in_cluster_config_returns = λ w. (ok rest_config, w, refl, refl);
  build_config_returns = λ file w. (err "no such file", w, refl, refl);
  get_pod_returns = λ ns name w. (ok (pod_at w), w, refl, refl);
}

parse_flags-EndsIn_example :
    (p : Parsed) × (v : ℕ) × (parse_flags setup Config.default_flags 0 ≡ ret (p, v)) × (v ≤ 0 + 15)
parse_flags-EndsIn_example = parse_flags-EndsIn setup (λ w. w) setup-IsTimed Config.default_flags 0

-- The second webhook fails.
abbrev answer : Call → Option String
answer (setup_webhook ipsec_conn) = some "no certificate"
answer _ = none

abbrev calling : Call → Io (List Made) (Option String)
calling c w = ret (answer c, w ++ (c, answer c) ∷ [])

calling-Logs : Logs calling (λ w. w)
calling-Logs c w v e h =
    sym (ret-world (answer c) e (w ++ (c, answer c) ∷ []) v h)
    ∙ ap (λ (a : Option String). w ++ (c, a) ∷ []) (ret-value (answer c) e _ v h)

abbrev manager_flags : Flags
manager_flags = default_flags (λ name. if name == "ENABLE_WEBHOOKS" then "true" else "")

abbrev made : List Made
made =
    (new_kube_client, none)
    ∷ (new_manager (manager_options manager_flags), none)
    ∷ (setup_vpn_gw (vpn_gw_config manager_flags), none)
    ∷ (setup_controller ipsec_conn, none)
    ∷ (setup_controller keep_alived, none)
    ∷ (setup_controller debugger, none)
    ∷ (setup_controller pinger, none)
    ∷ (setup_webhook vpn_gw, none)
    ∷ (setup_webhook ipsec_conn, some "no certificate")
    ∷ []

manager_exited : cmd_main calling manager_flags [] ≡ ret (exited, made)
unfolding cmd_main string_eq
manager_exited = refl

cmd_main-Starts_example : Followed (plan manager_flags) exited [] made
cmd_main-Starts_example =
    cmd_main-Starts calling (λ w. w) calling-Logs manager_flags exited [] made manager_exited
