-- ===== src/Tests/Metered.antt =====
-- A network whose state is the collectors: a node loses all packets, and no name is resolved.
use kube_combo.Prelude.{ℕ, ◌+◌, String, ◌≡◌, refl, sym, Bool, true, false, none, some, List, []}
use kube_combo.Prelude.{◌∷◌, arith, if◌then◌else◌, ◌==◌, ret, ok, ret-world, bool_eq, nat_eq}
use kube_combo.Prelude.{string_eq, option_eq, list_eq}
use kube_combo.Text.Words.{split}
use kube_combo.Util.{Ip, check_protocol}
use kube_combo.Probes.{Configuration, finished, Metric, Network}
use kube_combo.Probes.Ping.{each, ping_external, check_ports, ping_pods, ping_node_address}
use kube_combo.Probes.Ping.{after_node, ping_nodes, after_lookup, dns_lookup}
use kube_combo.Probes.Check.{check}
use kube_combo.Probes.Metrics.{Collectors, Registry, apply}
use kube_combo.Probes.Unseen.{IsMetered, start_pinger-SameLost}
use kube_combo.Probes.Check.{run_loop, start_pinger, stopped, stop}

-- A vector is the value of each series.
abbrev Series : Type 0
Series = List String → ℕ

abbrev change : Bool → (ℕ → ℕ) → ℕ → ℕ
change b f x = if b then f x else x

abbrev collectors : Collectors
collectors = record {
  Vector = Series;
  set = λ names n v labels. change (labels == names) (λ x. n) (v labels);
  add = λ names n v labels. change (labels == names) (λ x. x + n) (v labels);
  observe = λ names n v. v;
  value = λ labels v. v labels;
}

change_zero : (b : Bool) (x : ℕ) → change b (λ x. x + 0) x ≡ x
change_zero true x = omega arith
change_zero false x = refl

add_zero :
    (labels names : List String) (v : Series)
    → collectors.value labels (collectors.add names 0 v) ≡ collectors.value labels v
add_zero labels names v = change_zero (labels == names) (v labels)

abbrev silent : Network
silent = record {
  World = Registry collectors;
  parse_ip = λ text. some Ip.v4;
  ping = λ address timeout w.
      ret (finished (record { packets_sent = 3; packets_recv = 0; avg_rtt = 0 }), w);
  tcp_check = λ endpoint w. ret (none, w);
  udp_check = λ endpoint w. ret (none, w);
  lookup_host = λ dns w. ret ((some "no such host", 1000), w);
  get_daemonset = λ ns name w. ret (ok [], w);
  list_pods = λ ns labels w. ret (ok [], w);
  list_nodes = λ w. ret (
    ok (
        record {
          name = "node-2";
          addresses = record { kind = "InternalIP"; address = "192.168.0.2" } ∷ [];
        }
        ∷ []),
    w,
  );
  set_metric = apply collectors;
}

silent-IsMetered : IsMetered silent collectors (λ w. w)
silent-IsMetered = record {
  set_metric_applies = λ m w. refl;
  ping_keeps = λ a t w w' r h. sym (ret-world _ r w w' h);
  tcp_keeps = λ e w w' r h. sym (ret-world _ r w w' h);
  udp_keeps = λ e w w' r h. sym (ret-world _ r w w' h);
  lookup_keeps = λ d w w' r h. sym (ret-world _ r w w' h);
  daemonset_keeps = λ ns name w w' r h. sym (ret-world _ r w w' h);
  pods_keep = λ ns labels w w' r h. sym (ret-world _ r w w' h);
  nodes_keep = λ w w' r h. sym (ret-world _ r w w' h);
}

abbrev fresh : Registry collectors
fresh = record {
  dns_healthy = λ labels. 0;
  dns_unhealthy = λ labels. 0;
  dns_request_latency = λ labels. 0;
  pod_ping_latency = λ labels. 0;
  pod_ping_lost = λ labels. 0;
  pod_ping_total = λ labels. 0;
  node_ping_latency = λ labels. 0;
  node_ping_lost = λ labels. 0;
  node_ping_total = λ labels. 0;
  external_ping_latency = λ labels. 0;
  external_ping_lost = λ labels. 0;
}

-- The name is not resolved, and the node counts as healthy.
abbrev shown : Registry collectors
shown =
    apply collectors (Metric.dns_healthy "node-1" 1000)
      (apply collectors (Metric.dns_unhealthy "node-1") fresh)

abbrev asking : Configuration
asking = record {
  kube_config_file = "";
  daemonset_namespace = "";
  daemonset_name = "";
  interval = 5;
  mode = "server";
  exit_code = 0;
  node_name = "node-1";
  host_ip = "192.168.0.1";
  pod_name = "pinger-1";
  pod_ip = "10.0.0.9";
  pod_protocols = "IPv4" ∷ [];
  enable_metrics = true;
  port = 8080;
  log_perm = "640";
  ping = "";
  tcp_ping = "";
  udp_ping = "";
  dns_lookup = "kube.example";
  enable_node_ip_check = true;
}

pinged : start_pinger silent asking (stop ∷ []) fresh ≡ ret (stopped, shown)
unfolding start_pinger run_loop check ping_external check_ports ping_pods ping_nodes
    ping_node_address after_node dns_lookup after_lookup each check_protocol split string_eq nat_eq
pinged = refl

start_pinger-SameLost_example :
    shown.node_ping_lost ("node-1" ∷ []) ≡ fresh.node_ping_lost ("node-1" ∷ [])
start_pinger-SameLost_example =
    start_pinger-SameLost silent collectors (λ w. w) silent-IsMetered add_zero asking (stop ∷ [])
      fresh shown stopped pinged ("node-1" ∷ [])
