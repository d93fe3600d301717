-- ===== src/Tests/Probing.antt =====
-- The probes of a network in which one address answers and another loses a packet.
use kube_combo.Prelude.{ℕ, String, ◌≡◌, refl, ◌≢◌, true, false, Option, none, some, List, [], ◌∷◌}
use kube_combo.Prelude.{◌++◌, if◌then◌else◌, ◌==◌, ret, ok, bool_eq, nat_eq, string_eq, option_eq}
use kube_combo.Prelude.{list_eq}
use kube_combo.Text.Words.{split}
use kube_combo.Util.{Ip, check_protocol}
use kube_combo.Probes.{Configuration, Statistics, finished, Network}
use kube_combo.Probes.Ping.{each, after_external, ping_address, ping_external, check_ports}
use kube_combo.Probes.Ping.{ping_pods}
use kube_combo.Probes.Ping.{ping_nodes}
use kube_combo.Probes.Check.{check, tick, stop, exited, run_loop, start_pinger}
use kube_combo.Probes.Answers.{AllAnswers}
use kube_combo.Probes.Reached.{check_iff}
use kube_combo.Probes.Stopped.{FailsAtTick, start_pinger-exited_iff}

abbrev ip_of : String → Option Ip
ip_of text = if text == "fd00::1" then some Ip.v6 else if text == "web" then none else some Ip.v4

abbrev statistics_of : String → Statistics
statistics_of address = record {
  packets_sent = 3;
  packets_recv = if address == "10.0.0.2" then 2 else 3;
  avg_rtt = 1000;
}

-- The world is the list of what was probed.
abbrev network : Network
network = record {
  World = List String;
  parse_ip = ip_of;
  ping = λ address timeout w. ret (finished (statistics_of address), w ++ (address ∷ []));
  tcp_check = λ endpoint w. ret (none, w ++ (endpoint ∷ []));
  udp_check = λ endpoint w. ret (none, w ++ (endpoint ∷ []));
  lookup_host = λ dns w. ret ((none, 1000), w ++ (dns ∷ []));
  get_daemonset = λ ns name w. ret (ok [], w);
  list_pods = λ ns labels w. ret (ok [], w);
  list_nodes = λ w. ret (ok [], w);
  set_metric = λ m w. w ++ ("metric" ∷ []);
}

abbrev probing : String → Configuration
probing addresses = record {
  kube_config_file = "";
  daemonset_namespace = "kube-system";
  daemonset_name = "pinger";
  interval = 5;
  mode = "server";
  exit_code = 1;
  node_name = "node-1";
  host_ip = "192.168.0.1";
  pod_name = "pinger-1";
  pod_ip = "10.0.0.9";
  pod_protocols = "IPv4" ∷ [];
  enable_metrics = true;
  port = 8080;
  log_perm = "640";
  ping = addresses;
  tcp_ping = "10.0.0.1:80";
  udp_ping = "10.0.0.1:53";
  dns_lookup = "";
  enable_node_ip_check = true;
}

checked :
    check network (probing "10.0.0.1") false []
    ≡ ret (none, "10.0.0.1" ∷ "10.0.0.1:80" ∷ "10.0.0.1:53" ∷ [])
unfolding check ping_external check_ports ping_pods ping_nodes each ping_address after_external
    check_protocol split string_eq nat_eq
checked = refl

abbrev lossy_log : List String
lossy_log = "10.0.0.2" ∷ "metric" ∷ "10.0.0.1:80" ∷ "10.0.0.1:53" ∷ []

lossy : start_pinger network (probing "10.0.0.2") (tick ∷ stop ∷ []) [] ≡ ret (exited 1, lossy_log)
unfolding start_pinger run_loop check ping_external check_ports ping_pods ping_nodes each
    ping_address after_external check_protocol split string_eq nat_eq
lossy = refl

check_iff_example :
    AllAnswers network
      (probing "10.0.0.1")
      false
      []
      ("10.0.0.1" ∷ "10.0.0.1:80" ∷ "10.0.0.1:53" ∷ [])
check_iff_example =
    (check_iff network (probing "10.0.0.1") false []
        ("10.0.0.1" ∷ "10.0.0.1:80" ∷ "10.0.0.1:53" ∷ [])).0
      checked

start_pinger-exited_iff_example :
    (◌≡◌ {A = String} "server" "server")
    × (◌≡◌ {A = ℕ} 1 1)
    × (◌≢◌ {A = ℕ} 1 0)
    × FailsAtTick network (probing "10.0.0.2") (tick ∷ stop ∷ []) [] lossy_log
start_pinger-exited_iff_example =
    (start_pinger-exited_iff network (probing "10.0.0.2") (tick ∷ stop ∷ []) 1 [] lossy_log).0 lossy
