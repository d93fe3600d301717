-- ===== src/Tests/Leaks.antt =====
-- The daemons in a world whose state is the number of what is open.
use kube_combo.Prelude.{ℕ, suc, ◌-◌, ◌≡◌, refl, sym, ap, ◌∙◌, false, none, some, [], ◌∷◌, ret, Io}
use kube_combo.Prelude.{Result, ok, err, ret-world, ret-value, bool_eq, nat_eq, string_eq}
use kube_combo.Prelude.{option_eq, list_eq}
use kube_combo.Text.Words.{split, starts_with}
use kube_combo.Util.{Ip, check_protocol, build_url}
use kube_combo.Util.Sockets.{Sockets, tcp_connectivity_check, udp_connectivity_check}
use kube_combo.Util.Files.{Files, present, check_file_existence}
use kube_combo.Util.Http.{Http, post_json_string}
use kube_combo.Util.Closed.{opened, Opens, IsCounted}
use kube_combo.Util.Posted.{IsHttpCounted}
use kube_combo.Probes.{Configuration, finished, Network}
use kube_combo.Probes.Ping.{each, ping_external, check_ports, ping_pods, ping_nodes, dns_lookup}
use kube_combo.Probes.Check.{check, run_loop, start_pinger, exited, tick}
use kube_combo.Probes.Closing.{with_sockets, OpensNone, start_pinger-SameOpen}
use kube_combo.Tasks.{find_task, count_names, count_valid_tasks}
use kube_combo.Tasks.Config.{get_script_env}
use kube_combo.Tests.Detections.{settings}
use kube_combo.Tasks.Run.{Host, Exit, early, register_and_run, run_detection, start_debugger}
use kube_combo.Tasks.Closing.{with_util, start_debugger-SameOpen}

-- A call that always gives the same, and changes the number in the same way.
abbrev gives : {A : Type 0} → A → Io ℕ A
gives a w = ret (a, w)

gives-same : {A : Type 0} (a b : A) (w v : ℕ) → gives a w ≡ ret (b, v) → v ≡ w
gives-same a b w v h = sym (ret-world a b w v h)

abbrev dialled : Io ℕ (Result ℕ)
dialled w = ret (ok 1, suc w)

dialled-Opens : Opens (λ w. w) dialled
dialled-Opens w v r h =
    sym (ret-world (ok 1) r (suc w) v h) ∙ ap (λ r. opened r w) (ret-value (ok 1) r (suc w) v h)

abbrev sockets : Sockets ℕ
sockets = record {
  dial_timeout = λ e t. dialled;
  resolve_udp_addr = λ e. gives (ok e);
  dial_udp = λ e. dialled;
  close = λ c w. w - 1;
  set_read_deadline = λ c t. gives none;
  write = λ c s. gives none;
  read = λ c n. gives (some "timeout");
}

sockets-IsCounted : IsCounted sockets (λ w. w)
sockets-IsCounted = record {
  dial_timeout_opens = λ e t. dialled-Opens;
  dial_udp_opens = λ e. dialled-Opens;
  close_closes = λ c w. refl;
  resolve_keeps = λ e w v r h. gives-same (ok e) r w v h;
  deadline_keeps = λ c t w v r h. gives-same none r w v h;
  write_keeps = λ c s w v r h. gives-same none r w v h;
  read_keeps = λ c n w v r h. gives-same (some "timeout") r w v h;
}

abbrev network : Network
network = record {
  World = ℕ;
  parse_ip = λ text. some Ip.v4;
  ping = λ address timeout.
      gives (finished (record { packets_sent = 3; packets_recv = 3; avg_rtt = 0 }));
  tcp_check = λ endpoint. gives none;
  udp_check = λ endpoint. gives none;
  lookup_host = λ dns. gives (none, 1000);
  get_daemonset = λ ns name. gives (ok []);
  list_pods = λ ns labels. gives (ok []);
  list_nodes = gives (ok []);
  set_metric = λ m w. w;
}

network-OpensNone : OpensNone network (λ w. w)
network-OpensNone = record {
  metric_keeps = λ m w. refl;
  ping_keeps = λ a t w v r h. gives-same _ r w v h;
  lookup_keeps = λ d w v r h. gives-same _ r w v h;
  daemonset_keeps = λ ns name w v r h. gives-same _ r w v h;
  pods_keep = λ ns labels w v r h. gives-same _ r w v h;
  nodes_keep = λ w v r h. gives-same _ r w v h;
}

abbrev probing : Configuration
probing = record {
  kube_config_file = "";
  daemonset_namespace = "";
  daemonset_name = "";
  interval = 5;
  mode = "server";
  exit_code = 3;
  node_name = "node-1";
  host_ip = "192.168.0.1";
  pod_name = "pinger-1";
  pod_ip = "10.0.0.9";
  pod_protocols = "IPv4" ∷ [];
  enable_metrics = false;
  port = 8080;
  log_perm = "640";
  ping = "";
  tcp_ping = "10.0.0.1:80,10.0.0.2:80";
  udp_ping = "10.0.0.1:53";
  dns_lookup = "";
  enable_node_ip_check = false;
}

-- The port that does not answer ends the program at the first tick.
probed : start_pinger (with_sockets network sockets) probing (tick ∷ []) 2 ≡ ret (exited 3, 2)
unfolding start_pinger run_loop check ping_external check_ports ping_pods ping_nodes dns_lookup each
    check_protocol split tcp_connectivity_check udp_connectivity_check string_eq nat_eq
probed = refl

start_pinger-SameOpen_example : ◌≡◌ {A = ℕ} 2 2
start_pinger-SameOpen_example =
    start_pinger-SameOpen network sockets (λ w. w) sockets-IsCounted network-OpensNone probing
      (tick ∷ []) 2 2 (exited 3) probed

abbrev host : Host
host = record {
  World = ℕ;
  check_file = λ dir file. gives none;
  load_detection = λ dir file.
      gives (ok (record { timestamp = "1700000000"; tasks = ("cpu", "CPU_LOAD" ∷ []) ∷ [] }));
  execute = λ path args env. gives (Exit.exited 2 "slow");
  post = λ address payload. gives none;
}

abbrev files : Files ℕ
files = record {
  stat = λ path. gives present;
  open_file = λ path perm. gives (ok 1);
  close = λ c w. w;
  chmod = λ path perm. gives none;
}

abbrev http : Http ℕ
http = record {
  new_request =
      λ method url body. ok (record { method = method; url = url; body = body; header = [] });
  send = λ request. dialled;
  read_all = λ c. gives (err "reset");
  close_body = λ c w. w - 1;
}

http-IsHttpCounted : IsHttpCounted http (λ w. w)
http-IsHttpCounted = record {
  send_opens = λ request. dialled-Opens;
  close_closes = λ c w. refl;
  read_keeps = λ c w v r h. gives-same (err "reset") r w v h;
}

-- The registration fails since its answer cannot be read.
inspected :
    start_debugger (with_util host files http (λ directory name. name) (λ payload. "{}")) settings 2
    ≡ ret (early, 2)
unfolding start_debugger check_file_existence run_detection register_and_run post_json_string
    count_valid_tasks count_names find_task get_script_env build_url starts_with string_eq nat_eq
    kube_combo.Prelude.Dict.lookup
inspected = refl

start_debugger-SameOpen_example : ◌≡◌ {A = ℕ} 2 2
start_debugger-SameOpen_example =
    start_debugger-SameOpen host files http (λ w. w) http-IsHttpCounted
      (λ path w v r h. gives-same present r w v h) (λ directory name w v r h. gives-same _ r w v h)
      (λ path args env w v r h. gives-same _ r w v h) (λ directory name. name) (λ payload. "{}")
      settings 2 2 early inspected
