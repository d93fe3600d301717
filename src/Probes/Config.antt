-- ===== src/Probes/Config.antt =====
-- config.go: the configuration from the flags and the environment, and the wait for the addresses
-- of the pod.
use kube_combo.Prelude.{ℕ, zero, suc, String, Bool, false, Option, none, some, List, [], ◌∷◌, map}
use kube_combo.Prelude.{if◌then◌else◌, ◌==◌, Io, ◌>>=◌, pure, Result, ok, err, bool_eq, nat_eq}
use kube_combo.Prelude.{string_eq, option_eq, list_eq}
use kube_combo.Util.{Ip, check_protocol}
use kube_combo.Probes.{Configuration}

-- The flags after `pflag.Parse`.
pub record Flags : Type 0 where
  pub port : ℕ
  pub kube_config : String
  pub daemonset_namespace : String
  pub daemonset_name : String
  pub interval : ℕ
  pub mode : String
  pub enable_metrics : Bool
  pub log_perm : String
  pub exit_code : ℕ
  pub ping : String
  pub tcp_ping : String
  pub udp_ping : String
  pub dns_lookup : String
  pub enable_node_ip_check : Bool

abbrev pub default_flags : Flags
default_flags = record {
  port = 8080;
  kube_config = "";
  daemonset_namespace = "kube-system";
  daemonset_name = "kube-ovn-pinger";
  interval = 5;
  mode = "server";
  enable_metrics = false;
  log_perm = "640";
  exit_code = 1;
  ping = "";
  tcp_ping = "";
  udp_ping = "";
  dns_lookup = "";
  enable_node_ip_check = false;
}

-- The status of the pod: its addresses, and whether its containers are ready.
pub record PodStatus : Type 0 where
  pub pod_ips : List String
  pub ready : List Bool

-- The settings of the client, with the server that it talks to.
pub record RestConfig : Type 0 where
  pub host : String
  pub timeout : ℕ
  pub qps : ℕ
  pub burst : ℕ
  pub content_type : String
  pub accept_content_types : String

-- The environment, the library's configurations of a client, the time, and the API server.
pub record Setup (W : Type 0) : Type 0 where
  pub getenv : String → String
  pub parse_ip : String → Option Ip
  pub in_cluster_config : Io W (Result RestConfig)
  pub build_config_from_flags : String → Io W (Result RestConfig)
  pub new_for_config : RestConfig → Option String
  pub sleep : ℕ → W → W
  pub get_pod : String → String → Io W (Result PodStatus)

-- What the parse gives: a configuration, an error, or the end of the process with code 1.
pub data Parsed : Type 0 where
  parsed : Configuration → Parsed
  refused : String → Parsed
  fatal : Parsed

-- What the wait gives: the protocols of the addresses, or nothing after the last attempt.
pub data Waited : Type 0 where
  protocols : List String → Waited
  no_pod : String → Waited
  ready_without_ips : Waited
  given_up : Waited

abbrev pub is_first_ready : List Bool → Bool
is_first_ready [] = false
is_first_ready (b ∷ bs) = b

module _ {W : Type 0} (setup : Setup W) where
  open setup use {
    getenv, parse_ip, in_cluster_config, build_config_from_flags, new_for_config, sleep, get_pod,
  }

  -- A client of protocol buffers, with a timeout of 15 seconds.
  abbrev with_settings : RestConfig → RestConfig
  with_settings cfg = record cfg {
    timeout = 15;
    qps = 1000;
    burst = 2000;
    content_type = "application/vnd.kubernetes.protobuf";
    accept_content_types = "application/vnd.kubernetes.protobuf,application/json";
  }

  abbrev pub after_config : Result RestConfig → Option String
  after_config (err e) = some e
  after_config (ok cfg) = new_for_config (with_settings cfg)

  -- `initKubeClient`: the client is that of the cluster if no file is given.
  unfoldable pub init_kube_client : String → Io W (Option String)
  init_kube_client file = do
    cfg ← (if file == "" then in_cluster_config else build_config_from_flags file)
    pure (after_config cfg)

  -- The configuration before the wait.
  unfoldable pub configuration : Flags → Configuration
  configuration flags = record {
    kube_config_file = flags.kube_config;
    daemonset_namespace = flags.daemonset_namespace;
    daemonset_name = flags.daemonset_name;
    interval = flags.interval;
    mode = flags.mode;
    exit_code = flags.exit_code;
    node_name = getenv "NODE_NAME";
    host_ip = getenv "HOST_IP";
    pod_name = getenv "POD_NAME";
    pod_ip = getenv "POD_IP";
    pod_protocols = [];
    enable_metrics = flags.enable_metrics;
    port = flags.port;
    log_perm = flags.log_perm;
    ping = flags.ping;
    tcp_ping = flags.tcp_ping;
    udp_ping = flags.udp_ping;
    dns_lookup = flags.dns_lookup;
    enable_node_ip_check = flags.enable_node_ip_check;
  }

  -- What one attempt makes of the pod it got; the rest are the attempts to come.
  abbrev pub after_ips : Io W Waited → List Bool → List String → Io W Waited
  after_ips rest ready [] = if is_first_ready ready then pure ready_without_ips else rest
  after_ips rest ready (ip ∷ ips) = pure (protocols (map (check_protocol parse_ip) (ip ∷ ips)))

  abbrev pub after_get : Io W Waited → Result PodStatus → Io W Waited
  after_get rest (err e) = pure (no_pod e)
  after_get rest (ok pod) = after_ips rest pod.ready pod.pod_ips

  -- The attempts that are left, three seconds apart.
  unfoldable pub wait_for_ips : ℕ → String → String → Io W Waited
  wait_for_ips zero namespace name = pure given_up
  wait_for_ips (suc n) namespace name =
      let rest = wait_for_ips n namespace name in
      λ w. (get_pod namespace name >>= after_get rest) (sleep 3 w)

  -- The end of the parse. The list of protocols is as long as that of the addresses.
  unfoldable pub after_wait : Configuration → Waited → Parsed
  after_wait config (protocols ps) = parsed (record config { pod_protocols = ps })
  after_wait config (no_pod e) = refused e
  after_wait config ready_without_ips = fatal
  after_wait config given_up = fatal

  unfoldable pub after_client : Flags → Option String → Io W Parsed
  unfolding configuration wait_for_ips after_wait
  after_client flags (some e) = pure (refused e)
  after_client flags none = do
    waited ← wait_for_ips 5 flags.daemonset_namespace (getenv "POD_NAME")
    pure (after_wait (configuration flags) waited)

  -- `ParseFlags`, after the library's parse of the command line.
  unfoldable pub parse_flags : Flags → Io W Parsed
  unfolding after_client init_kube_client
  parse_flags flags = init_kube_client flags.kube_config >>= after_client flags
