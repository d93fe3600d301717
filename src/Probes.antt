-- ===== src/Probes.antt =====
-- The program that probes the network from a node (internal/pinger).
pub mod Ping
pub mod Check
pub mod Config
pub mod Waiting
pub mod Timely
pub mod Metrics
pub mod Kept
pub mod Looped
pub mod Unseen
pub mod Closing
pub mod Answers
pub mod Passing
pub mod Accepts
pub mod Listed
pub mod Reached
pub mod Stopped
use kube_combo.Prelude.{ℕ, String, Bool, Option, List, Io, Result}
use kube_combo.Prelude.Dict.{Dict}
use kube_combo.Util.{Ip}

-- The configuration but its client of the API server; the numbers are those that are not negative.
pub record Configuration : Type 0 where
  pub kube_config_file : String
  pub daemonset_namespace : String
  pub daemonset_name : String
  pub interval : ℕ
  pub mode : String
  pub exit_code : ℕ
  pub node_name : String
  pub host_ip : String
  pub pod_name : String
  pub pod_ip : String
  pub pod_protocols : List String
  pub enable_metrics : Bool
  pub port : ℕ
  pub log_perm : String
  pub ping : String
  pub tcp_ping : String
  pub udp_ping : String
  pub dns_lookup : String
  pub enable_node_ip_check : Bool

-- The statistics of three packets; times are in nanoseconds.
pub record Statistics : Type 0 where
  pub packets_sent : ℕ
  pub packets_recv : ℕ
  pub avg_rtt : ℕ

-- What `NewPinger` and `Run` give.
pub data Pinged : Type 0 where
  not_created : String → Pinged
  not_run : String → Pinged
  finished : Statistics → Pinged

-- The calls of the setters of metrics.go: the names, the latency, and the lost and the sent packets.
pub data Metric : Type 0 where
  pod_ping : List String → ℕ → ℕ → ℕ → Metric
  node_ping : List String → ℕ → ℕ → ℕ → Metric
  external_ping : List String → ℕ → ℕ → Metric
  dns_healthy : String → ℕ → Metric
  dns_unhealthy : String → Metric

pub record Pod : Type 0 where
  pub name : String
  pub host_ip : String
  pub node_name : String
  pub pod_ips : List String

pub record Address : Type 0 where
  pub kind : String
  pub address : String

pub record Node : Type 0 where
  pub name : String
  pub addresses : List Address

-- The network, the API server and the metrics over the state of the world. A ping has a timeout in
-- seconds; a lookup always takes some time. The labels are those of a daemonset's selector.
pub record Network : Type 1 where
  pub World : Type 0
  pub parse_ip : String → Option Ip
  pub ping : String → ℕ → Io World Pinged
  pub tcp_check : String → Io World (Option String)
  pub udp_check : String → Io World (Option String)
  pub lookup_host : String → Io World (Option String × ℕ)
  pub get_daemonset : String → String → Io World (Result Dict)
  pub list_pods : String → Dict → Io World (Result (List Pod))
  pub list_nodes : Io World (Result (List Node))
  pub set_metric : Metric → World → World
