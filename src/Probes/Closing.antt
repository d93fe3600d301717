-- ===== src/Probes/Closing.antt =====
-- The probes with the connectivity checks of internal/util: what they leave open.
use kube_combo.Prelude.{ℕ, String, ◌≡◌, List, ret, Keeps}
use kube_combo.Prelude.Dict.{Dict}
use kube_combo.Util.Sockets.{Sockets, tcp_connectivity_check, udp_connectivity_check}
use kube_combo.Util.Closed.{SameOpen, SameOpen-IsPreorder, IsCounted}
use kube_combo.Util.Closed.{tcp_connectivity_check-SameOpen, udp_connectivity_check-SameOpen}
use kube_combo.Probes.{Configuration, Metric, Network}
use kube_combo.Probes.Check.{Event, Status, start_pinger}
use kube_combo.Probes.Kept.{Respects}
use kube_combo.Probes.Looped.{start_pinger-Keeps}

-- The network whose checks of ports are those of internal/util.
abbrev pub with_sockets : (net : Network) → Sockets net.World → Network
with_sockets net sockets = record net {
  tcp_check = tcp_connectivity_check sockets;
  udp_check = udp_connectivity_check sockets;
}

-- The other calls open and close nothing of the program.
pub record OpensNone (net : Network) (open_count : net.World → ℕ) : Type 0 where
  pub metric_keeps : (m : Metric) (w : net.World) → open_count (net.set_metric m w) ≡ open_count w
  pub ping_keeps : (a : String) (t : ℕ) → Keeps (SameOpen open_count) (net.ping a t)
  pub lookup_keeps : (d : String) → Keeps (SameOpen open_count) (net.lookup_host d)
  pub daemonset_keeps : (ns name : String) → Keeps (SameOpen open_count) (net.get_daemonset ns name)
  pub pods_keep :
      (ns : String) (labels : Dict) → Keeps (SameOpen open_count) (net.list_pods ns labels)
  pub nodes_keep : Keeps (SameOpen open_count) net.list_nodes

module _ (net : Network) (sockets : Sockets net.World) (open_count : net.World → ℕ)
    (counted : IsCounted sockets open_count) (none_else : OpensNone net open_count) where
  SameOpen-Respects : Respects (with_sockets net sockets) (SameOpen open_count)
  SameOpen-Respects = record {
    order = SameOpen-IsPreorder open_count;
    metric_keeps = λ m w z. none_else.metric_keeps m w;
    ping_keeps = none_else.ping_keeps;
    tcp_keeps = tcp_connectivity_check-SameOpen sockets open_count counted;
    udp_keeps = udp_connectivity_check-SameOpen sockets open_count counted;
    lookup_keeps = none_else.lookup_keeps;
    daemonset_keeps = none_else.daemonset_keeps;
    pods_keep = none_else.pods_keep;
    nodes_keep = none_else.nodes_keep;
  }

  -- The pinger leaks no connection: however long it runs, and whichever of its checks fail, as many
  -- connections are open as before.
  pub start_pinger-SameOpen :
      (config : Configuration) (events : List Event) (w v : net.World) (s : Status)
      → start_pinger (with_sockets net sockets) config events w ≡ ret (s, v)
      → open_count v ≡ open_count w
  start_pinger-SameOpen config events w v s =
      start_pinger-Keeps (with_sockets net sockets) (SameOpen open_count) SameOpen-Respects config
        events w v s
