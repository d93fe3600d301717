-- ===== src/Probes/Unseen.antt =====
-- What the metrics show of the lost packets of nodes.
use kube_combo.Prelude.{ℕ, String, ◌≡◌, refl, ap, ◌∙◌, List, ret, Io, Keeps, bool_eq, nat_eq}
use kube_combo.Prelude.{string_eq, option_eq, list_eq}
use kube_combo.Prelude.Dict.{Dict}
use kube_combo.Probes.{Configuration, Metric}
use kube_combo.Probes.{Network}
use kube_combo.Probes.Metrics.{Collectors, Registry, apply}
use kube_combo.Probes.Ping.{lost}
use kube_combo.Probes.Check.{Event, Status, start_pinger}
use kube_combo.Probes.Kept.{LosesNone, Respects}
use kube_combo.Probes.Looped.{start_pinger-Keeps}

-- The collectors change only through the setters.
pub record IsMetered (net : Network) (c : Collectors) (registry : net.World → Registry c)
    : Type 0 where
  pub set_metric_applies :
      (m : Metric) (w : net.World) → registry (net.set_metric m w) ≡ apply c m (registry w)
  pub ping_keeps : (a : String) (t : ℕ) → Keeps (λ v w. registry w ≡ registry v) (net.ping a t)
  pub tcp_keeps : (e : String) → Keeps (λ v w. registry w ≡ registry v) (net.tcp_check e)
  pub udp_keeps : (e : String) → Keeps (λ v w. registry w ≡ registry v) (net.udp_check e)
  pub lookup_keeps : (d : String) → Keeps (λ v w. registry w ≡ registry v) (net.lookup_host d)
  pub daemonset_keeps :
      (ns name : String) → Keeps (λ v w. registry w ≡ registry v) (net.get_daemonset ns name)
  pub pods_keep :
      (ns : String) (labels : Dict)
      → Keeps (λ v w. registry w ≡ registry v) (net.list_pods ns labels)
  pub nodes_keep : Keeps (λ v w. registry w ≡ registry v) net.list_nodes

module _ (net : Network) (c : Collectors) (registry : net.World → Registry c)
    (metered : IsMetered net c registry)
    (add_zero : (labels other : List String) (v : c.Vector)
      → c.value labels (c.add other 0 v) ≡ c.value labels v) where
  abbrev Same : Registry c → Registry c → Type 0
  Same r s =
      (labels : List String) → c.value labels s.node_ping_lost ≡ c.value labels r.node_ping_lost

  apply-Same : (m : Metric) (r : Registry c) → LosesNone m → Same r (apply c m r)
  unfolding apply
  apply-Same (Metric.node_ping names latency lost total) r z labels =
      rw z (add_zero labels names r.node_ping_lost)
  apply-Same (Metric.pod_ping names latency lost total) r z labels = refl
  apply-Same (Metric.external_ping names latency lost) r z labels = refl
  apply-Same (Metric.dns_healthy node latency) r z labels = refl
  apply-Same (Metric.dns_unhealthy node) r z labels = refl

  abbrev SameLost : net.World → net.World → Type 0
  SameLost v w = Same (registry v) (registry w)

  same-SameLost :
      {A : Type 0} (m : Io net.World A)
      → Keeps (λ v w. registry w ≡ registry v) m
      → Keeps SameLost m
  same-SameLost m k w w' a e labels =
      ap (λ (r : Registry c). c.value labels r.node_ping_lost) (k w w' a e)

  SameLost-Respects : Respects net SameLost
  SameLost-Respects = record {
    order = record { rests = λ w labels. refl; follows = λ u v w p q labels. q labels ∙ p labels };
    metric_keeps = λ m w z. rw (metered.set_metric_applies m w) (apply-Same m (registry w) z);
    ping_keeps = λ a t. same-SameLost (net.ping a t) (metered.ping_keeps a t);
    tcp_keeps = λ e. same-SameLost (net.tcp_check e) (metered.tcp_keeps e);
    udp_keeps = λ e. same-SameLost (net.udp_check e) (metered.udp_keeps e);
    lookup_keeps = λ d. same-SameLost (net.lookup_host d) (metered.lookup_keeps d);
    daemonset_keeps =
        λ ns name. same-SameLost (net.get_daemonset ns name) (metered.daemonset_keeps ns name);
    pods_keep = λ ns labels. same-SameLost (net.list_pods ns labels) (metered.pods_keep ns labels);
    nodes_keep = same-SameLost net.list_nodes metered.nodes_keep;
  }

  -- However many packets the nodes lose, no series of their counter of lost packets changes as long
  -- as the program runs, if adding 0 to a counter changes none: `pingNodes` gives up before it sets
  -- the metrics.
  pub start_pinger-SameLost :
      (config : Configuration) (events : List Event) (w w' : net.World) (s : Status)
      → start_pinger net config events w ≡ ret (s, w')
      → (labels : List String)
      → c.value labels (registry w').node_ping_lost ≡ c.value labels (registry w).node_ping_lost
  start_pinger-SameLost config events w w' s h =
      start_pinger-Keeps net SameLost SameLost-Respects config events w w' s h
