-- ===== src/Probes/Kept.antt =====
-- A relation between the states before and after each probe, from those of its calls.
use kube_combo.Prelude.{ℕ, String, ◌≡◌, inl, inr, Bool, true, false, ◌&&◌, ◌||◌, Option, none, some}
use kube_combo.Prelude.{List, [], ◌∷◌, arith, ◌==◌, Go, ret, Io, ◌>>=◌, pure, Result, ok, err}
use kube_combo.Prelude.{Bool-cases, subst, Keeps, IsPreorder, pure-Keeps, >>=-Keeps, if-Keeps}
use kube_combo.Prelude.{ret-world, bool_eq, nat_eq, string_eq, option_eq, list_eq}
use kube_combo.Prelude.Dict.{Dict}
use kube_combo.Probes.{Pinged, not_created, not_run, finished, Metric, Pod, Node, Network}
use kube_combo.Probes.{Configuration}
use kube_combo.Probes.Ping.{latest, each, lost, set_if, is_served, external_metric, pod_metric}
use kube_combo.Probes.Ping.{node_metric, after_external, ping_address, ping_external, after_pod}
use kube_combo.Probes.Ping.{ping_pod_ip, ping_listed_pods, ping_peers, ping_pods, after_node}
use kube_combo.Probes.Ping.{ping_node_address, ping_listed_nodes, ping_nodes, check_ports}
use kube_combo.Probes.Ping.{after_lookup, lookup_one, dns_lookup}
use kube_combo.Probes.Check.{probe_if}
use kube_combo.Text.Words.{split}

-- The metrics that leave the lost packets of nodes at 0.
abbrev pub LosesNone : Metric → Type 0
LosesNone (Metric.node_ping labels latency lost total) = lost ≡ 0
LosesNone _ = Unit

module _ {W : Type 0} (R : W → W → Type 0) (order : IsPreorder R) where
  pub each-Keeps :
      {A : Type 0} (f : A → Io W (Option String))
      → ((x : A) → Keeps R (f x))
      → (old : Option String) (xs : List A) → Keeps R (each f old xs)
  unfolding each
  each-Keeps f k old [] = pure-Keeps R order old
  each-Keeps f k old (x ∷ xs) =
      >>=-Keeps R order (f x) (λ e. each f (latest old e) xs) (k x)
        (λ e. each-Keeps f k (latest old e) xs)

  pub probe_if-Keeps :
      (b : Bool) (probe before : Io W (Option String))
      → Keeps R before
      → Keeps R probe
      → Keeps R (before >>= probe_if b probe)
  probe_if-Keeps true probe before k l = >>=-Keeps R order before (probe_if true probe) k (λ old.
      >>=-Keeps R order probe (λ e. pure (latest old e)) l (λ e. pure-Keeps R order (latest old e)))
  probe_if-Keeps false probe before k l =
      >>=-Keeps R order before (probe_if false probe) k (λ old. pure-Keeps R order old)

-- The calls of a network stay within a relation, and so do the metrics that a check sets.
pub record Respects (net : Network) (R : net.World → net.World → Type 0) : Type 0 where
  pub order : IsPreorder R
  pub metric_keeps : (m : Metric) (w : net.World) → LosesNone m → R w (net.set_metric m w)
  pub ping_keeps : (a : String) (t : ℕ) → Keeps R (net.ping a t)
  pub tcp_keeps : (e : String) → Keeps R (net.tcp_check e)
  pub udp_keeps : (e : String) → Keeps R (net.udp_check e)
  pub lookup_keeps : (d : String) → Keeps R (net.lookup_host d)
  pub daemonset_keeps : (ns name : String) → Keeps R (net.get_daemonset ns name)
  pub pods_keep : (ns : String) (labels : Dict) → Keeps R (net.list_pods ns labels)
  pub nodes_keep : Keeps R net.list_nodes

module _ (net : Network) (R : net.World → net.World → Type 0) (respects : Respects net R)
    (config : Configuration) (with_metrics : Bool) where
  open respects use {order}

  set_if-Keeps :
      (m : Metric) (w : net.World) → LosesNone m → R w (set_if net config with_metrics m w)
  set_if-Keeps m w z = set_by with_metrics
    where
      set_by : (b : Bool) → R w (set_if net config b m w)
      set_by true = respects.metric_keeps m w z
      set_by false = order.rests w

  -- A result that is returned with metrics set.
  returned-Keeps :
      {A : Type 0} (m : Metric) (w w' : net.World) (a b : A)
      → LosesNone m
      → ◌≡◌ {A = Go (A × net.World)} (ret (a, set_if net config with_metrics m w)) (ret (b, w'))
      → R w w'
  returned-Keeps m w w' a b z h = subst (R w) (ret-world a b _ w' h) (set_if-Keeps m w z)

  nothing_else : {A : Type 0} (a : A) → Keeps R (pure a)
  nothing_else a = pure-Keeps R order a

  ping_then :
      (address : String) (timeout : ℕ) (after : Pinged → Io net.World (Option String))
      → ((r : Pinged) → Keeps R (after r))
      → Keeps R (net.ping address timeout >>= after)
  ping_then address timeout after k =
      >>=-Keeps R order (net.ping address timeout) after (respects.ping_keeps address timeout) k

  after_external-Keeps :
      (a : String) (r : Pinged) → Keeps R (after_external net config with_metrics a r)
  unfolding after_external
  after_external-Keeps a (not_created e) = nothing_else (some e)
  after_external-Keeps a (not_run e) = nothing_else (some e)
  after_external-Keeps a (finished s) =
      λ w w' b h. returned-Keeps (external_metric net config with_metrics a s) w w' _ b tt h

  after_pod-Keeps :
      (pod : Pod) (ip : String) (r : Pinged) → Keeps R (after_pod net config with_metrics pod ip r)
  unfolding after_pod
  after_pod-Keeps pod ip (not_created e) = nothing_else (some e)
  after_pod-Keeps pod ip (not_run e) = nothing_else (some e)
  after_pod-Keeps pod ip (finished s) =
      λ w w' b h. returned-Keeps (pod_metric net config with_metrics pod ip s) w w' _ b tt h

  after_node-Keeps :
      (name ip : String) (r : Pinged) → Keeps R (after_node net config with_metrics name ip r)
  unfolding after_node
  after_node-Keeps name ip (not_created e) = nothing_else (some e)
  after_node-Keeps name ip (not_run e) = nothing_else (some e)
  after_node-Keeps name ip (finished s) = λ w w' b h. elim (Bool-cases (lost s == 0)) [
    | inl whole ↦
        returned-Keeps (node_metric net config with_metrics name ip s) w w' none b (ground arith)
          (rw whole at h)
    | inr some_lost ↦ nothing_else (some _) w w' b (rw some_lost at h)
  ]

  pub external-Keeps : Keeps R (ping_external net config with_metrics)
  unfolding ping_external ping_address
  external-Keeps =
      if-Keeps R order (config.ping == "") (λ e. nothing_else none)
        (λ e.
          each-Keeps R order (ping_address net config with_metrics)
            (λ a.
              if-Keeps R order (is_served net config with_metrics a)
                (λ e.
                  ping_then a 5 (after_external net config with_metrics a) (after_external-Keeps a))
                (λ e. nothing_else none))
            none (split b',' config.ping))

  pods-Keeps : (r : Result (List Pod)) → Keeps R (ping_listed_pods net config with_metrics r)
  unfolding ping_pod_ip
  pods-Keeps (err e) = nothing_else (some e)
  pods-Keeps (ok pods) =
      each-Keeps R order _
        (λ pod.
          each-Keeps R order (ping_pod_ip net config with_metrics pod)
            (λ ip.
              if-Keeps R order (is_served net config with_metrics ip)
                (λ e.
                  ping_then ip 1 (after_pod net config with_metrics pod ip)
                    (after_pod-Keeps pod ip))
                (λ e. nothing_else none))
            none pod.pod_ips)
        none pods

  peers-Keeps : (r : Result Dict) → Keeps R (ping_peers net config with_metrics r)
  peers-Keeps (err e) = nothing_else (some e)
  peers-Keeps (ok labels) =
      >>=-Keeps R order (net.list_pods config.daemonset_namespace labels)
        (ping_listed_pods net config with_metrics)
        (respects.pods_keep config.daemonset_namespace labels) pods-Keeps

  pub ping_pods-Keeps : Keeps R (ping_pods net config with_metrics)
  unfolding ping_pods
  ping_pods-Keeps =
      if-Keeps R order (config.daemonset_name == "" || config.daemonset_namespace == "")
        (λ e. nothing_else none)
        (λ e.
          >>=-Keeps R order (net.get_daemonset config.daemonset_namespace config.daemonset_name)
            (ping_peers net config with_metrics)
            (respects.daemonset_keeps config.daemonset_namespace config.daemonset_name) peers-Keeps)

  nodes-Keeps : (r : Result (List Node)) → Keeps R (ping_listed_nodes net config with_metrics r)
  unfolding ping_node_address
  nodes-Keeps (err e) = nothing_else (some e)
  nodes-Keeps (ok ns) =
      each-Keeps R order _
        (λ n.
          each-Keeps R order (ping_node_address net config with_metrics n.name)
            (λ a.
              if-Keeps R order
                (a.kind == "InternalIP" && is_served net config with_metrics a.address)
                (λ e.
                  ping_then a.address 30 (after_node net config with_metrics n.name a.address)
                    (after_node-Keeps n.name a.address))
                (λ e. nothing_else none))
            none n.addresses)
        none ns

  pub ping_nodes-Keeps : Keeps R (ping_nodes net config with_metrics)
  unfolding ping_nodes
  ping_nodes-Keeps =
      >>=-Keeps R order net.list_nodes (ping_listed_nodes net config with_metrics)
        respects.nodes_keep nodes-Keeps

  pub ports-Keeps : Keeps R (check_ports net config with_metrics)
  unfolding check_ports
  ports-Keeps =
      >>=-Keeps R order (each net.tcp_check none (split b',' config.tcp_ping))
        (λ e. each net.udp_check e (split b',' config.udp_ping))
        (each-Keeps R order net.tcp_check respects.tcp_keeps none (split b',' config.tcp_ping))
        (λ e. each-Keeps R order net.udp_check respects.udp_keeps e (split b',' config.udp_ping))

  after_lookup-Keeps : (r : Option String × ℕ) → Keeps R (after_lookup net config with_metrics r)
  unfolding after_lookup
  after_lookup-Keeps (none, elapsed) w w' b h = returned-Keeps _ w w' none b tt h
  after_lookup-Keeps (some e, elapsed) w w' b h =
      order.follows w _ w' (set_if-Keeps (Metric.dns_unhealthy config.node_name) w tt)
        (returned-Keeps _ _ w' (some e) b tt h)

  pub dns-Keeps : Keeps R (dns_lookup net config with_metrics)
  unfolding dns_lookup
  dns-Keeps =
      each-Keeps R order (lookup_one net config with_metrics)
        (λ d.
          >>=-Keeps R order (net.lookup_host d) (after_lookup net config with_metrics)
            (respects.lookup_keeps d) after_lookup-Keeps)
        none (split b',' config.dns_lookup)
