-- ===== src/Probes/Listed.antt =====
-- When the pings of addresses, peers and nodes give no error.
use kube_combo.Prelude.{String, ◌≡◌, refl, ◌∙◌, ◌↔◌, Bool, not, ◌&&◌, ◌||◌, none, List, ◌==◌, ret}
use kube_combo.Prelude.{◌>>=◌, Result, ok, err, >>=-ret, >>=-of_ret, bool_eq, nat_eq, string_eq}
use kube_combo.Prelude.{option_eq, list_eq}
use kube_combo.Prelude.Dict.{Dict}
use kube_combo.Text.Words.{split}
use kube_combo.Probes.{Configuration, Pod}
use kube_combo.Probes.{Address, Node, Network}
use kube_combo.Probes.Ping.{each, is_served, external_metric, pod_metric, node_metric}
use kube_combo.Probes.Ping.{after_external, ping_address, ping_external, after_pod, ping_pod_ip}
use kube_combo.Probes.Ping.{ping_listed_pods}
use kube_combo.Probes.Ping.{ping_peers, ping_pods, after_node, ping_node_address, ping_listed_nodes}
use kube_combo.Probes.Ping.{ping_nodes}
use kube_combo.Probes.Answers.{Chain, Asked, AddressAnswers, ExternalAnswers, PodIpAnswers}
use kube_combo.Probes.Answers.{PodAnswers, PeersAnswer, peers, NodeAddressAnswers, NodeAnswers}
use kube_combo.Probes.Answers.{NodesAnswer}
use kube_combo.Probes.Answers.{nodes}
use kube_combo.Probes.Passing.{each_iff, guarded_iff, unless_iff, pinged_iff}
use kube_combo.Probes.Accepts.{after_external_accepts, after_pod_accepts, after_node_accepts}

module _ (net : Network) (config : Configuration) (with_metrics : Bool) where
  address_iff :
      (a : String) (w v : net.World)
      → (ping_address net config with_metrics a w ≡ ret (none, v))
        ↔ AddressAnswers net config with_metrics a w v
  unfolding ping_address
  address_iff a =
      guarded_iff (net.ping a 5 >>= after_external net config with_metrics a) _
        (pinged_iff net config with_metrics (external_metric net config with_metrics a)
          (after_external net config with_metrics a)
          (after_external_accepts net config with_metrics a) a 5)
        (is_served net config with_metrics a)

  pod_ip_iff :
      (pod : Pod) (ip : String) (w v : net.World)
      → (ping_pod_ip net config with_metrics pod ip w ≡ ret (none, v))
        ↔ PodIpAnswers net config with_metrics pod ip w v
  unfolding ping_pod_ip
  pod_ip_iff pod ip =
      guarded_iff (net.ping ip 1 >>= after_pod net config with_metrics pod ip) _
        (pinged_iff net config with_metrics (pod_metric net config with_metrics pod ip)
          (after_pod net config with_metrics pod ip)
          (after_pod_accepts net config with_metrics pod ip) ip 1)
        (is_served net config with_metrics ip)

  node_address_iff :
      (name : String) (a : Address) (w v : net.World)
      → (ping_node_address net config with_metrics name a w ≡ ret (none, v))
        ↔ NodeAddressAnswers net config with_metrics name a w v
  unfolding ping_node_address
  node_address_iff name a =
      guarded_iff (net.ping a.address 30 >>= after_node net config with_metrics name a.address) _
        (pinged_iff net config with_metrics (node_metric net config with_metrics name a.address)
          (after_node net config with_metrics name a.address)
          (after_node_accepts net config with_metrics name a.address) a.address 30)
        (a.kind == "InternalIP" && is_served net config with_metrics a.address)

  pub external_iff :
      (w v : net.World)
      → (ping_external net config with_metrics w ≡ ret (none, v))
        ↔ Asked (not (config.ping == "")) (ExternalAnswers net config with_metrics) w v
  unfolding ping_external
  external_iff =
      unless_iff (each (ping_address net config with_metrics) none (split b',' config.ping))
        (ExternalAnswers net config with_metrics)
        (each_iff (ping_address net config with_metrics) (AddressAnswers net config with_metrics)
          address_iff (split b',' config.ping))
        (config.ping == "")

  pod_iff :
      (pod : Pod) (w v : net.World)
      → (each (ping_pod_ip net config with_metrics pod) none pod.pod_ips w ≡ ret (none, v))
        ↔ PodAnswers net config with_metrics pod w v
  pod_iff pod =
      each_iff (ping_pod_ip net config with_metrics pod) (PodIpAnswers net config with_metrics pod)
        (pod_ip_iff pod) pod.pod_ips

  listed_pods_iff :
      (pods : List Pod) (w v : net.World)
      → (ping_listed_pods net config with_metrics (ok pods) w ≡ ret (none, v))
        ↔ Chain (PodAnswers net config with_metrics) pods w v
  listed_pods_iff pods =
      each_iff (λ (pod : Pod). each (ping_pod_ip net config with_metrics pod) none pod.pod_ips)
        (PodAnswers net config with_metrics) pod_iff pods

  listed_pods_ok :
      (r : Result (List Pod)) (t v : net.World)
      → ping_listed_pods net config with_metrics r t ≡ ret (none, v)
      → (pods : List Pod) × (r ≡ ok pods) × Chain (PodAnswers net config with_metrics) pods t v
  listed_pods_ok (err e) t v h = cc
  listed_pods_ok (ok pods) t v h = (pods, refl, (listed_pods_iff pods t v).0 h)

  peers_ok :
      (r : Result Dict) (u v : net.World)
      → ping_peers net config with_metrics r u ≡ ret (none, v)
      → (labels : Dict) × (pods : List Pod) × (t : net.World) × (r ≡ ok labels)
        × (net.list_pods config.daemonset_namespace labels u ≡ ret (ok pods, t))
        × Chain (PodAnswers net config with_metrics) pods t v
  peers_ok (err e) u v h = cc
  peers_ok (ok labels) u v h =
      let (r, t, got, rest) =
        >>=-ret (net.list_pods config.daemonset_namespace labels)
          (ping_listed_pods net config with_metrics) u v none h in
      let (pods, p, answers) = listed_pods_ok r t v rest in
      (labels, pods, t, refl, rw p at got, answers)

  peers_iff :
      (w v : net.World)
      → ((net.get_daemonset config.daemonset_namespace config.daemonset_name
              >>= ping_peers net config with_metrics)
            w
          ≡ ret (none, v))
        ↔ PeersAnswer net config with_metrics w v
  peers_iff w v = (
    λ h.
        let (r, u, got, rest) =
          >>=-ret (net.get_daemonset config.daemonset_namespace config.daemonset_name)
            (ping_peers net config with_metrics) w v none h in
        let (labels, pods, t, p, listed, answers) = peers_ok r u v rest in
        peers labels pods u t (rw p at got) listed answers,
    λ a. elim a [
      | peers labels pods u t got listed answers ↦
          >>=-of_ret (net.get_daemonset config.daemonset_namespace config.daemonset_name)
            (ping_peers net config with_metrics) w u (ok labels) got
          ∙ >>=-of_ret (net.list_pods config.daemonset_namespace labels)
              (ping_listed_pods net config with_metrics) u t (ok pods) listed
          ∙ (listed_pods_iff pods t v).1 answers
    ],
  )

  node_iff :
      (n : Node) (w v : net.World)
      → (each (ping_node_address net config with_metrics n.name) none n.addresses w ≡ ret (none, v))
        ↔ NodeAnswers net config with_metrics n w v
  node_iff n =
      each_iff (ping_node_address net config with_metrics n.name)
        (NodeAddressAnswers net config with_metrics n.name) (node_address_iff n.name) n.addresses

  listed_nodes_iff :
      (ns : List Node) (w v : net.World)
      → (ping_listed_nodes net config with_metrics (ok ns) w ≡ ret (none, v))
        ↔ Chain (NodeAnswers net config with_metrics) ns w v
  listed_nodes_iff ns =
      each_iff
        (λ (n : Node). each (ping_node_address net config with_metrics n.name) none n.addresses)
        (NodeAnswers net config with_metrics) node_iff ns

  listed_nodes_ok :
      (r : Result (List Node)) (t v : net.World)
      → ping_listed_nodes net config with_metrics r t ≡ ret (none, v)
      → (ns : List Node) × (r ≡ ok ns) × Chain (NodeAnswers net config with_metrics) ns t v
  listed_nodes_ok (err e) t v h = cc
  listed_nodes_ok (ok ns) t v h = (ns, refl, (listed_nodes_iff ns t v).0 h)

  pub nodes_iff :
      (w v : net.World)
      → (ping_nodes net config with_metrics w ≡ ret (none, v))
        ↔ NodesAnswer net config with_metrics w v
  unfolding ping_nodes
  nodes_iff w v = (
    λ h.
        let (r, u, got, rest) =
          >>=-ret net.list_nodes (ping_listed_nodes net config with_metrics) w v none h in
        let (ns, p, answers) = listed_nodes_ok r u v rest in nodes ns u (rw p at got) answers,
    λ a. elim a [
      | nodes ns u got answers ↦
          >>=-of_ret net.list_nodes (ping_listed_nodes net config with_metrics) w u (ok ns) got
          ∙ (listed_nodes_iff ns u v).1 answers
    ],
  )

  pub pods_iff :
      (w v : net.World)
      → (ping_pods net config with_metrics w ≡ ret (none, v))
        ↔ Asked
            (not (config.daemonset_name == "" || config.daemonset_namespace == ""))
            (PeersAnswer net config with_metrics)
            w
            v
  unfolding ping_pods
  pods_iff =
      unless_iff
        (net.get_daemonset config.daemonset_namespace config.daemonset_name
          >>= ping_peers net config with_metrics)
        (PeersAnswer net config with_metrics) peers_iff
        (config.daemonset_name == "" || config.daemonset_namespace == "")
