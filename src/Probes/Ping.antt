-- ===== src/Probes/Ping.antt =====
-- `pingNodes`, `pingPods`, `pingExternal`, `checkAccessTargetIPPorts` and `dnslookup`.
use kube_combo.Prelude.{ℕ, ◌+◌, ◌-◌, String, ◌<>◌, Bool, ◌&&◌, ◌||◌, Option, none, some, List, []}
use kube_combo.Prelude.{◌∷◌, if◌then◌else◌, ◌==◌, contains, ret, Io, ◌>>=◌, pure, Result, ok, err}
use kube_combo.Prelude.{bool_eq, nat_eq, string_eq, option_eq, list_eq}
use kube_combo.Prelude.Dict.{Dict}
use kube_combo.Text.Words.{split}
use kube_combo.Text.Decimal.{itoa}
use kube_combo.Util.{check_protocol}
use kube_combo.Probes.{Configuration, Statistics, Pinged, not_created, not_run, finished, Metric}
use kube_combo.Probes.{Pod}
use kube_combo.Probes.{Address, Node, Network}

-- The error variable of a loop, which a new error replaces.
abbrev pub latest : Option String → Option String → Option String
latest old none = old
latest old (some e) = some e

-- A loop that goes on after an error.
unfoldable pub each {ℓ} :
    {W : Type 0} {A : Type ℓ}
    → (A → Io W (Option String))
    → Option String
    → List A
    → Io W (Option String)
each f old [] = pure old
each f old (x ∷ xs) = do e ← f x; each f (latest old e) xs

-- The distance of the packets that were sent and received.
abbrev pub lost : Statistics → ℕ
lost s = (s.packets_sent - s.packets_recv) + (s.packets_recv - s.packets_sent)

abbrev lost_text : String → Statistics → String
lost_text target s =
    ("ping " <> (target <> (" failed, packets sent: " <> itoa s.packets_sent)))
    <> (", packets received: " <> itoa s.packets_recv)

module _ (net : Network) (config : Configuration) (with_metrics : Bool) where
  open net use {World, parse_ip, ping, set_metric}

  abbrev pub set_if : Metric → World → World
  set_if m w = if with_metrics then set_metric m w else w

  abbrev pub is_served : String → Bool
  is_served address = contains config.pod_protocols (check_protocol parse_ip address)

  abbrev pub external_metric : String → Statistics → Metric
  external_metric address s =
      Metric.external_ping (config.node_name ∷ config.host_ip ∷ config.pod_ip ∷ address ∷ [])
        s.avg_rtt (lost s)

  -- The metrics of an external address are set whether packets were lost or not.
  unfoldable pub after_external : String → Pinged → Io World (Option String)
  after_external address (not_created e) w = ret (some e, w)
  after_external address (not_run e) w = ret (some e, w)
  after_external address (finished s) w = ret (
    if lost s == 0 then none else some (lost_text ("external address " <> address) s),
    set_if (external_metric address s) w,
  )

  unfoldable pub ping_address : String → Io World (Option String)
  ping_address address =
      if is_served address then ping address 5 >>= after_external address else pure none

  unfoldable pub ping_external : Io World (Option String)
  ping_external =
      if config.ping == "" then pure none else each ping_address none (split b',' config.ping)

  abbrev pub pod_metric : Pod → String → Statistics → Metric
  pod_metric pod ip s =
      Metric.pod_ping
        (config.node_name ∷ config.host_ip ∷ config.pod_name ∷ pod.node_name ∷ pod.host_ip ∷ ip
          ∷ [])
        s.avg_rtt (lost s) s.packets_sent

  unfoldable pub after_pod : Pod → String → Pinged → Io World (Option String)
  after_pod pod ip (not_created e) w = ret (some e, w)
  after_pod pod ip (not_run e) w = ret (some e, w)
  after_pod pod ip (finished s) w = ret (
    if lost s == 0 then none else some (lost_text ("pod " <> (pod.name <> (" " <> ip))) s),
    set_if (pod_metric pod ip s) w,
  )

  unfoldable pub ping_pod_ip : Pod → String → Io World (Option String)
  ping_pod_ip pod ip = if is_served ip then ping ip 1 >>= after_pod pod ip else pure none

  abbrev pub ping_listed_pods : Result (List Pod) → Io World (Option String)
  ping_listed_pods (err e) = pure (some e)
  ping_listed_pods (ok pods) =
      each (λ (pod : Pod). each (ping_pod_ip pod) none pod.pod_ips) none pods

  abbrev pub ping_peers : Result Dict → Io World (Option String)
  ping_peers (err e) = pure (some e)
  ping_peers (ok labels) = net.list_pods config.daemonset_namespace labels >>= ping_listed_pods

  unfoldable pub ping_pods : Io World (Option String)
  ping_pods =
      if config.daemonset_name == "" || config.daemonset_namespace == ""
      then pure none
      else net.get_daemonset config.daemonset_namespace config.daemonset_name >>= ping_peers

  abbrev pub node_metric : String → String → Statistics → Metric
  node_metric name ip s =
      Metric.node_ping (config.node_name ∷ config.host_ip ∷ config.pod_name ∷ name ∷ ip ∷ [])
        s.avg_rtt (lost s) s.packets_sent

  -- The metrics of a node are set only if no packet was lost.
  unfoldable pub after_node : String → String → Pinged → Io World (Option String)
  after_node name ip (not_created e) w = ret (some e, w)
  after_node name ip (not_run e) w = ret (some e, w)
  after_node name ip (finished s) w =
      if lost s == 0
      then ret (none, set_if (node_metric name ip s) w)
      else ret (some (lost_text ("node " <> (name <> (" " <> ip))) s), w)

  unfoldable pub ping_node_address : String → Address → Io World (Option String)
  ping_node_address name a =
      if a.kind == "InternalIP" && is_served a.address
      then ping a.address 30 >>= after_node name a.address
      else pure none

  abbrev pub ping_listed_nodes : Result (List Node) → Io World (Option String)
  ping_listed_nodes (err e) = pure (some e)
  ping_listed_nodes (ok nodes) =
      each (λ (n : Node). each (ping_node_address n.name) none n.addresses) none nodes

  unfoldable pub ping_nodes : Io World (Option String)
  ping_nodes = net.list_nodes >>= ping_listed_nodes

  unfoldable pub check_ports : Io World (Option String)
  check_ports = do
    e ← each net.tcp_check none (split b',' config.tcp_ping)
    each net.udp_check e (split b',' config.udp_ping)

  -- A failed lookup sets both metrics.
  unfoldable pub after_lookup : Option String × ℕ → Io World (Option String)
  after_lookup (none, elapsed) w =
      ret (none, set_if (Metric.dns_healthy config.node_name elapsed) w)
  after_lookup (some e, elapsed) w = ret (
    some e,
    set_if (Metric.dns_healthy config.node_name elapsed)
        (set_if (Metric.dns_unhealthy config.node_name) w),
  )

  abbrev pub lookup_one : String → Io World (Option String)
  lookup_one dns = net.lookup_host dns >>= after_lookup

  unfoldable pub dns_lookup : Io World (Option String)
  dns_lookup = each lookup_one none (split b',' config.dns_lookup)
