-- ===== src/Probes/Answers.antt =====
-- What it means that the network answers: the description that `check` is compared with.
use kube_combo.Prelude.{ℕ, String, ◌≡◌, Bool, true, false, not, ◌&&◌, ◌||◌, none, List, [], ◌∷◌}
use kube_combo.Prelude.{◌==◌, ◌!=◌, ret, ok, bool_eq, nat_eq, string_eq, option_eq, list_eq}
use kube_combo.Prelude.Dict.{Dict}
use kube_combo.Text.Words.{split}
use kube_combo.Probes.{Configuration, Statistics, finished, Metric, Pod, Address, Node, Network}
use kube_combo.Probes.Ping.{set_if, is_served, external_metric, pod_metric, node_metric}

-- The steps of a list, one after the other.
pub data Chain {W A : Type 0} (R : A → W → W → Type 0) : List A → W → W → Type 0 where
  nothing : {w : W} → Chain R [] w w
  link : {x : A} {xs : List A} {w u v : W} → R x w u → Chain R xs u v → Chain R (x ∷ xs) w v

-- A step that is made only if it is asked for.
pub data Asked {W : Type 0} (b : Bool) (R : W → W → Type 0) (w v : W) : Type 0 where
  unasked : b ≡ false → v ≡ w → Asked b R w v
  asked : b ≡ true → R w v → Asked b R w v

module _ (net : Network) (config : Configuration) (with_metrics : Bool) where
  open net use {World}

  -- A ping of which no packet is lost, with its metrics.
  pub data Whole (address : String) (timeout : ℕ) (metric : Statistics → Metric) (w v : World)
      : Type 0 where
    whole :
        (s : Statistics) (u : World)
        → net.ping address timeout w ≡ ret (finished s, u)
        → s.packets_recv ≡ s.packets_sent
        → v ≡ set_if net config with_metrics (metric s) u
        → Whole address timeout metric w v

  -- An external address answers, if the pod has its protocol.
  abbrev pub AddressAnswers : String → World → World → Type 0
  AddressAnswers a =
      Asked (is_served net config with_metrics a)
        (Whole a 5 (external_metric net config with_metrics a))

  abbrev pub ExternalAnswers : World → World → Type 0
  ExternalAnswers = Chain AddressAnswers (split b',' config.ping)

  abbrev pub PodIpAnswers : Pod → String → World → World → Type 0
  PodIpAnswers pod ip =
      Asked (is_served net config with_metrics ip)
        (Whole ip 1 (pod_metric net config with_metrics pod ip))

  abbrev pub PodAnswers : Pod → World → World → Type 0
  PodAnswers pod = Chain (PodIpAnswers pod) pod.pod_ips

  -- The peers can be listed, and all their addresses answer.
  pub data PeersAnswer (w v : World) : Type 0 where
    peers :
        (labels : Dict) (pods : List Pod) (u t : World)
        → net.get_daemonset config.daemonset_namespace config.daemonset_name w ≡ ret (ok labels, u)
        → net.list_pods config.daemonset_namespace labels u ≡ ret (ok pods, t)
        → Chain PodAnswers pods t v
        → PeersAnswer w v

  abbrev pub NodeAddressAnswers : String → Address → World → World → Type 0
  NodeAddressAnswers name a =
      Asked (a.kind == "InternalIP" && is_served net config with_metrics a.address)
        (Whole a.address 30 (node_metric net config with_metrics name a.address))

  abbrev pub NodeAnswers : Node → World → World → Type 0
  NodeAnswers n = Chain (NodeAddressAnswers n.name) n.addresses

  pub data NodesAnswer (w v : World) : Type 0 where
    nodes :
        (ns : List Node) (u : World)
        → net.list_nodes w ≡ ret (ok ns, u)
        → Chain NodeAnswers ns u v
        → NodesAnswer w v

  -- Every endpoint can be connected to.
  pub data PortsAnswer (w v : World) : Type 0 where
    ports :
        (u : World)
        → Chain (λ e t x. net.tcp_check e t ≡ ret (none, x)) (split b',' config.tcp_ping) w u
        → Chain (λ e t x. net.udp_check e t ≡ ret (none, x)) (split b',' config.udp_ping) u v
        → PortsAnswer w v

  pub data Resolves (dns : String) (w v : World) : Type 0 where
    resolves :
        (elapsed : ℕ) (u : World)
        → net.lookup_host dns w ≡ ret ((none, elapsed), u)
        → v ≡ set_if net config with_metrics (Metric.dns_healthy config.node_name elapsed) u
        → Resolves dns w v

  -- Everything that the configuration asks for answers, in turn.
  pub data AllAnswers (w v : World) : Type 0 where
    all_answer :
        (w1 w2 w3 w4 : World)
        → Asked (config.ping != "") ExternalAnswers w w1
        → Asked (config.tcp_ping != "" || config.udp_ping != "") PortsAnswer w1 w2
        → Asked
            (not (config.daemonset_name == "" || config.daemonset_namespace == ""))
            PeersAnswer
            w2
            w3
        → Asked config.enable_node_ip_check NodesAnswer w3 w4
        → Asked (config.dns_lookup != "") (Chain Resolves (split b',' config.dns_lookup)) w4 v
        → AllAnswers w v
