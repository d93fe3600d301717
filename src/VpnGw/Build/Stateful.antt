-- ===== src/VpnGw/Build/Stateful.antt =====
-- `statefulSetForVpnGw`
use kube_combo.Prelude.{Option, List, [], ◌∷◌, ◌++◌, bool_eq, nat_eq, string_eq, option_eq, list_eq}
use kube_combo.Api.Meta.{ObjectMeta}
use kube_combo.Api.KeepAlived.{KeepAlived}
use kube_combo.Api.VpnGw.{VpnGw}
use kube_combo.Workload.Objects.{Volume, Container, StatefulSet, empty_pod_spec, rolling_update}
use kube_combo.Workload.Builder.{Platform, Build, ◌>>=◌, built, deref, when, set_controller}
use kube_combo.Workload.Builder.{node_selector, pod_tolerations, pod_affinity, pod_annotations}
use kube_combo.VpnGw.Build.Containers.{Part, no_part, workload_meta}
use kube_combo.VpnGw.Build.Containers.{Config, labels_for_vpn_gw, keepalived_container}
use kube_combo.VpnGw.Build.Containers.{ssl_container, ipsec_container, ipsec_secret_mounts}
use kube_combo.VpnGw.Build.Containers.{ipsec_secret_volumes, read_only_mount, secret_volume}

module _ (p : Platform) (r : Config) (gw : VpnGw) where
  unfoldable pub sts_ssl_part : KeepAlived → Build Part
  sts_ssl_part ka = do
    c ←
        ssl_container p gw r
          (read_only_mount gw.spec.ssl_vpn_secret r.ssl_vpn_secret_path
            ∷ read_only_mount gw.spec.dh_secret r.dh_secret_path
            ∷ [])
          "/etc/openvpn/setup/configure.sh" ka.spec.vip_v4
    built (c ∷ [], secret_volume gw.spec.ssl_vpn_secret ∷ secret_volume gw.spec.dh_secret ∷ [])

  unfoldable pub sts_ipsec_part : Build Part
  sts_ipsec_part = do
    c ← ipsec_container p gw r (ipsec_secret_mounts p gw r) ("/usr/sbin/charon-systemd" ∷ [])
    built (c ∷ [], ipsec_secret_volumes p gw r)

  -- The object that is made of the parts; its labels also select its pods.
  unfoldable pub sts_object :
      KeepAlived → Option ObjectMeta → ObjectMeta → List Container → List Volume → StatefulSet
  unfolding labels_for_vpn_gw
  sts_object ka old meta containers volumes = record {
    meta = meta;
    replicas = gw.spec.replicas;
    selector = labels_for_vpn_gw gw;
    template = record {
      name = "";
      namespace = "";
      labels = labels_for_vpn_gw gw;
      annotations = pod_annotations old ka.spec.subnet gw.spec.qos_bandwidth;
      spec = record empty_pod_spec {
        containers = containers;
        volumes = volumes;
        node_selector = node_selector gw.spec.selector;
        tolerations = pod_tolerations gw.spec.tolerations;
        affinity = pod_affinity gw.spec.affinity;
      };
    };
    update_strategy = rolling_update;
  }

  -- A nil keepalived is dereferenced.
  unfoldable pub stateful_set_for_vpn_gw : Option KeepAlived → Option ObjectMeta → Build StatefulSet
  stateful_set_for_vpn_gw maybe_ka old = do
    ka ← deref maybe_ka
    k ← keepalived_container p gw ka
    ssl ← when gw.spec.enable_ssl_vpn no_part (sts_ssl_part ka)
    ipsec ← when gw.spec.enable_ipsec_vpn no_part sts_ipsec_part
    meta ← set_controller p gw.meta (workload_meta gw)
    built (sts_object ka old meta ((ssl.0 ++ ipsec.0) ++ (k ∷ [])) (ssl.1 ++ ipsec.1))
