-- ===== src/VpnGw/Build/Daemon.antt =====
-- `daemonsetForVpnGw`
use kube_combo.Prelude.{String, true, Option, none, some, List, [], ◌∷◌, ◌++◌, bool_eq, nat_eq}
use kube_combo.Prelude.{string_eq, option_eq, list_eq}
use kube_combo.Api.Meta.{ObjectMeta}
use kube_combo.Api.KeepAlived.{KeepAlived}
use kube_combo.Api.VpnGw.{VpnGw}
use kube_combo.Workload.Objects.{Volume, Container, DaemonSet, empty_pod_spec, rolling_update}
use kube_combo.Workload.Objects.{HostPathType, VolumeMount}
use kube_combo.Workload.Builder.{Platform, Build, ◌>>=◌, built, when, set_controller}
use kube_combo.Workload.Builder.{node_selector, pod_tolerations, pod_affinity, pod_annotations}
use kube_combo.VpnGw.Build.Containers.{Config, labels_for_vpn_gw, keepalived_container}
use kube_combo.VpnGw.Build.Containers.{ssl_container, ipsec_container, ipsec_secret_mounts}
use kube_combo.VpnGw.Build.Containers.{ipsec_secret_volumes, read_only_mount, writable_mount}
use kube_combo.VpnGw.Build.Containers.{secret_volume, host_volume}
use kube_combo.VpnGw.Build.Containers.{Part, no_part, workload_meta}

-- `subnet` and `v4Vip`: empty without a keepalived.
abbrev pub subnet_of : Option KeepAlived → String
subnet_of none = ""
subnet_of (some ka) = ka.spec.subnet

abbrev pub vip_of : Option KeepAlived → String
vip_of none = ""
vip_of (some ka) = ka.spec.vip_v4

module _ (p : Platform) (r : Config) (gw : VpnGw) where
  abbrev manifests_mount : VolumeMount
  manifests_mount = writable_mount "k8s-manifests" r.k8s_manifests_path

  unfoldable pub ds_ssl_part : Option KeepAlived → Build Part
  ds_ssl_part ka = do
    c ←
        ssl_container p gw r
          (manifests_mount
            ∷ writable_mount "openvpn-cache" "/etc/host-init-openvpn"
            ∷ read_only_mount gw.spec.ssl_vpn_secret r.ssl_vpn_secret_path
            ∷ read_only_mount gw.spec.dh_secret r.dh_secret_path
            ∷ [])
          "/etc/openvpn/setup/daemonset-start.sh" (vip_of ka)
    built (
      c ∷ [],
      host_volume "openvpn-cache" "/etc/host-init-openvpn" HostPathType.directory_or_create
          ∷ secret_volume gw.spec.ssl_vpn_secret
          ∷ secret_volume gw.spec.dh_secret
          ∷ [],
    )

  unfoldable pub ds_ipsec_part : Build Part
  ds_ipsec_part = do
    c ←
        ipsec_container p gw r
          (manifests_mount
            ∷ writable_mount "strongswan-cache" "/etc/host-init-strongswan"
            ∷ ipsec_secret_mounts p gw r)
          ("sleep" ∷ "infinity" ∷ [])
    built (
      c ∷ [],
      host_volume "strongswan-cache" "/etc/host-init-strongswan" HostPathType.directory_or_create
          ∷ ipsec_secret_volumes p gw r,
    )

  -- The keepalived container, if the gateway has a keepalived.
  unfoldable pub ds_keepalived_part : Option KeepAlived → Build (List Container)
  ds_keepalived_part none = built []
  ds_keepalived_part (some ka) = do k ← keepalived_container p gw ka; built (k ∷ [])

  -- The object that is made of the parts; its labels also select its pods.
  unfoldable pub ds_object :
      Option KeepAlived → Option ObjectMeta → ObjectMeta → List Container → List Volume → DaemonSet
  unfolding labels_for_vpn_gw
  ds_object ka old meta containers volumes = record {
    meta = meta;
    selector = labels_for_vpn_gw gw;
    template = record {
      name = "";
      namespace = "";
      labels = labels_for_vpn_gw gw;
      annotations = pod_annotations old (subnet_of ka) gw.spec.qos_bandwidth;
      spec = record empty_pod_spec {
        containers = containers;
        volumes = volumes;
        host_network = true;
        node_selector = node_selector gw.spec.selector;
        tolerations = pod_tolerations gw.spec.tolerations;
        affinity = pod_affinity gw.spec.affinity;
      };
    };
    update_strategy = rolling_update;
    max_unavailable = none;
  }

  unfoldable pub daemonset_for_vpn_gw : Option KeepAlived → Option ObjectMeta → Build DaemonSet
  daemonset_for_vpn_gw ka old = do
    ssl ← when gw.spec.enable_ssl_vpn no_part (ds_ssl_part ka)
    ipsec ← when gw.spec.enable_ipsec_vpn no_part ds_ipsec_part
    k ← ds_keepalived_part ka
    meta ← set_controller p gw.meta (workload_meta gw)
    built (
        ds_object ka old meta ((ssl.0 ++ ipsec.0) ++ k) (
          (ssl.1 ++ ipsec.1)
          ++ (host_volume "k8s-manifests" r.k8s_manifests_path HostPathType.directory ∷ [])))
