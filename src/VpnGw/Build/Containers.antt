-- ===== src/VpnGw/Build/Containers.antt =====
-- The containers and volumes that both workloads of a gateway are made of.
use kube_combo.Prelude.{ℕ, String, true, false, none, List, [], ◌∷◌, if◌then◌else◌, ◌==◌}
use kube_combo.Prelude.{format_bool, bool_eq, nat_eq, string_eq, option_eq, list_eq}
use kube_combo.Prelude.Dict.{Dict}
use kube_combo.Text.Decimal.{itoa}
use kube_combo.Text.Words.{to_upper}
use kube_combo.Api.KeepAlived.{KeepAlived}
use kube_combo.Api.Meta.{ObjectMeta}
use kube_combo.Api.VpnGw.{VpnGw}
use kube_combo.Workload.Objects.{EnvVar, VolumeMount, HostPathType, VolumeSource, Volume, plain}
use kube_combo.Workload.Objects.{ContainerPort, ResourceList, SecurityContext, Container}
use kube_combo.Workload.Objects.{pull_if_not_present}
use kube_combo.Workload.Builder.{Platform, Build, ◌>>=◌, built, or_nil, must_parse}
use kube_combo.VpnGw.Port.{get_port_int32}

-- The fields of `VpnGwReconciler` that the flags of the controller set.
pub record Config : Type 0 where
  pub k8s_manifests_path : String
  pub ssl_vpn_tcp : String
  pub ssl_vpn_udp : String
  pub ssl_vpn_secret_path : String
  pub dh_secret_path : String
  pub ipsec_isakmp_port : String
  pub ipsec_nat_port : String
  pub ipsec_vpn_secret_path : String

-- `labelsForVpnGw`
unfoldable pub labels_for_vpn_gw : VpnGw → Dict
labels_for_vpn_gw gw =
    ("enable-ssl-vpn", format_bool gw.spec.enable_ssl_vpn)
    ∷ ("enable-ipsec-vpn", format_bool gw.spec.enable_ipsec_vpn)
    ∷ ("vpn-gw", gw.meta.name)
    ∷ []

abbrev pub privileged_context : SecurityContext
privileged_context = record {
  privileged = true;
  allow_privilege_escalation = true;
  run_as_user = none;
  capabilities = [];
}

abbrev pub read_only_mount : String → String → VolumeMount
read_only_mount name path = record { name = name; mount_path = path; read_only = true }

abbrev pub writable_mount : String → String → VolumeMount
writable_mount name path = record { name = name; mount_path = path; read_only = false }

abbrev pub secret_volume : String → Volume
secret_volume name = record { name = name; source = VolumeSource.secret name }

abbrev pub host_volume : String → String → HostPathType → Volume
host_volume name path type = record { name = name; source = VolumeSource.host_path path type }

-- The containers and the volumes that a server brings with it.
abbrev pub Part : Type 0
Part = List Container × List Volume

abbrev pub no_part : Part
no_part = ([], [])

-- The metadata of the workload, before its owner is set.
abbrev pub workload_meta : VpnGw → ObjectMeta
workload_meta gw = record {
  name = gw.meta.name;
  namespace = gw.meta.namespace;
  labels = labels_for_vpn_gw gw;
  annotations = [];
  deleting = false;
  controller = none;
}

module _ (p : Platform) (gw : VpnGw) where
  abbrev gateway_container :
      String
      → String
      → List VolumeMount
      → ResourceList
      → List String
      → List ContainerPort
      → List EnvVar
      → Container
  gateway_container name image mounts limits command ports env = record {
    name = name;
    image = image;
    volume_mounts = mounts;
    limits = limits;
    requests = none;
    command = command;
    ports = ports;
    env = env;
    image_pull_policy = pull_if_not_present;
    security_context = privileged_context;
  }

  unfoldable pub keepalived_container : KeepAlived → Build Container
  keepalived_container ka = do
    limits ← must_parse p gw.spec.cpu gw.spec.memory
    built (
        gateway_container "keepalived" ka.spec.image [] limits ("/configure.sh" ∷ []) [] (
          plain "KEEPALIVED_VIP" ka.spec.vip_v4
          ∷ plain "KEEPALIVED_VIRTUAL_ROUTER_ID" (itoa ka.status.router_id)
          ∷ plain "KEEPALIVED_NIC" ka.spec.nic
          ∷ []))

  module _ (r : Config) where
    -- The port of the protocol: that for TCP if the protocol is tcp, else that for UDP.
    unfoldable pub ssl_vpn_port : String
    ssl_vpn_port = if gw.spec.ssl_vpn_proto == "tcp" then r.ssl_vpn_tcp else r.ssl_vpn_udp

    -- The SSL server, with its mounts and its command, which differ between the workloads.
    unfoldable pub ssl_container : List VolumeMount → String → String → Build Container
    ssl_container mounts command vip = do
      port ← or_nil (get_port_int32 ssl_vpn_port)
      limits ← must_parse p gw.spec.cpu gw.spec.memory
      built (
          gateway_container "ssl-vpn" gw.spec.ssl_vpn_image mounts limits (command ∷ [])
            (record {
              container_port = port;
              name = "ssl-vpn";
              protocol = to_upper gw.spec.ssl_vpn_proto;
            }
              ∷ [])
            (plain "SSL_VPN_PROTO" gw.spec.ssl_vpn_proto
              ∷ plain "SSL_VPN_PORT" ssl_vpn_port
              ∷ plain "SSL_VPN_CIPHER" gw.spec.ssl_vpn_cipher
              ∷ plain "SSL_VPN_AUTH" gw.spec.ssl_vpn_auth
              ∷ plain "SSL_VPN_SUBNET_CIDR" gw.spec.ssl_vpn_subnet_cidr
              ∷ plain "KEEPALIVED_VIP" vip
              ∷ plain "K8S_MANIFESTS_PATH" r.k8s_manifests_path
              ∷ plain "SSL_VPN_IMAGE" gw.spec.ssl_vpn_image
              ∷ []))

    abbrev udp_port : ℕ → String → ContainerPort
    udp_port port name = record { container_port = port; name = name; protocol = "UDP" }

    -- The IPSec server, with its mounts and its command, which differ between the workloads.
    unfoldable pub ipsec_container : List VolumeMount → List String → Build Container
    ipsec_container mounts command = do
      isakmp ← or_nil (get_port_int32 r.ipsec_isakmp_port)
      nat ← or_nil (get_port_int32 r.ipsec_nat_port)
      limits ← must_parse p gw.spec.cpu gw.spec.memory
      built (
          gateway_container "ipsec-vpn" gw.spec.ipsec_vpn_image mounts limits command
            (udp_port isakmp "isakmp" ∷ udp_port nat "nat" ∷ [])
            (plain "K8S_MANIFESTS_PATH" r.k8s_manifests_path
              ∷ plain "IPSEC_VPN_IMAGE" gw.spec.ipsec_vpn_image
              ∷ []))

    -- The mount of the x.509 secret, which a pre-shared key replaces.
    unfoldable pub ipsec_secret_mounts : List VolumeMount
    ipsec_secret_mounts =
        if gw.spec.ipsec_enable_psk
        then []
        else read_only_mount gw.spec.ipsec_secret r.ipsec_vpn_secret_path ∷ []

    unfoldable pub ipsec_secret_volumes : List Volume
    ipsec_secret_volumes =
        if gw.spec.ipsec_enable_psk then [] else secret_volume gw.spec.ipsec_secret ∷ []
