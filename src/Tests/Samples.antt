-- ===== src/Tests/Samples.antt =====
-- Sample objects and a sample platform.
use kube_combo.Prelude.{String, true, false, none, [], ◌!=◌, bool_eq, nat_eq, string_eq, option_eq}
use kube_combo.Prelude.{list_eq}
use kube_combo.Api.Meta.{ObjectMeta, NamespacedName, Affinity}
use kube_combo.Api.KeepAlived.{KeepAlived}
use kube_combo.Api.VpnGw.{VpnGw, VpnGwSpec, VpnGwStatus}
use kube_combo.Api.IpsecConn.{IpsecConn, IpsecConnSpec}
use kube_combo.Workload.Builder.{Platform}
use kube_combo.VpnGw.Build.Containers.{Config}

abbrev pub meta_of : String → ObjectMeta
meta_of name = record {
  name = name;
  namespace = "vpn";
  labels = [];
  annotations = [];
  deleting = false;
  controller = none;
}

abbrev pub no_affinity : Affinity
no_affinity = record { node_affinity = none; pod_affinity = none; pod_anti_affinity = none }

abbrev pub gw_spec : VpnGwSpec
gw_spec = record {
  keepalived = "";
  workload_type = "statefulset";
  cpu = "1";
  memory = "1Gi";
  qos_bandwidth = "20";
  replicas = 2;
  selector = none;
  tolerations = none;
  affinity = no_affinity;
  enable_ssl_vpn = true;
  ssl_vpn_secret = "ssl";
  dh_secret = "dh";
  ssl_vpn_cipher = "AES-256-GCM";
  ssl_vpn_auth = "SHA1";
  ssl_vpn_proto = "udp";
  ssl_vpn_subnet_cidr = "10.1.0.0/24";
  ssl_vpn_image = "kubecombo/openvpn";
  enable_ipsec_vpn = false;
  ipsec_secret = "";
  ipsec_connections = none;
  ipsec_vpn_image = "kubecombo/strongswan";
  ipsec_enable_psk = false;
  default_psk = "";
}

-- The status of a gateway with this spec.
abbrev pub gw_status : VpnGwStatus
gw_status = record {
  cpu = "1";
  memory = "1Gi";
  qos_bandwidth = "20";
  replicas = 2;
  selector = none;
  tolerations = none;
  affinity = no_affinity;
  enable_ssl_vpn = true;
  ssl_vpn_secret = "";
  dh_secret = "";
  ssl_vpn_image = "kubecombo/openvpn";
  ssl_vpn_cipher = "AES-256-GCM";
  ssl_vpn_auth = "";
  ssl_vpn_proto = "udp";
  ssl_vpn_port = 0;
  ssl_vpn_subnet_cidr = "10.1.0.0/24";
  enable_ipsec_vpn = false;
  ipsec_secret = "";
  ipsec_vpn_image = "kubecombo/strongswan";
  ipsec_connections = none;
  keepalived = "";
}

abbrev pub gateway : VpnGw
gateway = record { meta = meta_of "gw"; spec = gw_spec; status = gw_status }

-- A gateway that also serves IPSec.
abbrev pub ipsec_gateway : VpnGw
ipsec_gateway = record gateway { spec = record gw_spec { enable_ipsec_vpn = true } }

abbrev pub keepalived : KeepAlived
keepalived = record {
  meta = meta_of "ka";
  spec = record {
    vip_v4 = "10.0.0.1";
    vip_v6 = "";
    subnet = "ovn-default";
    nic = "eth0";
    image = "kubecombo/keepalived";
  };
  status = record { router_id = 7 };
}

abbrev pub conn_spec : IpsecConnSpec
conn_spec = record {
  vpn_gw = "gw";
  auth = "pubkey";
  ike_version = "2";
  ike_proposals = "default";
  local_cn = "moon";
  local_vip = "10.0.0.1";
  local_gateway = "";
  local_gateway_nic = "";
  local_eip = "172.19.0.1";
  local_private_cidrs = "10.1.0.0/24";
  remote_cn = "sun";
  remote_eip = "172.19.0.2";
  remote_private_cidrs = "10.2.0.0/24";
  esp_proposals = "";
}

abbrev pub connection : IpsecConn
connection = record { meta = meta_of "moon-sun"; spec = conn_spec }

abbrev pub config : Config
config = record {
  k8s_manifests_path = "/etc/kubernetes/manifests";
  ssl_vpn_tcp = "443";
  ssl_vpn_udp = "1194";
  ssl_vpn_secret_path = "/etc/ovpn/certmanager";
  dh_secret_path = "/etc/ovpn/dh";
  ipsec_isakmp_port = "500";
  ipsec_nat_port = "4500";
  ipsec_vpn_secret_path = "/etc/ipsec/certs";
}

-- Every text but the empty one is a quantity, and every owner is taken.
abbrev pub platform : Platform
platform = record { is_quantity = λ s. s != ""; refuses_owner = λ owner object. false }

abbrev pub request : NamespacedName
request = record { namespace = "vpn"; name = "gw" }
