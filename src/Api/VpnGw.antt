-- ===== src/Api/VpnGw.antt =====
-- `VpnGw` (api/v1/vpngw_types.go).
use kube_combo.Prelude.{ℕ, String, Bool, Slice}
use kube_combo.Api.Meta.{ObjectMeta, Toleration, Affinity}

pub record VpnGwSpec : Type 0 where
  pub keepalived : String
  pub workload_type : String
  pub cpu : String
  pub memory : String
  pub qos_bandwidth : String
  pub replicas : ℕ
  pub selector : Slice String
  pub tolerations : Slice Toleration
  pub affinity : Affinity
  pub enable_ssl_vpn : Bool
  pub ssl_vpn_secret : String
  pub dh_secret : String
  pub ssl_vpn_cipher : String
  pub ssl_vpn_auth : String
  pub ssl_vpn_proto : String
  pub ssl_vpn_subnet_cidr : String
  pub ssl_vpn_image : String
  pub enable_ipsec_vpn : Bool
  pub ipsec_secret : String
  pub ipsec_connections : Slice String
  pub ipsec_vpn_image : String
  pub ipsec_enable_psk : Bool
  pub default_psk : String

-- The conditions are left out: the controllers neither read nor write them.
pub record VpnGwStatus : Type 0 where
  pub cpu : String
  pub memory : String
  pub qos_bandwidth : String
  pub replicas : ℕ
  pub selector : Slice String
  pub tolerations : Slice Toleration
  pub affinity : Affinity
  pub enable_ssl_vpn : Bool
  pub ssl_vpn_secret : String
  pub dh_secret : String
  pub ssl_vpn_image : String
  pub ssl_vpn_cipher : String
  pub ssl_vpn_auth : String
  pub ssl_vpn_proto : String
  pub ssl_vpn_port : ℕ
  pub ssl_vpn_subnet_cidr : String
  pub enable_ipsec_vpn : Bool
  pub ipsec_secret : String
  pub ipsec_vpn_image : String
  pub ipsec_connections : Slice String
  pub keepalived : String

pub record VpnGw : Type 0 where
  pub meta : ObjectMeta
  pub spec : VpnGwSpec
  pub status : VpnGwStatus
