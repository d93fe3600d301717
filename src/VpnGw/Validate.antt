-- ===== src/VpnGw/Validate.antt =====
-- The validation that the reconciler makes: `validateKeepalived` and `validateVpnGw`.
use kube_combo.Prelude.{String, ◌≡◌, ◌≢◌, ◌↔◌, ◌⊎◌, true, not, ◌&&◌, Option, none, arith}
use kube_combo.Prelude.{if◌then◌else◌, ◌==◌, ◌!=◌, ◌then_check◌, check, bool_eq, nat_eq, string_eq}
use kube_combo.Prelude.{option_eq, list_eq}
use kube_combo.Api.KeepAlived.{KeepAlivedSpec}
use kube_combo.Api.VpnGw.{VpnGwSpec}
use text.Mathlib.TextEquality.{eq_iff}

unfoldable pub validate_keepalived : KeepAlivedSpec → Option String
validate_keepalived ka =
    check (ka.image == "") "keepalived image is required"
    then_check check (ka.vip_v4 == "" && ka.vip_v6 == "") "keepalived vip v4 or v6 ip is required"

-- The checks under `if gw.Spec.EnableSslVpn`.
unfoldable pub validate_ssl : VpnGwSpec → Option String
validate_ssl gw =
    check (gw.ssl_vpn_secret == "") "ssl vpn secret is required"
    then_check check (gw.dh_secret == "") "ssl vpn dh secret is required"
    then_check check (gw.ssl_vpn_cipher == "") "ssl vpn cipher is required"
    then_check check (gw.ssl_vpn_proto == "") "ssl vpn proto is required"
    then_check check (gw.ssl_vpn_subnet_cidr == "") "ssl vpn subnet cidr is required"
    then_check check (gw.ssl_vpn_proto != "udp" && gw.ssl_vpn_proto != "tcp")
        "ssl vpn proto should be udp or tcp"
    then_check check (gw.ssl_vpn_image == "") "ssl vpn image is required"

unfoldable pub validate_vpn_gw : VpnGwSpec → Option String
unfolding validate_ssl
validate_vpn_gw gw =
    check (gw.cpu == "") "vpn gw pod cpu is required"
    then_check check (gw.memory == "") "vpn gw pod memory is required"
    then_check check (not gw.enable_ssl_vpn && not gw.enable_ipsec_vpn)
        "vpn gw spec should enable ssl vpn or ipsec vpn at least one"
    then_check (if gw.enable_ssl_vpn then validate_ssl gw else none)
    then_check (if gw.enable_ipsec_vpn
        then check (gw.ipsec_vpn_image == "") "ipsec vpn image is required"
        else none)

-- What an SSL VPN needs.
pub record IsSslReady (gw : VpnGwSpec) : Type 0 where
  pub secret : gw.ssl_vpn_secret ≢ ""
  pub dh : gw.dh_secret ≢ ""
  pub cipher : gw.ssl_vpn_cipher ≢ ""
  pub cidr : gw.ssl_vpn_subnet_cidr ≢ ""
  pub proto : (gw.ssl_vpn_proto ≡ "udp") ⊎ (gw.ssl_vpn_proto ≡ "tcp")
  pub image : gw.ssl_vpn_image ≢ ""

-- A gateway that can be deployed.
pub record IsDeployable (gw : VpnGwSpec) : Type 0 where
  pub cpu : gw.cpu ≢ ""
  pub memory : gw.memory ≢ ""
  pub enabled : (gw.enable_ssl_vpn ≡ true) ⊎ (gw.enable_ipsec_vpn ≡ true)
  pub ssl : gw.enable_ssl_vpn ≡ true → IsSslReady gw
  pub ipsec : gw.enable_ipsec_vpn ≡ true → gw.ipsec_vpn_image ≢ ""

pub udp-ne-empty : ◌≢◌ {A = String} "udp" ""
udp-ne-empty = ground (arith, eq_iff "udp" "")

pub tcp-ne-empty : ◌≢◌ {A = String} "tcp" ""
tcp-ne-empty = ground (arith, eq_iff "tcp" "")

pub validate_ssl_iff : (gw : VpnGwSpec) → (validate_ssl gw ≡ none) ↔ IsSslReady gw
unfolding validate_ssl
validate_ssl_iff gw = (λ h. ground arith, λ r. ground (arith, udp-ne-empty, tcp-ne-empty))

-- The reconciler accepts a gateway exactly when it can be deployed.
pub validate_vpn_gw_iff : (gw : VpnGwSpec) → (validate_vpn_gw gw ≡ none) ↔ IsDeployable gw
unfolding validate_vpn_gw
validate_vpn_gw_iff gw =
    (λ h. ground (arith, validate_ssl_iff gw), λ r. ground (arith, validate_ssl_iff gw))
