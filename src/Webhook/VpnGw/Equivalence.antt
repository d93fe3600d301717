-- ===== src/Webhook/VpnGw/Equivalence.antt =====
-- The webhook and the reconciler accept the same gateways.
use kube_combo.Prelude.{◌≡◌, ◌↔◌, none, [], arith, bool_eq, nat_eq, string_eq, option_eq, list_eq}
use kube_combo.Api.VpnGw.{VpnGwSpec}
use kube_combo.Webhook.Errors.{report, aggregate-eq-none}
use kube_combo.Webhook.VpnGw.{ssl_errors, ipsec_errors, vpn_gw_errors, validate_vpn_gw}
use kube_combo.VpnGw.Validate
use kube_combo.VpnGw.Validate.{
  IsSslReady, IsDeployable, validate_vpn_gw_iff, udp-ne-empty, tcp-ne-empty,
}

ssl_errors-eq-nil : (gw : VpnGwSpec) → (ssl_errors gw ≡ []) ↔ IsSslReady gw
unfolding ssl_errors report
ssl_errors-eq-nil gw = (λ h. ground (arith), λ r. ground (arith, udp-ne-empty, tcp-ne-empty))

pub vpn_gw_errors-eq-nil : (gw : VpnGwSpec) → (vpn_gw_errors gw ≡ []) ↔ IsDeployable gw
unfolding vpn_gw_errors ipsec_errors report
vpn_gw_errors-eq-nil gw =
    (λ h. ground (arith, ssl_errors-eq-nil gw), λ r. ground (arith, ssl_errors-eq-nil gw))

-- The webhook accepts the creation of a gateway exactly when the reconciler accepts it.
pub validate_vpn_gw-agrees :
    (gw : VpnGwSpec) → (validate_vpn_gw gw ≡ none) ↔ (Validate.validate_vpn_gw gw ≡ none)
unfolding validate_vpn_gw
validate_vpn_gw-agrees gw = (
  λ h. (validate_vpn_gw_iff gw).1 ((vpn_gw_errors-eq-nil gw).0 ((aggregate-eq-none _).0 h)),
  λ h. (aggregate-eq-none _).1 ((vpn_gw_errors-eq-nil gw).1 ((validate_vpn_gw_iff gw).0 h)),
)
