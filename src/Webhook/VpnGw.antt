-- ===== src/Webhook/VpnGw.antt =====
-- The webhook of VpnGw (api/v1/vpngw_webhook.go).
pub mod Equivalence
pub mod Frozen
use kube_combo.Prelude.{not, ◌&&◌, ◌||◌, Option, none, some, List, [], ◌++◌, if◌then◌else◌, ◌==◌}
use kube_combo.Prelude.{◌!=◌, format_bool, bool_eq, nat_eq, string_eq, option_eq, list_eq}
use kube_combo.Api.VpnGw.{VpnGw, VpnGwSpec}
use kube_combo.Webhook.Errors.{FieldError, invalid, report, aggregate, replaced}

-- The reports under `if r.Spec.EnableSslVpn`.
unfoldable pub ssl_errors : VpnGwSpec → List FieldError
ssl_errors r =
    report (r.dh_secret == "") (invalid "spec.dhSecret" r.dh_secret "ssl vpn dh secret is required")
    ++ (report (r.ssl_vpn_secret == "")
          (invalid "spec.sslVpnSecret" r.ssl_vpn_secret "ssl vpn secret is required")
        ++ (report (r.ssl_vpn_cipher == "")
              (invalid "spec.SslVpnCipher" r.ssl_vpn_cipher "ssl vpn cipher is required")
            ++ (report (r.ssl_vpn_proto == "")
                  (invalid "spec.SslVpnProto" r.ssl_vpn_proto "ssl vpn proto is required")
                ++ (report (r.ssl_vpn_subnet_cidr == "") (
                      invalid "spec.SslVpnSubnetCidr" r.ssl_vpn_subnet_cidr
                        "ssl vpn subnet cidr is required")
                    ++ (report (r.ssl_vpn_proto != "udp" && r.ssl_vpn_proto != "tcp") (
                          invalid "spec.SslVpnProto" r.ssl_vpn_proto
                            "ssl vpn proto should be udp or tcp")
                        ++ report (r.ssl_vpn_image == "") (
                            invalid "spec.sslVpnImage" r.ssl_vpn_image
                              "ssl vpn image is required"))))))

-- The reports under `if r.Spec.EnableIPSecVpn`.
unfoldable pub ipsec_errors : VpnGwSpec → List FieldError
ipsec_errors r =
    report (r.ipsec_vpn_image == "")
      (invalid "spec.ipsecVpnImage" r.ipsec_vpn_image "ipsec vpn image is required")

unfoldable pub vpn_gw_errors : VpnGwSpec → List FieldError
unfolding ssl_errors ipsec_errors
vpn_gw_errors r =
    report (r.cpu == "" || r.memory == "")
      (invalid "spec.cpu" r.cpu "vpn gw cpu and memory is required, 1C 1Gi at least")
    ++ (report (not r.enable_ssl_vpn && not r.enable_ipsec_vpn) (
          invalid "spec.enableSslVpn" (format_bool r.enable_ssl_vpn)
            "either ssl vpn or ipsec vpn should be enabled")
        ++ ((if r.enable_ssl_vpn then ssl_errors r else [])
            ++ (if r.enable_ipsec_vpn then ipsec_errors r else [])))

-- `validateVpnGw` of the webhook.
unfoldable pub validate_vpn_gw : VpnGwSpec → Option (List FieldError)
unfolding vpn_gw_errors
validate_vpn_gw r = aggregate (vpn_gw_errors r)

unfoldable pub validate_create : VpnGw → Option (List FieldError)
unfolding validate_vpn_gw
validate_create r = validate_vpn_gw r.spec

-- The fields that an update may not change once they are set.
unfoldable pub frozen_errors : VpnGwSpec → VpnGwSpec → List FieldError
frozen_errors old r =
    report (replaced old.keepalived r.keepalived)
      (invalid "spec.keepalived" r.keepalived "vpn gw keepalived not support change")
    ++ (report (replaced old.dh_secret r.dh_secret)
          (invalid "spec.dhSecret" r.dh_secret "vpn gw dh secret not support change")
        ++ (report (replaced old.ssl_vpn_secret r.ssl_vpn_secret)
              (invalid "spec.sslVpnSecret" r.ssl_vpn_secret "vpn gw ssl secret not support change")
            ++ (report (replaced old.ipsec_secret r.ipsec_secret) (
                  invalid "spec.ipsecSecret" r.ipsec_secret
                    "vpn gw ipsec secret not support change")
                ++ (report (replaced old.ssl_vpn_proto r.ssl_vpn_proto) (
                      invalid "spec.SslVpnProto" r.ssl_vpn_proto
                        "vpn gw SslVpn proto not support change")
                    ++ report (replaced old.ssl_vpn_subnet_cidr r.ssl_vpn_subnet_cidr) (
                        invalid "spec.SslVpnSubnetCidr" r.ssl_vpn_subnet_cidr
                          "vpn gw SslVpn subnet cidr not support change")))))

abbrev after_validate : Option (List FieldError) → List FieldError → Option (List FieldError)
after_validate (some es) more = some es
after_validate none more = aggregate more

unfoldable pub validate_update : VpnGw → VpnGw → Option (List FieldError)
unfolding validate_vpn_gw frozen_errors
validate_update r old = after_validate (validate_vpn_gw r.spec) (frozen_errors old.spec r.spec)

-- `ValidateDelete` accepts every object.
unfoldable pub validate_delete : VpnGw → Option (List FieldError)
validate_delete r = none
