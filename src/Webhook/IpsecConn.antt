-- ===== src/Webhook/IpsecConn.antt =====
-- The webhook of IpsecConn (api/v1/ipsecconn_webhook.go).
use kube_combo.Prelude.{String, ◌≡◌, ◌≢◌, ◌↔◌, ◌⊎◌, ◌&&◌, Option, none, some, List, [], ◌++◌, arith}
use kube_combo.Prelude.{if◌then◌else◌, ◌==◌, ◌!=◌, bool_eq, nat_eq, string_eq, option_eq, list_eq}
use kube_combo.Api.IpsecConn.{IpsecConn, IpsecConnSpec}
use kube_combo.Webhook.Errors.{FieldError, invalid, report, aggregate, replaced, aggregate-eq-none}

abbrev or_default : String → String → String
or_default value s = if s == "" then value else s

-- `Default`
unfoldable pub default_spec : IpsecConnSpec → IpsecConnSpec
default_spec r = record r {
  auth = or_default "pubkey" r.auth;
  ike_version = or_default "2" r.ike_version;
  ike_proposals = or_default "default" r.ike_proposals;
}

unfoldable pub default : IpsecConn → IpsecConn
unfolding default_spec
default r = record r { spec = default_spec r.spec }

unfoldable pub conn_errors : IpsecConnSpec → List FieldError
conn_errors r =
    report (r.vpn_gw == "") (invalid "spec.vpnGw" r.vpn_gw "ipsecConn vpn gw is required")
    ++ (report (r.ike_version != "0" && (r.ike_version != "1" && r.ike_version != "2"))
          (invalid "spec.ikeVersion" r.ike_version "ipsec connection spec ike version is invalid")
        ++ (report (r.auth != "psk" && r.auth != "pubkey")
              (invalid "spec.auth" r.auth "ipsec connection spec auth is invalid, auth spec")
            ++ (report (r.remote_eip == "")
                  (invalid "spec.localEIP" r.remote_eip "ipsecConn remote public ip is required")
                ++ (report (r.remote_private_cidrs == "") (
                      invalid "spec.remotePrivateCidrs" r.remote_private_cidrs
                        "ipsecConn remote private cidrs is required")
                    ++ (report (r.local_vip == "")
                          (invalid "spec.localVIP" r.local_vip "ipsecConn localVIP is required")
                        ++ (report (r.local_eip == "")
                              (invalid "spec.localEIP" r.local_eip "ipsecConn localEIP is required")
                            ++ report (r.local_private_cidrs == "") (
                                invalid "spec.localPrivateCidrs" r.local_private_cidrs
                                  "ipsecConn local private cidrs is required")))))))

-- `validateIpsecConn`
unfoldable pub validate_ipsec_conn : IpsecConnSpec → Option (List FieldError)
unfolding conn_errors
validate_ipsec_conn r = aggregate (conn_errors r)

unfoldable pub validate_create : IpsecConn → Option (List FieldError)
unfolding validate_ipsec_conn
validate_create r = validate_ipsec_conn r.spec

unfoldable pub owner_errors : IpsecConnSpec → IpsecConnSpec → List FieldError
owner_errors old r =
    report (replaced old.vpn_gw r.vpn_gw)
      (invalid "spec.vpnGw" r.vpn_gw "ipsecConn vpn gw can not be changed")

abbrev after_validate : Option (List FieldError) → List FieldError → Option (List FieldError)
after_validate (some es) more = some es
after_validate none more = aggregate more

unfoldable pub validate_update : IpsecConn → IpsecConn → Option (List FieldError)
unfolding validate_ipsec_conn owner_errors
validate_update r old = after_validate (validate_ipsec_conn r.spec) (owner_errors old.spec r.spec)

unfoldable pub validate_delete : IpsecConn → Option (List FieldError)
validate_delete r = none

-- A connection that the webhook admits.
pub record IsWellFormed (r : IpsecConnSpec) : Type 0 where
  pub vpn_gw : r.vpn_gw ≢ ""
  pub ike_version : (r.ike_version ≡ "0") ⊎ ((r.ike_version ≡ "1") ⊎ (r.ike_version ≡ "2"))
  pub auth : (r.auth ≡ "psk") ⊎ (r.auth ≡ "pubkey")
  pub remote_eip : r.remote_eip ≢ ""
  pub remote_private_cidrs : r.remote_private_cidrs ≢ ""
  pub local_vip : r.local_vip ≢ ""
  pub local_eip : r.local_eip ≢ ""
  pub local_private_cidrs : r.local_private_cidrs ≢ ""

pub conn_errors-eq-nil : (r : IpsecConnSpec) → (conn_errors r ≡ []) ↔ IsWellFormed r
unfolding conn_errors report
conn_errors-eq-nil r = (λ h. ground arith, λ k. ground arith)

-- A connection is created exactly when it is well formed, and an update is accepted exactly when
-- the new connection is well formed and its gateway, if it was set, is the old one.
pub validate_conn_iff :
    (r old : IpsecConn)
    → ((validate_create r ≡ none) ↔ IsWellFormed r.spec)
      × ((validate_update r old ≡ none)
          ↔ (IsWellFormed r.spec × (old.spec.vpn_gw ≢ "" → r.spec.vpn_gw ≡ old.spec.vpn_gw)))
unfolding validate_create validate_update report aggregate
validate_conn_iff r old = (
  ground (arith, aggregate-eq-none (conn_errors r.spec), conn_errors-eq-nil r.spec),
  ground (arith, aggregate-eq-none (conn_errors r.spec), conn_errors-eq-nil r.spec),
)
