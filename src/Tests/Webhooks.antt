-- ===== src/Tests/Webhooks.antt =====
-- The webhooks at concrete objects.
use kube_combo.Prelude.{String, ◌≡◌, refl, ◌≢◌, false, none, arith, ◌==◌, bool_eq, nat_eq}
use kube_combo.Prelude.{string_eq, option_eq, list_eq}
use kube_combo.Api.KeepAlived.{KeepAlived}
use kube_combo.Api.VpnGw.{VpnGw}
use kube_combo.Webhook.Errors.{report, aggregate}
use kube_combo.Webhook.VpnGw.{validate_vpn_gw, validate_create, validate_update}
use kube_combo.Webhook.VpnGw.Equivalence.{validate_vpn_gw-agrees}
use kube_combo.Webhook.VpnGw.Frozen.{KeepsFrozen, Admitted}
use kube_combo.Webhook.VpnGw.Frozen.{Admitted-KeepsFrozen}
use kube_combo.Webhook.IpsecConn
use kube_combo.Webhook.IpsecConn.{IsWellFormed, validate_conn_iff}
use kube_combo.VpnGw.Validate
use kube_combo.VpnGw.Validate.{IsDeployable}
use kube_combo.Tests.Samples.{gateway, gw_spec, keepalived, connection, conn_spec}

accepted : validate_vpn_gw gw_spec ≡ none
unfolding validate_vpn_gw report aggregate string_eq
accepted = refl

-- The gateway with another image.
abbrev updated : VpnGw
updated = record gateway { spec = record gw_spec { ssl_vpn_image = "kubecombo/openvpn:v2" } }

updated_accepted : validate_update updated gateway ≡ none
unfolding validate_update report aggregate string_eq
updated_accepted = refl

validate_vpn_gw-agrees_example : Validate.validate_vpn_gw gw_spec ≡ none
validate_vpn_gw-agrees_example = (validate_vpn_gw-agrees gw_spec).0 accepted

created : validate_create gateway ≡ none
unfolding validate_create
created = accepted

Admitted-KeepsFrozen_example : IsDeployable updated.spec × KeepsFrozen gateway.spec updated.spec
Admitted-KeepsFrozen_example =
    Admitted-KeepsFrozen (Admitted.update (Admitted.create {g = gateway} created) updated_accepted)

differ : (s t : String) → (s == t) ≡ false → s ≢ t
differ s t h = ground arith

-- Another VIP.
abbrev moved : KeepAlived
moved = record keepalived { spec = record (keepalived.spec) { vip_v4 = "10.0.0.2" } }

vip_set : (keepalived.spec.vip_v4 ≢ "") × (keepalived.spec.vip_v4 ≢ moved.spec.vip_v4)
unfolding string_eq
vip_set = (differ _ "" refl, differ _ moved.spec.vip_v4 refl)

conn_created : IpsecConn.validate_create connection ≡ none
unfolding IpsecConn.validate_create report aggregate string_eq
conn_created = refl

validate_conn_iff_example : IsWellFormed conn_spec
validate_conn_iff_example = (validate_conn_iff connection connection).0.0 conn_created
