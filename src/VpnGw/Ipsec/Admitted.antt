-- ===== src/VpnGw/Ipsec/Admitted.antt =====
-- What the webhook's defaults and checks leave for the reconciler to find.
use kube_combo.Prelude.{◌≡◌, ◌≢◌, ◌↔◌, true, none, arith, bool_eq, nat_eq, string_eq, option_eq}
use kube_combo.Prelude.{list_eq}
use kube_combo.Api.VpnGw.{VpnGw}
use kube_combo.Api.IpsecConn.{IpsecConn, IpsecConnSpec}
use kube_combo.Webhook.IpsecConn.{IsWellFormed, default, validate_create, validate_conn_iff}
use kube_combo.VpnGw.Ipsec.{conn_error}
use kube_combo.VpnGw.Ipsec.Accept.{IsUsable, conn_error_iff}
use text.Mathlib.TextEquality.{eq_iff}

-- What the webhook does not check.
pub record IsComplete (gw : VpnGw) (con : IpsecConnSpec) : Type 0 where
  pub vpn_gw : con.vpn_gw ≡ gw.meta.name
  pub esp_proposals : gw.spec.ipsec_enable_psk ≡ true → con.esp_proposals ≢ ""
  pub names : con.auth ≡ "pubkey" → (con.remote_cn ≢ "") × (con.local_cn ≢ "")
  pub gateway_nic :
      con.auth ≡ "psk"
      → gw.spec.workload_type ≡ "static"
      → con.local_gateway ≢ ""
      → con.local_gateway_nic ≢ ""

pub default-ne-empty :
    (c : IpsecConn)
    → ((default c).spec.ike_proposals ≢ "")
      × ((default c).spec.auth ≢ "")
      × ((default c).spec.ike_version ≢ "")
unfolding default
default-ne-empty c = (
  ground (arith, eq_iff "default" ""),
  ground (arith, eq_iff "pubkey" ""),
  ground (arith, eq_iff "2" ""),
)

IsUsable-of_default :
    (gw : VpnGw) (c : IpsecConn)
    → IsWellFormed (default c).spec
    → IsComplete gw (default c).spec
    → IsUsable gw (default c)
IsUsable-of_default gw c w k = record {
  esp_proposals = k.esp_proposals;
  vpn_gw_set = w.vpn_gw;
  vpn_gw = k.vpn_gw;
  auth = (default-ne-empty c).1;
  ike_version = (default-ne-empty c).2;
  ike_proposals = (default-ne-empty c).0;
  local_vip = w.local_vip;
  local_eip = w.local_eip;
  local_private_cidrs = w.local_private_cidrs;
  remote_eip = w.remote_eip;
  remote_private_cidrs = w.remote_private_cidrs;
  names = k.names;
  gateway_nic = k.gateway_nic;
}

-- Of a connection that the webhook filled in and admitted, the reconciler only asks that it
-- names the gateway, has ESP proposals if the gateway uses a pre-shared key, has both common
-- names if it authenticates by public key, and, with a pre-shared key on a static gateway, has a
-- nic beside its local gateway.
pub admitted-conn_error :
    (gw : VpnGw) (c : IpsecConn)
    → validate_create (default c) ≡ none
    → (conn_error gw (default c) ≡ none) ↔ IsComplete gw (default c).spec
admitted-conn_error gw c h =
    let w = (validate_conn_iff (default c) (default c)).0.0 h in
    (
      λ e.
          let u = (conn_error_iff gw (default c)).0 e in
          record {
            vpn_gw = u.vpn_gw;
            esp_proposals = u.esp_proposals;
            names = u.names;
            gateway_nic = u.gateway_nic;
          },
      λ k. (conn_error_iff gw (default c)).1 (IsUsable-of_default gw c w k),
    )
