-- ===== src/VpnGw/Ipsec.antt =====
-- The check and the rendering of the IPSec connections: `validateIPSecConns`.
pub mod Accept
pub mod Admitted
use kube_combo.Prelude.{String, ◌<>◌, Bool, ◌&&◌, ◌||◌, Option, none, some, List, [], ◌∷◌}
use kube_combo.Prelude.{if◌then◌else◌, ◌==◌, ◌!=◌, ◌then_check◌, check, bool_eq, nat_eq, string_eq}
use kube_combo.Prelude.{option_eq, list_eq}
use kube_combo.Api.VpnGw.{VpnGw}
use kube_combo.Api.IpsecConn.{IpsecConn}
use kube_combo.Sync.{SyncState}

-- "vpn gw %s ipsec connection should have …"
abbrev gw_error : VpnGw → String → String
gw_error gw text = "vpn gw " <> (gw.meta.name <> (" ipsec connection " <> text))

-- "vpn gw %s ipsec connection %s …"
abbrev conn_text : VpnGw → IpsecConn → String → String
conn_text gw con text = gw_error gw (con.meta.name <> (" " <> text))

-- The checks under `if gw.Spec.IPSecEnablePSK`.
abbrev psk_error : VpnGw → IpsecConn → Option String
psk_error gw con =
    check (con.spec.esp_proposals == "") (gw_error gw "should have esp proposals")
    then_check check (con.spec.ike_proposals == "") (gw_error gw "should have ike proposals")

-- The checks of one connection, in their order; a missing gateway beside a given gateway nic is
-- only logged by the source.
unfoldable pub conn_error : VpnGw → IpsecConn → Option String
conn_error gw con =
    let spec = con.spec in
    let fails = λ (test : Bool) (text : String). check test (conn_text gw con text) in
    (if gw.spec.ipsec_enable_psk then psk_error gw con else none)
    then_check fails (spec.vpn_gw == "" || spec.vpn_gw != gw.meta.name) "not belong to vpn gw"
    then_check fails (spec.auth == "") "should have auth"
    then_check fails (spec.ike_version == "") "should have ikeVersion"
    then_check fails (spec.ike_proposals == "") "should have proposals"
    then_check fails (spec.local_vip == "") "should have LocalVIP"
    then_check fails (spec.local_eip == "") "should have localEIP"
    then_check fails (spec.local_private_cidrs == "") "should have localPrivateCidrs"
    then_check fails (spec.remote_eip == "") "should have remoteEIP"
    then_check fails (spec.remote_private_cidrs == "") "should have remotePrivateCidrs"
    then_check (if spec.auth == "pubkey"
        then fails (spec.remote_cn == "" || spec.local_cn == "") "should have remoteCN, localCN"
        else none)
    then_check (if spec.auth == "psk"
        then (if gw.spec.workload_type == "static"
            then fails (spec.local_gateway != "" && spec.local_gateway_nic == "")
                "should have localGatewayNic"
            else none)
        else none)

-- The texts with a space between each two.
abbrev pub spaced : List String → String
spaced [] = ""
spaced (s ∷ []) = s
spaced (s ∷ t ∷ rest) = s <> (" " <> spaced (t ∷ rest))

-- What one connection adds to `connections`.
unfoldable pub render : VpnGw → IpsecConn → String
render gw con =
    let spec = con.spec in
    (if spec.auth == "pubkey"
      then spaced (
          con.meta.name ∷ spec.auth ∷ spec.ike_version ∷ spec.ike_proposals ∷ spec.local_cn
          ∷ spec.local_eip ∷ spec.local_private_cidrs ∷ spec.remote_cn ∷ spec.remote_eip
          ∷ spec.remote_private_cidrs ∷ [])
        <> ":"
      else "")
    <> (if spec.auth == "psk"
        then spaced (
            con.meta.name ∷ spec.auth ∷ spec.ike_version ∷ spec.ike_proposals ∷ spec.local_vip
            ∷ spec.local_eip ∷ spec.local_private_cidrs ∷ spec.remote_eip
            ∷ spec.remote_private_cidrs ∷ gw.spec.default_psk ∷ spec.esp_proposals ∷ [])
          <> (if spec.local_gateway != "" && spec.local_gateway_nic != ""
              then " " <> (spec.local_gateway <> (" " <> (spec.local_gateway_nic <> ":")))
              else ":")
        else "")

-- The connections, the state and the error.
abbrev pub Checked : Type 0
Checked = String × SyncState × Option String

abbrev pub refused : String → Checked
refused e = ("", SyncState.error, some e)

-- The loop over the connections, and the check after it.
unfoldable pub check_conns : VpnGw → List IpsecConn → String → Checked
unfolding render conn_error
check_conns gw [] connections =
    if connections == ""
    then refused (gw_error gw "should have connections")
    else (connections, SyncState.success, none)
check_conns gw (con ∷ conns) connections = elim (conn_error gw con) [
  | some e ↦ refused e
  | none ↦ check_conns gw conns (connections <> render gw con)
]

unfoldable pub validate_ipsec_conns : VpnGw → List IpsecConn → Checked
unfolding check_conns
validate_ipsec_conns gw conns =
    if gw.spec.ipsec_enable_psk && gw.spec.default_psk == ""
    then refused ("vpn gw " <> (gw.meta.name <> " should have one default psk"))
    else check_conns gw conns ""
