-- ===== src/Tests/Gateway.antt =====
-- The checks, the status and the connections of a gateway at concrete objects.
use kube_combo.Prelude.{String, ◌≡◌, refl, ◌↔◌, true, false, none, some, [], ◌∷◌, arith, ok}
use kube_combo.Prelude.{deep_equal, bool_eq, nat_eq, string_eq, option_eq, list_eq}
use kube_combo.Api.VpnGw.{VpnGw}
use kube_combo.Api.IpsecConn.{IpsecConn}
use kube_combo.Sync.{SyncState}
use kube_combo.Text.Decimal.{parse_int32, parse_magnitude, parse_digits}
use kube_combo.Webhook.IpsecConn.{validate_create, default}
use kube_combo.Webhook.Errors.{report, aggregate}
use kube_combo.VpnGw.Validate.{validate_vpn_gw, IsDeployable, validate_vpn_gw_iff}
use kube_combo.VpnGw.Status.{is_changed, new_gw}
use kube_combo.VpnGw.Status.Sync.{IsSynced, IsSettled, written, is_changed_iff, is_changed-written}
use kube_combo.VpnGw.Ipsec.{conn_error, validate_ipsec_conns}
use kube_combo.VpnGw.Ipsec.Accept.{AllUsable, validate_ipsec_conns_iff}
use kube_combo.VpnGw.Ipsec.Admitted.{IsComplete, admitted-conn_error}
use kube_combo.VpnGw.Port.{get_port_int32, get_port_int32_iff}
use kube_combo.Tests.Samples.{gateway, gw_spec, connection, conn_spec}

gw_accepted : validate_vpn_gw gw_spec ≡ none
unfolding validate_vpn_gw string_eq
gw_accepted = refl

pub deployable : IsDeployable gw_spec
deployable = (validate_vpn_gw_iff gw_spec).0 gw_accepted

validate_vpn_gw_iff_example : IsDeployable gw_spec
validate_vpn_gw_iff_example = (validate_vpn_gw_iff gw_spec).0 gw_accepted

synced : IsSynced gateway
synced = record {
  keepalived = λ e. refl;
  cpu = refl;
  memory = refl;
  qos_bandwidth = refl;
  replicas = refl;
  enable_ssl_vpn = refl;
  ssl_vpn_cipher = refl;
  ssl_vpn_proto = refl;
  ssl_vpn_subnet_cidr = refl;
  ssl_vpn_image = refl;
  enable_ipsec_vpn = refl;
  ipsec_vpn_image = refl;
  ipsec_connections = refl;
  selector = refl;
  tolerations = refl;
  affinity = refl;
}

pub settled : is_changed gateway none ≡ false
settled = (is_changed_iff gateway).1 synced

-- Another image, which no write brings into the status.
abbrev upgraded : VpnGw
upgraded = record gateway { spec = record gw_spec { ssl_vpn_image = "kubecombo/openvpn:v2" } }

stays_changed : is_changed (written upgraded none) none ≡ true
unfolding is_changed new_gw deep_equal string_eq nat_eq bool_eq
stays_changed = refl

is_changed-written_example : (is_changed (written upgraded none) none ≡ false) ↔ IsSettled upgraded
is_changed-written_example = is_changed-written upgraded none

abbrev rendered : String
rendered = "moon-sun pubkey 2 default moon 172.19.0.1 10.1.0.0/24 sun 172.19.0.2 10.2.0.0/24:"

checked : validate_ipsec_conns gateway (connection ∷ []) ≡ (rendered, SyncState.success, none)
unfolding validate_ipsec_conns string_eq
checked = refl

validate_ipsec_conns_iff_example : AllUsable gateway (connection ∷ [])
validate_ipsec_conns_iff_example =
    ((validate_ipsec_conns_iff gateway (connection ∷ []) rendered SyncState.success).0 checked).1

-- A connection of another gateway.
abbrev stray : IpsecConn
stray = record connection { spec = record conn_spec { vpn_gw = "other" } }

abbrev stray_error : String
stray_error = "vpn gw gw ipsec connection moon-sun not belong to vpn gw"

stray_refused : validate_ipsec_conns gateway (stray ∷ []) ≡ ("", SyncState.error, some stray_error)
unfolding validate_ipsec_conns string_eq
stray_refused = refl

conn_created : validate_create (default connection) ≡ none
unfolding validate_create default report aggregate string_eq
conn_created = refl

conn_usable : conn_error gateway (default connection) ≡ none
unfolding conn_error default string_eq
conn_usable = refl

admitted-conn_error_example : IsComplete gateway (default connection).spec
admitted-conn_error_example = (admitted-conn_error gateway connection conn_created).0 conn_usable

parsed : parse_int32 "1194" ≡ some (false, 1194)
unfolding parse_int32 parse_magnitude parse_digits nat_eq
parsed = refl

get_port_int32_iff_example : get_port_int32 "1194" ≡ ok 1194
get_port_int32_iff_example = (get_port_int32_iff "1194" 1194).1 (parsed, omega arith, omega arith)
