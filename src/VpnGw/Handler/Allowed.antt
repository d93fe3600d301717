-- ===== src/VpnGw/Handler/Allowed.antt =====
-- The reads of the gateway's handler, and the writes that a gateway's spec asks for.
use kube_combo.Prelude.{String, ◌≡◌, ◌≢◌, ◌⊎◌, true, Option, none, some, List, [], ◌∷◌, map, Slice}
use kube_combo.Prelude.{ret, ok, found, not_found, Keeps, IsPreorder, Returns}
use mathlib.Core.List.{Memᴰ}
use kube_combo.Prelude.Dict.{Dict}
use kube_combo.Api.Meta.{ObjectMeta, NamespacedName}
use kube_combo.Api.KeepAlived.{KeepAlived}
use kube_combo.Api.VpnGw.{VpnGw}
use kube_combo.Api.IpsecConn.{IpsecConn}
use kube_combo.Sync.{SyncState}
use kube_combo.Workload.Objects.{StatefulSet, DaemonSet}
use kube_combo.Workload.Builder.{Platform}
use kube_combo.VpnGw.Client.{Client, ListedPod}
use kube_combo.VpnGw.Validate.{IsDeployable}
use kube_combo.VpnGw.Status.{is_changed, needs_update, new_gw}
use kube_combo.VpnGw.Ipsec.{validate_ipsec_conns}
use kube_combo.VpnGw.Refresh.{refresh_command, pod_name}
use kube_combo.VpnGw.Build.Containers.{Config}
use kube_combo.VpnGw.Refresh.Names.{AreNames}
use kube_combo.VpnGw.Build.Selected.{pod_selector}
use kube_combo.VpnGw.Build.Stateful.{stateful_set_for_vpn_gw}
use kube_combo.VpnGw.Build.Daemon.{daemonset_for_vpn_gw}

-- The keepalived that a workload is built with: none if the gateway names none, else the one that
-- was read under the name that the gateway gives, in its namespace, which has an image, a virtual ip
-- and a router id.
abbrev pub IsReady : Client → VpnGw → Option KeepAlived → Type 0
IsReady c gw none = gw.spec.keepalived ≡ ""
IsReady c gw (some ka) =
    (gw.spec.keepalived ≢ "")
    × Returns
        (c.get_keepalived (record { namespace = gw.meta.namespace; name = gw.spec.keepalived }))
        (found ka)
    × (ka.spec.image ≢ "")
    × ((ka.spec.vip_v4 ≢ "") ⊎ (ka.spec.vip_v6 ≢ ""))
    × (ka.status.router_id ≢ 0)

-- What every workload write is made for: a gateway that was read under the key of the event and
-- that can be deployed, and its keepalived.
pub record IsAsked (c : Client) (req : NamespacedName) (gw : VpnGw) (ka : Option KeepAlived)
    : Type 0 where
  pub read : Returns (c.get_vpn_gw req) (found gw)
  pub deployable : IsDeployable gw.spec
  pub ready : IsReady c gw ka

-- What a command in a pod is run for: a gateway with IPSec that was read under the key of the event
-- and that can be deployed, the connections that the list for its name returned, which were accepted
-- with this text, and a pod that the list of its pods returned.
pub record IsRefresh (c : Client) (req : NamespacedName) (gw : VpnGw) (text pod : String)
    : Type 0 where
  pub read : Returns (c.get_vpn_gw req) (found gw)
  pub deployable : IsDeployable gw.spec
  pub enabled : gw.spec.enable_ipsec_vpn ≡ true
  pub cons : List IpsecConn
  pub listed : Returns (c.list_ipsec_conns (("vpn-gw", gw.meta.name) ∷ [])) (ok cons)
  pub state : SyncState
  pub accepted : validate_ipsec_conns gw cons ≡ (text, state, none)
  pub pods : List ListedPod
  pub pods_listed : Returns (c.list_pods req.namespace (pod_selector gw)) (ok pods)
  pub is_pod : Memᴰ pod (map pod_name pods)

-- A relation that holds of every read, and of those writes that the gateway of the event's key asks
-- for.
pub record Allows (p : Platform) (r : Config) (c : Client) (req : NamespacedName)
    (R : c.World → c.World → Type 0) : Type 0 where
  pub order : IsPreorder R
  pub get_vpn_gw : Keeps R (c.get_vpn_gw req)
  pub get_keepalived : (key : NamespacedName) → Keeps R (c.get_keepalived key)
  pub get_stateful_set : Keeps R (c.get_stateful_set req)
  pub get_daemonset : Keeps R (c.get_daemonset req)
  pub list_ipsec_conns : (labels : Dict) → Keeps R (c.list_ipsec_conns labels)
  pub list_pods : (labels : Dict) → Keeps R (c.list_pods req.namespace labels)
  pub create_stateful_set :
      (gw : VpnGw) (ka : Option KeepAlived) (e : String) (sts : Option StatefulSet)
      → IsAsked c req gw ka
      → gw.spec.workload_type ≡ "statefulset"
      → Returns (c.get_stateful_set req) (not_found e)
      → stateful_set_for_vpn_gw p r gw ka none ≡ ret sts
      → Keeps R (c.create_stateful_set sts)
  pub update_stateful_set :
      (gw : VpnGw) (ka : Option KeepAlived) (old : ObjectMeta) (sts : Option StatefulSet)
      → IsAsked c req gw ka
      → gw.spec.workload_type ≡ "statefulset"
      → Returns (c.get_stateful_set req) (found old)
      → is_changed gw none ≡ true
      → stateful_set_for_vpn_gw p r gw ka (some old) ≡ ret sts
      → Keeps R (c.update_stateful_set sts)
  pub create_daemonset :
      (gw : VpnGw) (ka : Option KeepAlived) (e : String) (ds : Option DaemonSet)
      → IsAsked c req gw ka
      → gw.spec.workload_type ≢ "statefulset"
      → Returns (c.get_daemonset req) (not_found e)
      → daemonset_for_vpn_gw p r gw ka none ≡ ret ds
      → Keeps R (c.create_daemonset ds)
  pub update_daemonset :
      (gw : VpnGw) (ka : Option KeepAlived) (old : ObjectMeta) (ds : Option DaemonSet)
      → IsAsked c req gw ka
      → gw.spec.workload_type ≢ "statefulset"
      → Returns (c.get_daemonset req) (found old)
      → is_changed gw none ≡ true
      → daemonset_for_vpn_gw p r gw ka (some old) ≡ ret ds
      → Keeps R (c.update_daemonset ds)
  pub exec :
      (gw : VpnGw) (text pod : String)
      → IsRefresh c req gw text pod
      → Keeps R (
          c.exec gw.meta.namespace pod "ipsec-vpn"
            ("/bin/bash" ∷ "-c" ∷ refresh_command gw text ∷ []))
  pub update_status :
      (gw : VpnGw) (names : Slice String)
      → (deployed : VpnGw) × Returns (c.get_vpn_gw req) (found deployed) × AreNames c deployed names
      → Returns (c.get_vpn_gw req) (found gw)
      → needs_update gw names ≡ true
      → Keeps R (c.update_status (new_gw gw names))
