-- ===== src/VpnGw/Handler.antt =====
-- `handleAddOrUpdateVpnStatefulset`, `handleAddOrUpdateVpnDaemonset`, `handleAddOrUpdateVpnGw`,
-- `UpdateVpnGW` and `Reconcile`. Logging and the waits before a return are left out.
pub mod Allowed
pub mod Commanded
pub mod Guarded
pub mod Settled
use kube_combo.Prelude.{String, Option, none, some, if◌then◌else◌, ◌==◌, ◌!=◌, Slice, Io, ◌>>=◌}
use kube_combo.Prelude.{◌>>◌, pure, lift, Result, ok, err, Reply, found, not_found, failed, bool_eq}
use kube_combo.Prelude.{nat_eq, string_eq, option_eq, list_eq}
use kube_combo.Api.Meta.{ObjectMeta, NamespacedName}
use kube_combo.Api.KeepAlived.{KeepAlived}
use kube_combo.Api.VpnGw.{VpnGw}
use kube_combo.Sync.{SyncState, Stats, Answer, conclude}
use kube_combo.Workload.Builder.{Platform}
use kube_combo.VpnGw.Client.{Client}
use kube_combo.VpnGw.Validate.{validate_vpn_gw, validate_keepalived}
use kube_combo.VpnGw.Status.{is_changed, needs_update, new_gw}
use kube_combo.VpnGw.Refresh.{Refreshed, stopped, conns, refresh}
use kube_combo.VpnGw.Build.Containers.{Config}
use kube_combo.VpnGw.Build.Stateful.{stateful_set_for_vpn_gw}
use kube_combo.VpnGw.Build.Daemon.{daemonset_for_vpn_gw}

abbrev pub Outcome : Type 0
Outcome = SyncState × Option String

-- `getVpnGw`: a missing object is no error.
unfoldable pub fetched_vpn_gw : Reply VpnGw → Result (Option VpnGw)
fetched_vpn_gw (found gw) = ok (some gw)
fetched_vpn_gw (not_found e) = ok none
fetched_vpn_gw (failed e) = err e

-- `getKeepalived`: a missing object is an error.
unfoldable pub fetched_keepalived : Reply KeepAlived → Result KeepAlived
fetched_keepalived (found ka) = ok ka
fetched_keepalived (not_found e) = err e
fetched_keepalived (failed e) = err e

abbrev pub keepalived_key : VpnGw → NamespacedName
keepalived_key gw = record { namespace = gw.meta.namespace; name = gw.spec.keepalived }

module _ (p : Platform) (r : Config) (c : Client) where
  open c use {
    World, get_vpn_gw, get_keepalived, get_stateful_set, create_stateful_set, update_stateful_set,
    get_daemonset, create_daemonset, update_daemonset, update_status,
  }

  unfoldable pub apply_stateful_set :
      VpnGw → Option KeepAlived → Reply ObjectMeta → Io World (Option String)
  apply_stateful_set gw ka (failed e) = pure (some e)
  apply_stateful_set gw ka (not_found e) = do
    sts ← lift (stateful_set_for_vpn_gw p r gw ka none)
    create_stateful_set sts
  apply_stateful_set gw ka (found old) =
      if is_changed gw none
      then (do sts ← lift (stateful_set_for_vpn_gw p r gw ka (some old)); update_stateful_set sts)
      else pure none

  unfoldable pub apply_daemonset :
      VpnGw → Option KeepAlived → Reply ObjectMeta → Io World (Option String)
  apply_daemonset gw ka (failed e) = pure (some e)
  apply_daemonset gw ka (not_found e) = do
    ds ← lift (daemonset_for_vpn_gw p r gw ka none)
    create_daemonset ds
  apply_daemonset gw ka (found old) =
      if is_changed gw none
      then (do ds ← lift (daemonset_for_vpn_gw p r gw ka (some old)); update_daemonset ds)
      else pure none

  -- A StatefulSet or else a DaemonSet, as the workload type says.
  unfoldable pub handle_workload :
      NamespacedName → VpnGw → Option KeepAlived → Io World (Option String)
  handle_workload req gw ka =
      if gw.spec.workload_type == "statefulset"
      then (do old ← get_stateful_set req; apply_stateful_set gw ka old)
      else do old ← get_daemonset req; apply_daemonset gw ka old

  -- `UpdateVpnGW`, after its own read of the gateway.
  unfoldable pub write_status : Slice String → Result (Option VpnGw) → Io World (Option String)
  write_status names (err e) = pure (some e)
  write_status names (ok none) = pure none
  write_status names (ok (some gw)) =
      if needs_update gw names then update_status (new_gw gw names) else pure none

  unfoldable pub update_vpn_gw : NamespacedName → Slice String → Io World (Option String)
  update_vpn_gw req names = do reply ← get_vpn_gw req; write_status names (fetched_vpn_gw reply)

  abbrev pub retry_on : Option String → Outcome
  retry_on none = (SyncState.success, none)
  retry_on (some e) = (SyncState.error, some e)

  unfoldable pub finish : NamespacedName → Refreshed → Io World Outcome
  finish req (stopped state e) = pure (state, e)
  finish req (conns names) = do e ← update_vpn_gw req names; pure (retry_on e)

  -- From the workload on.
  unfoldable pub after_workload : NamespacedName → VpnGw → Option String → Io World Outcome
  after_workload req gw (some e) = pure (SyncState.error, some e)
  after_workload req gw none = do refreshed ← refresh c req gw; finish req refreshed

  unfoldable pub deploy : NamespacedName → VpnGw → Option KeepAlived → Io World Outcome
  deploy req gw ka = do e ← handle_workload req gw ka; after_workload req gw e

  -- An invalid spec is not tried again.
  abbrev pub unless_invalid : Option String → Io World Outcome → Io World Outcome
  unless_invalid (some e) rest = pure (SyncState.error_no_retry, some e)
  unless_invalid none rest = rest

  -- A keepalived without a router id is waited for; the error that is returned then is nil.
  unfoldable pub deploy_with : NamespacedName → VpnGw → Result KeepAlived → Io World Outcome
  deploy_with req gw (err e) = pure (SyncState.error, some e)
  deploy_with req gw (ok ka) =
      unless_invalid (validate_keepalived ka.spec)
        (if ka.status.router_id == 0 then pure (SyncState.error, none) else deploy req gw (some ka))

  unfoldable pub handle_valid : NamespacedName → VpnGw → Io World Outcome
  handle_valid req gw =
      if gw.spec.keepalived != ""
      then (do
        reply ← get_keepalived (keepalived_key gw)
        deploy_with req gw (fetched_keepalived reply))
      else deploy req gw none

  unfoldable pub handle_fetched : NamespacedName → Result (Option VpnGw) → Io World Outcome
  handle_fetched req (err e) = pure (SyncState.error_no_retry, some e)
  handle_fetched req (ok none) = pure (SyncState.success, none)
  handle_fetched req (ok (some gw)) = unless_invalid (validate_vpn_gw gw.spec) (handle_valid req gw)

  unfoldable pub handle_add_or_update : NamespacedName → Io World Outcome
  handle_add_or_update req = do reply ← get_vpn_gw req; handle_fetched req (fetched_vpn_gw reply)

  unfoldable pub reconcile : NamespacedName → Stats → Io World (Answer × Stats)
  reconcile req stats = do res ← handle_add_or_update req; pure (conclude 3 res.0 stats)
