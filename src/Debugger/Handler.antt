-- ===== src/Debugger/Handler.antt =====
-- `checkConfigMapWithState`, `handleAddOrUpdatePod`, `handleAddOrUpdateDaemonset`,
-- `handleAddOrUpdateDebugger`, `UpdateDebugger` and `Reconcile`. Logging and the waits before a
-- return are left out.
pub mod Allowed
pub mod Mapped
pub mod Guarded
pub mod Settled
pub mod Landed
pub mod Converged
use kube_combo.Prelude.{String, ◌<>◌, Bool, not, ◌&&◌, Option, none, some, if◌then◌else◌, ◌==◌}
use kube_combo.Prelude.{◌!=◌, Io, ◌>>=◌, ◌>>◌, pure, lift, Result, ok, err, Reply, found, not_found}
use kube_combo.Prelude.{failed, bool_eq, nat_eq, string_eq, option_eq, list_eq}
use kube_combo.Prelude.Dict.{Dict}
use kube_combo.Api.Meta.{ObjectMeta, NamespacedName}
use kube_combo.Api.Debugger.{Debugger}
use kube_combo.Api.Pinger.{Pinger}
use kube_combo.Sync.{SyncState, Stats, Answer, conclude}
use kube_combo.Workload.Objects.{Pod, DaemonSet}
use kube_combo.Workload.Builder.{Platform}
use kube_combo.Debugger.Validate.{validate_debugger, validate_pinger}
use kube_combo.Debugger.Status.{is_changed, needs_update, new_debugger}
use kube_combo.Debugger.Volumes.{get_volumes_mounts}
use kube_combo.Debugger.Build.{get_debugger_pod, get_debugger_daemonset}

-- The calls of the API server, over the state of the cluster. A config map is its `Data`, which
-- may be a nil map. Of a workload that exists only its metadata is read, and what is written may be
-- a nil object.
pub record Client : Type 1 where
  pub World : Type 0
  pub get_debugger : NamespacedName → Io World (Reply Debugger)
  pub get_pinger : NamespacedName → Io World (Reply Pinger)
  pub get_config_map : String → String → Io World (Result (Option Dict))
  pub get_pod : NamespacedName → Io World (Reply ObjectMeta)
  pub create_pod : Option Pod → Io World (Option String)
  pub update_pod : Option Pod → Io World (Option String)
  pub get_daemonset : NamespacedName → Io World (Reply ObjectMeta)
  pub create_daemonset : Option DaemonSet → Io World (Option String)
  pub update_daemonset : Option DaemonSet → Io World (Option String)
  pub update_status : Debugger → Io World (Option String)

abbrev pub Outcome : Type 0
Outcome = SyncState × Option String

-- `getDebugger`: a missing object is no error.
unfoldable pub fetched_debugger : Reply Debugger → Result (Option Debugger)
fetched_debugger (found d) = ok (some d)
fetched_debugger (not_found e) = ok none
fetched_debugger (failed e) = err e

-- `getPinger`: a missing object is an error.
unfoldable pub fetched_pinger : Reply Pinger → Result Pinger
fetched_pinger (found p) = ok p
fetched_pinger (not_found e) = err e
fetched_pinger (failed e) = err e

abbrev pub pinger_key : Debugger → NamespacedName
pinger_key d = record { namespace = d.meta.namespace; name = d.spec.pinger }

-- The outcome of a config map that cannot be used.
unfoldable pub config_map_error : String → Result (Option Dict) → Option Outcome
config_map_error name (err e) = some (SyncState.error, some e)
config_map_error name (ok none) =
    some (SyncState.error_no_retry, some ("config map " <> (name <> " is empty")))
config_map_error name (ok (some entries)) = none

module _ (p : Platform) (c : Client) where
  open c use {
    World, get_debugger, get_pinger, get_config_map, get_pod, create_pod, update_pod, get_daemonset,
    create_daemonset, update_daemonset, update_status,
  }

  unfoldable pub apply_pod : Debugger → Option Pinger → Reply ObjectMeta → Io World (Option String)
  apply_pod d pinger (failed e) = pure (some e)
  apply_pod d pinger (not_found e) = do
    mounted ← get_volumes_mounts get_config_map d
    pod ← lift (get_debugger_pod p d pinger none mounted)
    create_pod pod
  apply_pod d pinger (found old) =
      if is_changed d
      then (do
        mounted ← get_volumes_mounts get_config_map d
        pod ← lift (get_debugger_pod p d pinger (some old) mounted)
        update_pod pod)
      else pure none

  unfoldable pub apply_daemonset :
      Debugger → Option Pinger → Reply ObjectMeta → Io World (Option String)
  apply_daemonset d pinger (failed e) = pure (some e)
  apply_daemonset d pinger (not_found e) = do
    mounted ← get_volumes_mounts get_config_map d
    ds ← lift (get_debugger_daemonset p d pinger none mounted)
    create_daemonset ds
  apply_daemonset d pinger (found old) =
      if is_changed d
      then (do
        mounted ← get_volumes_mounts get_config_map d
        ds ← lift (get_debugger_daemonset p d pinger (some old) mounted)
        update_daemonset ds)
      else pure none

  unfoldable pub handle_workload :
      NamespacedName → Debugger → Option Pinger → Io World (Option String)
  handle_workload req d pinger =
      if d.spec.workload_type == "pod"
      then (do old ← get_pod req; apply_pod d pinger old)
      else (do old ← get_daemonset req; apply_daemonset d pinger old)

  unfoldable pub write_status : Result (Option Debugger) → Io World (Option String)
  write_status (err e) = pure (some e)
  write_status (ok none) = pure none
  write_status (ok (some d)) = if needs_update d then update_status (new_debugger d) else pure none

  unfoldable pub update_debugger : NamespacedName → Io World (Option String)
  update_debugger req = do reply ← get_debugger req; write_status (fetched_debugger reply)

  abbrev pub retry_on : Option String → Outcome
  retry_on none = (SyncState.success, none)
  retry_on (some e) = (SyncState.error, some e)

  unfoldable pub after_workload : NamespacedName → Option String → Io World Outcome
  after_workload req (some e) = pure (SyncState.error, some e)
  after_workload req none = do e ← update_debugger req; pure (retry_on e)

  -- A debugger that counts as unchanged is left alone, whether or not it has its workload.
  unfoldable pub deploy : NamespacedName → Debugger → Option Pinger → Io World Outcome
  deploy req d pinger =
      if not (is_changed d)
      then pure (SyncState.success, none)
      else (do e ← handle_workload req d pinger; after_workload req e)

  abbrev pub unless_invalid : Option String → Io World Outcome → Io World Outcome
  unless_invalid (some e) rest = pure (SyncState.error_no_retry, some e)
  unless_invalid none rest = rest

  unfoldable pub deploy_with : NamespacedName → Debugger → Result Pinger → Io World Outcome
  deploy_with req d (err e) = pure (SyncState.error, some e)
  deploy_with req d (ok pinger) =
      unless_invalid (validate_pinger pinger d.spec.enable_pinger) (deploy req d (some pinger))

  unfoldable pub handle_pinger : NamespacedName → Debugger → Io World Outcome
  handle_pinger req d =
      if d.spec.pinger != ""
      then (do reply ← get_pinger (pinger_key d); deploy_with req d (fetched_pinger reply))
      else deploy req d none

  abbrev pub unless_stopped : Option Outcome → Io World Outcome → Io World Outcome
  unless_stopped (some o) rest = pure o
  unless_stopped none rest = rest

  -- The rest, if a config map that is needed can be read and has data.
  unfoldable pub with_config_map : Bool → String → String → Io World Outcome → Io World Outcome
  with_config_map needed ns name rest =
      if needed
      then (do cm ← get_config_map ns name; unless_stopped (config_map_error name cm) rest)
      else rest

  unfoldable pub handle_valid : NamespacedName → Debugger → Io World Outcome
  handle_valid req d =
      with_config_map (d.spec.enable_config_map && d.spec.config_map != "") d.meta.namespace
        d.spec.config_map
        (with_config_map (d.spec.run_at != "") d.meta.namespace d.spec.run_at (
          with_config_map (d.spec.debugger_config != "") d.meta.namespace d.spec.debugger_config
            (handle_pinger req d)))

  unfoldable pub handle_fetched : NamespacedName → Result (Option Debugger) → Io World Outcome
  handle_fetched req (err e) = pure (SyncState.error_no_retry, some e)
  handle_fetched req (ok none) = pure (SyncState.success, none)
  handle_fetched req (ok (some d)) = unless_invalid (validate_debugger d) (handle_valid req d)

  unfoldable pub handle_add_or_update : NamespacedName → Io World Outcome
  handle_add_or_update req = do
    reply ← get_debugger req
    handle_fetched req (fetched_debugger reply)

  unfoldable pub reconcile : NamespacedName → Stats → Io World (Answer × Stats)
  reconcile req stats = do res ← handle_add_or_update req; pure (conclude 3 res.0 stats)
