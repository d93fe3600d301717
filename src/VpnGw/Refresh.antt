-- ===== src/VpnGw/Refresh.antt =====
-- The refresh of the IPSec connections in the gateway's pods: `getIpsecConnections`,
-- `getVpnGwPodNames` and the block of `handleAddOrUpdateVpnGw` under `EnableIPSecVpn`.
pub mod Pods
pub mod Names
use kube_combo.Prelude.{String, ◌<>◌, ◌||◌, Option, none, some, List, [], ◌∷◌, map, if◌then◌else◌}
use kube_combo.Prelude.{◌!=◌, Slice, Io, ◌>>=◌, ◌>>◌, pure, Result, ok, err, bool_eq, nat_eq}
use kube_combo.Prelude.{string_eq, option_eq, list_eq}
use kube_combo.Api.Meta.{NamespacedName}
use kube_combo.Api.VpnGw.{VpnGw}
use kube_combo.Api.IpsecConn.{IpsecConn}
use kube_combo.Sync.{SyncState}
use kube_combo.VpnGw.Client.{Client, ListedPod, ExecResult}
use kube_combo.VpnGw.Ipsec.{Checked, spaced, validate_ipsec_conns}
use kube_combo.VpnGw.Build.Selected.{pod_selector}

abbrev pub pod_name : ListedPod → String
pod_name p = p.name

-- The names of the pods that do not run.
unfoldable pub bad_pod_names : List ListedPod → List String
bad_pod_names [] = []
bad_pod_names (p ∷ ps) =
    if p.phase != "Running" then p.name ∷ bad_pod_names ps else bad_pod_names ps

abbrev pub names_or_error : VpnGw → List String → List String → List String × Option String
names_or_error gw [] bad = ([], some ("gw " <> (gw.meta.name <> " has no running pod")))
names_or_error gw (n ∷ ns) [] = (n ∷ ns, none)
names_or_error gw (n ∷ ns) (b ∷ bs) =
    (n ∷ ns, some ("pod [" <> (spaced (b ∷ bs) <> "] is not running now")))

-- The names of all listed pods, and an error if there are none or one does not run.
unfoldable pub pod_names : VpnGw → Result (List ListedPod) → List String × Option String
unfolding bad_pod_names
pod_names gw (err e) = ([], some e)
pod_names gw (ok pods) = names_or_error gw (map pod_name pods) (bad_pod_names pods)

-- The error of a command that failed: one text replaces it if either output is not empty.
unfoldable pub exec_error : ExecResult → Option String
exec_error out = elim out.error [
  | none ↦ none
  | some e ↦
      if out.err_output != "" || out.std_output != ""
      then some ("failed to ExecuteCommandInContainer, errOutput: " <> out.err_output)
      else some e
]

unfoldable pub refresh_command : VpnGw → String → String
refresh_command gw connections =
    if gw.spec.ipsec_enable_psk
    then "/connection.sh refresh-psk " <> connections
    else "/connection.sh refresh-x509 " <> connections

-- The block ends the handler with a state and an error, or gives the names of the connections.
pub data Refreshed : Type 0 where
  stopped : SyncState → Option String → Refreshed
  conns : Slice String → Refreshed

abbrev pub conn_name : IpsecConn → String
conn_name con = con.meta.name

module _ (c : Client) where
  open c use {World, list_ipsec_conns, list_pods, exec}

  -- The rest, unless there is an error.
  abbrev pub unless_failed : Option String → Io World (Option String) → Io World (Option String)
  unless_failed (some e) rest = pure (some e)
  unless_failed none rest = rest

  -- The command in each pod in turn, until one fails.
  unfoldable pub refresh_pods : VpnGw → String → List String → Io World (Option String)
  unfolding exec_error
  refresh_pods gw cmd [] = pure none
  refresh_pods gw cmd (pod ∷ pods) = do
    out ← exec gw.meta.namespace pod "ipsec-vpn" ("/bin/bash" ∷ "-c" ∷ cmd ∷ [])
    unless_failed (exec_error out) (refresh_pods gw cmd pods)

  abbrev pub after_refresh : List IpsecConn → Option String → Option String → Refreshed
  after_refresh res (some e) not_running = stopped SyncState.error (some e)
  after_refresh res none (some e) = stopped SyncState.error (some e)
  after_refresh res none none = conns (some (map conn_name res))

  unfoldable pub refresh_checked :
      NamespacedName → VpnGw → List IpsecConn → Checked → Io World Refreshed
  unfolding refresh_pods pod_names
  refresh_checked req gw res (_, state, some e) = pure (stopped state (some e))
  refresh_checked req gw res (connections, _, none) = do
    pods ← list_pods req.namespace (pod_selector gw)
    let names = pod_names gw pods
    e ← refresh_pods gw (refresh_command gw connections) names.0
    pure (after_refresh res e names.1)

  unfoldable pub refresh_listed :
      NamespacedName → VpnGw → Result (List IpsecConn) → Io World Refreshed
  unfolding refresh_checked
  refresh_listed req gw (err e) = pure (stopped SyncState.error (some e))
  refresh_listed req gw (ok []) =
      pure (
        stopped SyncState.error (some ("vpn gw " <> (gw.meta.name <> " has no ipsec connections"))))
  refresh_listed req gw (ok (con ∷ cons)) =
      refresh_checked req gw (con ∷ cons) (validate_ipsec_conns gw (con ∷ cons))

  -- Without IPSec there is nothing to refresh, and the slice of names stays nil.
  unfoldable pub refresh : NamespacedName → VpnGw → Io World Refreshed
  unfolding refresh_listed
  refresh req gw =
      if gw.spec.enable_ipsec_vpn
      then (do res ← list_ipsec_conns (("vpn-gw", gw.meta.name) ∷ []); refresh_listed req gw res)
      else pure (conns none)
