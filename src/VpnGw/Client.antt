-- ===== src/VpnGw/Client.antt =====
-- The calls that the gateway's reconciler makes of the API server, and of a pod's shell
-- (`ExecuteCommandInContainer`, internal/controller/pod_exec.go), over the state of the cluster.
use kube_combo.Prelude.{String, Option, List, Io, Result, Reply}
use kube_combo.Prelude.Dict.{Dict}
use kube_combo.Api.Meta.{ObjectMeta, NamespacedName}
use kube_combo.Api.KeepAlived.{KeepAlived}
use kube_combo.Api.VpnGw.{VpnGw}
use kube_combo.Api.IpsecConn.{IpsecConn}
use kube_combo.Workload.Objects.{StatefulSet, DaemonSet}

-- A listed pod: its name and `Status.Phase`.
pub record ListedPod : Type 0 where
  pub name : String
  pub phase : String

-- What a command in a container gave.
pub record ExecResult : Type 0 where
  pub std_output : String
  pub err_output : String
  pub error : Option String

-- Of a workload that exists only its metadata is read. What is written may be a nil object.
pub record Client : Type 1 where
  pub World : Type 0
  pub get_vpn_gw : NamespacedName → Io World (Reply VpnGw)
  pub get_keepalived : NamespacedName → Io World (Reply KeepAlived)
  pub get_stateful_set : NamespacedName → Io World (Reply ObjectMeta)
  pub create_stateful_set : Option StatefulSet → Io World (Option String)
  pub update_stateful_set : Option StatefulSet → Io World (Option String)
  pub get_daemonset : NamespacedName → Io World (Reply ObjectMeta)
  pub create_daemonset : Option DaemonSet → Io World (Option String)
  pub update_daemonset : Option DaemonSet → Io World (Option String)
  -- By label, in every namespace.
  pub list_ipsec_conns : Dict → Io World (Result (List IpsecConn))
  -- By namespace and label.
  pub list_pods : String → Dict → Io World (Result (List ListedPod))
  -- Namespace, pod, container and command.
  pub exec : String → String → String → List String → Io World ExecResult
  pub update_status : VpnGw → Io World (Option String)
