-- ===== src/Api/Debugger.antt =====
-- `Debugger` (api/v1/debugger_types.go).
use kube_combo.Prelude.{String, Bool, Slice}
use kube_combo.Api.Meta.{ObjectMeta, Toleration, Affinity}

pub record DebuggerSpec : Type 0 where
  pub workload_type : String
  pub cpu : String
  pub memory : String
  pub qos_bandwidth : String
  pub subnet : String
  pub host_network : Bool
  pub image : String
  pub selector : Slice String
  pub tolerations : Slice Toleration
  pub affinity : Affinity
  pub node_name : String
  pub enable_pinger : Bool
  pub pinger : String
  pub enable_config_map : Bool
  pub enable_sys : Bool
  pub config_map : String
  pub run_at : String
  pub debugger_config : String

-- The conditions are left out: the controllers neither read nor write them.
pub record DebuggerStatus : Type 0 where
  pub workload_type : String
  pub cpu : String
  pub memory : String
  pub qos_bandwidth : String
  pub subnet : String
  pub host_network : Bool
  pub image : String
  pub selector : Slice String
  pub tolerations : Slice Toleration
  pub affinity : Affinity
  pub node_name : String
  pub enable_config_map : Bool
  pub config_map : String
  pub enable_pinger : Bool
  pub pinger : String
  pub enable_sys : Bool
  pub run_at : String
  pub debugger_config : String

pub record Debugger : Type 0 where
  pub meta : ObjectMeta
  pub spec : DebuggerSpec
  pub status : DebuggerStatus
