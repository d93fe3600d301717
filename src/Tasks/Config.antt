-- ===== src/Tasks/Config.antt =====
-- `ParseFlags` after the flags are parsed, and `getScriptEnv`.
use kube_combo.Prelude.{String, Bool, [], if◌then◌else◌, ◌==◌, ◌!=◌, bool_eq, nat_eq, string_eq}
use kube_combo.Prelude.{option_eq, list_eq}
use kube_combo.Prelude.Dict
use kube_combo.Prelude.Dict.{Dict}
use kube_combo.Util.{build_url}
use kube_combo.Tasks.{Detection}

pub record Configuration : Type 0 where
  pub task_file : String
  pub task_file_path : String
  pub script_file_path : String
  pub log_perm : String
  pub node_name : String
  pub log_level : String
  pub log_flag : String
  pub log_file : String
  pub eis_service_address : String
  pub eis_service_port : String
  pub register : String
  pub report : String
  pub terminate : String

-- The values of the four flags.
pub record Flags : Type 0 where
  pub task : String
  pub task_dir : String
  pub script_dir : String
  pub log_perm : String

-- A variable of the environment, or a default if it is empty.
abbrev or_default : String → String → String
or_default value default = if value == "" then default else value

unfoldable pub configuration : Flags → (String → String) → Configuration
configuration flags getenv = record {
  task_file = flags.task;
  task_file_path = flags.task_dir;
  script_file_path = flags.script_dir;
  log_perm = flags.log_perm;
  node_name = getenv "NODE_NAME";
  log_level = or_default (getenv "LOG_LEVEL") "info";
  log_flag = if getenv "LOG_FLAG" == "true" then "true" else "false";
  log_file = or_default (getenv "LOG_FILE") "/var/log/debugger.log";
  eis_service_address = or_default (getenv "EIS_API_SVC") "http://eis.eis.svc.cluster.local";
  eis_service_port = or_default (getenv "EIS_API_PORT") "8361";
  register = or_default (getenv "REGISTER") "/v1/clusters/detection/register";
  report = or_default (getenv "REPORT") "/v1/clusters/detection/report";
  terminate = or_default (getenv "TERMINATE") "/v1/clusters/detection/terminate";
}

abbrev add_if : Bool → String → String → Dict → Dict
add_if b key value env = if b then Dict.insert key value env else env

-- `getScriptEnv`: the variables that are set.
unfoldable pub get_script_env : Configuration → Detection → Dict
unfolding build_url
get_script_env config detection =
    add_if (config.eis_service_address != "") "EIS_POST_URL"
      (build_url config.eis_service_address config.eis_service_port config.report)
      (add_if (config.log_file != "") "LOG_FILE" config.log_file (
        add_if (config.log_flag != "") "LOG_FLAG" config.log_flag (
          add_if (config.log_level != "") "LOG_LEVEL" config.log_level (
            add_if (config.node_name != "") "NodeName" config.node_name
              (add_if (detection.timestamp != "") "Timestamp" detection.timestamp [])))))
