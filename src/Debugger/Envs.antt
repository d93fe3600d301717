-- ===== src/Debugger/Envs.antt =====
-- `getEnvs`
use kube_combo.Prelude.{String, not, Option, none, some, List, [], ◌∷◌, ◌++◌, map, if◌then◌else◌}
use kube_combo.Prelude.{◌==◌, ◌!=◌, format_bool, bool_eq, nat_eq, string_eq, option_eq, list_eq}
use kube_combo.Api.Debugger.{Debugger}
use kube_combo.Api.Pinger.{Pinger}
use kube_combo.Workload.Objects.{EnvVar, EnvValue, plain}

abbrev field_env : String → String → EnvVar
field_env name path = record { name = name; source = EnvValue.field_ref path }

-- A key of the config map, under its own name.
abbrev key_env : String → String → EnvVar
key_env config_map key = record { name = key; source = EnvValue.config_map_key config_map key }

unfoldable pub base_envs : Debugger → List EnvVar
base_envs d =
    field_env "POD_NAME" "metadata.name"
    ∷ field_env "POD_NAMESPACE" "metadata.namespace"
    ∷ field_env "NODE_NAME" "spec.nodeName"
    ∷ field_env "POD_IP" "status.podIP"
    ∷ field_env "HOST_IP" "status.hostIP"
    ∷ plain "HOST_NETWORK" (format_bool d.spec.host_network)
    ∷ plain "HOST_CHECK_LIST" (format_bool d.spec.enable_sys)
    ∷ plain "DS_NAME" (if d.spec.workload_type == "daemonset" then d.meta.name else "")
    ∷ plain "SUBNET" (if not d.spec.host_network then d.spec.subnet else "")
    ∷ []

unfoldable pub pinger_envs : Option Pinger → List EnvVar
pinger_envs none = []
pinger_envs (some p) =
    plain "ENABLE_METRICS" (format_bool p.spec.enable_metrics)
    ∷ plain "PING" p.spec.ping
    ∷ plain "TCP_PING" p.spec.tcp_ping
    ∷ plain "UDP_PING" p.spec.udp_ping
    ∷ plain "DNS" p.spec.dns
    ∷ []

unfoldable pub config_envs : String → List EnvVar
config_envs config =
    if config != ""
    then map (key_env config) (
        "LOG_LEVEL" ∷ "LOG_FILE" ∷ "LOG_FLAG" ∷ "EIS_API_PORT" ∷ "EIS_API_SVC" ∷ "REGISTER"
        ∷ "REPORT" ∷ "TERMINATE" ∷ [])
    else []

unfoldable pub get_envs : Debugger → Option Pinger → List EnvVar
unfolding base_envs pinger_envs config_envs
get_envs d p = (base_envs d ++ pinger_envs p) ++ config_envs d.spec.debugger_config
