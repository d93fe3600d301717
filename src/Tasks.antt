-- ===== src/Tasks.antt =====
-- The program that runs a node's detection tasks (internal/debugger).
pub mod Config
pub mod Run
pub mod Kept
pub mod Closing
pub mod Reported
pub mod Performed
pub mod Sent
pub mod Count
use kube_combo.Prelude.{ℕ, ◌+◌, String, Bool, true, false, Option, none, some, List, [], ◌∷◌}
use kube_combo.Prelude.{if◌then◌else◌, bool_eq, nat_eq, string_eq, option_eq, list_eq}
use kube_combo.Prelude.Dict
use kube_combo.Prelude.Dict.{Dict}

pub record Task : Type 0 where
  pub script : String
  pub args : String

-- The scripts of `TaskMap`; the arguments of every task are empty.
abbrev pub scripts : Dict
scripts =
    ("RAID_CARD_STATUS", "/runAt/raid/check_raid.sh")
    ∷ ("CPU_MODEL", "/runAt/cpu/CPU_Detection.sh")
    ∷ ("CPU_USAGE_RATE", "/runAt/cpu/CPU_Detection.sh")
    ∷ ("CPU_TEMPERATURE", "/runAt/cpu/CPU_Detection.sh")
    ∷ ("CPU_LOAD", "/runAt/cpu/CPU_Detection.sh")
    ∷ ("NETWORK_PORT_PACKET_LOSS", "/runAt/network-card/network-port-packet-loss-detection.sh")
    ∷ (
      "NETWORK_PORT_CONNECTION_MODE",
      "/runAt/network-card/network-port-connection-mode-detection.sh",
    )
    ∷ ("FULL_DUPLEX_MODE", "/runAt/network-card/full-duplex-mode-detection.sh")
    ∷ ("NETWORK_PORT_SPEED", "/runAt/network-card/network-port-speed-detection.sh")
    ∷ ("NETWORK_CARD_CONFLICT", "/runAt/network-card/network-card-conflict-detection.sh")
    ∷ (
      "UNPLUGGED_AND_DISCONNECTION", "/runAt/network-card/unplugged-and-disconnection-detection.sh",
    )
    ∷ ("MEMORY_FREQUENCY", "/runAt/memory/memory_frequency.sh")
    ∷ ("MEMORY_MANUFACTURER", "/runAt/memory/memory_looseness.sh")
    ∷ ("MEMORY_READ_WRITE_PERFORMANCE", "/runAt/memory/memory_rw_perf.sh")
    ∷ ("MEMORY_SIZE_ANOMALY", "/runAt/memory/memory_size.sh")
    ∷ ("MEMORY_USAGE_RATE", "/runAt/memory/memory_usage.sh")
    ∷ ("DISK_STATUS", "/runAt/basic-disk-function/disk_status.sh")
    ∷ ("DISK_BUSYNESS", "/runAt/basic-disk-function/disk_busy.sh")
    ∷ ("SSD_INTERFACE_MODE", "/runAt/basic-disk-function/disk_ssd_interface_mode.sh")
    ∷ ("DISK_PERFORMANCE", "/runAt/basic-disk-function/disk_performance.sh")
    ∷ ("DISK_USAGE", "/runAt/system-partition/system-partition.sh")
    ∷ ("OFFLINE_CONTROL_NODE", "/runAt/control-node-status/check_node_status.sh")
    ∷ ("CONTROL_NODE_BASIC_COMPONENT", "/runAt/control-node-status/check_base_components.sh")
    ∷ (
      "CLUSTER_TIME_SYNCHRONIZATION_SERVICE",
      "/runAt/control-node-status/check_time_synchronization.sh",
    )
    ∷ ("CONTROL_NODE_MANAGEMENT_SERVICE", "/runAt/control-node-status/check_management_services.sh")
    ∷ (
      "STORAGE_COMMUNICATION_NETWORK_PORT_CONNECTIVITY",
      "/runAt/network-configuration/storage-communication-network-port-connectivity.sh",
    )
    ∷ (
      "LINK_AGGREGATION_CONNECTIVITY",
      "/runAt/network-configuration/link-aggregation-connectivity.sh",
    )
    ∷ ("LATENCY", "/runAt/network-configuration/latency-detection.sh")
    ∷ ("IP_CONFLICT", "/runAt/network-configuration/ip-conflict-detection.sh")
    ∷ ("NEGOTIATED_RATE", "/runAt/network-configuration/negotiated-rate.sh")
    ∷ ("MTU_CONSISTENCY", "/runAt/network-configuration/mtu-consistency.sh")
    ∷ (
      "NETWORK_PORT_AGGREGATION_MODE_CONSISTENCY",
      "/runAt/network-configuration/network-port-aggregation-mode-consistency-detection.sh",
    )
    ∷ []

abbrev task_of : Option String → Option Task
task_of none = none
task_of (some script) = some (record { script = script; args = "" })

-- `TaskMap[name]`
unfoldable pub find_task : String → Option Task
find_task name = task_of (Dict.lookup name scripts)

-- The tasks by category, in the order in which the map is iterated, which Go leaves open.
abbrev pub Tasks : Type 0
Tasks = List (String × List String)

pub record Detection : Type 0 where
  pub timestamp : String
  pub tasks : Tasks

abbrev pub is_valid : String → Bool
is_valid name = elim (find_task name) [ none ↦ false | some task ↦ true ]

unfoldable pub count_names : List String → ℕ
count_names [] = 0
count_names (name ∷ names) =
    let rest = count_names names in if is_valid name then 1 + rest else rest

-- `CountValidTasks`
unfoldable pub count_valid_tasks : Tasks → ℕ
unfolding count_names
count_valid_tasks [] = 0
count_valid_tasks ((category, names) ∷ tasks) = count_names names + count_valid_tasks tasks
