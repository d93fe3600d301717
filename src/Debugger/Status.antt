-- ===== src/Debugger/Status.antt =====
-- `isChanged` and the body of `UpdateDebugger`.
use kube_combo.Prelude.{String, ◌≡◌, sym, Bool, false, not, ◌||◌, arith, if◌then◌else◌, ◌!=◌, Slice}
use kube_combo.Prelude.{subst, deep_equal, deep_equal_iff, copied, copied_deep, bool_eq, nat_eq}
use kube_combo.Prelude.{string_eq, option_eq, list_eq}
use kube_combo.Api.Meta.{affinity_eq}
use kube_combo.Api.Debugger.{Debugger, DebuggerStatus}

-- The comparisons in the order of `isChanged`.
unfoldable pub is_changed : Debugger → Bool
is_changed d =
    let spec = d.spec in
    let status = d.status in
    spec.cpu != status.cpu
    || (spec.memory != status.memory
        || (spec.image != status.image
            || (spec.qos_bandwidth != status.qos_bandwidth
                || (spec.workload_type != status.workload_type
                    || (spec.enable_config_map != status.enable_config_map
                        || (spec.config_map != status.config_map
                            || (spec.enable_pinger != status.enable_pinger
                                || (spec.enable_sys != status.enable_sys
                                    || (spec.pinger != status.pinger
                                        || (spec.node_name != status.node_name
                                            || (spec.host_network != status.host_network
                                                || (spec.run_at != status.run_at
                                                    || (spec.debugger_config
                                                          != status.debugger_config
                                                        || (not (
                                                            deep_equal spec.tolerations
                                                            status.tolerations)
                                                            || not (
                                                            deep_equal spec.affinity
                                                            status.affinity)))))))))))))))

-- The flag `changed` of `UpdateDebugger`, in its order.
unfoldable pub needs_update : Debugger → Bool
needs_update d =
    let spec = d.spec in
    let status = d.status in
    spec.cpu != status.cpu
    || (spec.memory != status.memory
        || (spec.image != status.image
            || (spec.qos_bandwidth != status.qos_bandwidth
                || (spec.workload_type != status.workload_type
                    || (spec.enable_pinger != status.enable_pinger
                        || (spec.pinger != status.pinger
                            || (spec.enable_config_map != status.enable_config_map
                                || (spec.config_map != status.config_map
                                    || (spec.enable_sys != status.enable_sys
                                        || (not (deep_equal spec.tolerations status.tolerations)
                                            || (not (deep_equal spec.affinity status.affinity)
                                                || (spec.node_name != status.node_name
                                                    || (spec.host_network != status.host_network
                                                        || (spec.run_at != status.run_at
                                                            || spec.debugger_config
                                                            != status.debugger_config))))))))))))))

-- The status of `newDebugger`; its subnet and its selector are not touched.
unfoldable pub new_status : Debugger → DebuggerStatus
new_status d =
    let spec = d.spec in
    let status = d.status in
    record status {
      cpu = if spec.cpu != status.cpu then spec.cpu else status.cpu;
      memory = if spec.memory != status.memory then spec.memory else status.memory;
      image = if spec.image != status.image then spec.image else status.image;
      qos_bandwidth =
          if spec.qos_bandwidth != status.qos_bandwidth
          then spec.qos_bandwidth
          else status.qos_bandwidth;
      workload_type =
          if spec.workload_type != status.workload_type
          then spec.workload_type
          else status.workload_type;
      enable_pinger =
          if spec.enable_pinger != status.enable_pinger
          then spec.enable_pinger
          else status.enable_pinger;
      pinger = if spec.pinger != status.pinger then spec.pinger else status.pinger;
      enable_config_map =
          if spec.enable_config_map != status.enable_config_map
          then spec.enable_config_map
          else status.enable_config_map;
      config_map =
          if spec.config_map != status.config_map then spec.config_map else status.config_map;
      enable_sys =
          if spec.enable_sys != status.enable_sys then spec.enable_sys else status.enable_sys;
      tolerations =
          if not (deep_equal spec.tolerations status.tolerations)
          then spec.tolerations
          else status.tolerations;
      affinity =
          if not (deep_equal spec.affinity status.affinity) then spec.affinity else status.affinity;
      node_name = if spec.node_name != status.node_name then spec.node_name else status.node_name;
      host_network =
          if spec.host_network != status.host_network
          then spec.host_network
          else status.host_network;
      run_at = if spec.run_at != status.run_at then spec.run_at else status.run_at;
      debugger_config =
          if spec.debugger_config != status.debugger_config
          then spec.debugger_config
          else status.debugger_config;
    }

-- `newDebugger`
unfoldable pub new_debugger : Debugger → Debugger
new_debugger d = record d { status = new_status d }

-- The status that shows a spec, but for the two fields that are never written.
abbrev pub mirrored : Debugger → DebuggerStatus
mirrored d =
    let spec = d.spec in
    record (d.status) {
      workload_type = spec.workload_type;
      cpu = spec.cpu;
      memory = spec.memory;
      qos_bandwidth = spec.qos_bandwidth;
      host_network = spec.host_network;
      image = spec.image;
      tolerations = spec.tolerations;
      affinity = spec.affinity;
      node_name = spec.node_name;
      enable_config_map = spec.enable_config_map;
      config_map = spec.config_map;
      enable_pinger = spec.enable_pinger;
      pinger = spec.pinger;
      enable_sys = spec.enable_sys;
      run_at = spec.run_at;
      debugger_config = spec.debugger_config;
    }

-- What is written is the spec, but for the subnet and the selector.
new_status-eq-mirrored : (d : Debugger) → new_status d ≡ mirrored d
unfolding new_status
new_status-eq-mirrored d = cc (
  copied d.spec.cpu d.status.cpu,
  copied d.spec.memory d.status.memory,
  copied d.spec.image d.status.image,
  copied d.spec.qos_bandwidth d.status.qos_bandwidth,
  copied d.spec.workload_type d.status.workload_type,
  copied d.spec.enable_pinger d.status.enable_pinger,
  copied d.spec.pinger d.status.pinger,
  copied d.spec.enable_config_map d.status.enable_config_map,
  copied d.spec.config_map d.status.config_map,
  copied d.spec.enable_sys d.status.enable_sys,
  copied d.spec.node_name d.status.node_name,
  copied d.spec.host_network d.status.host_network,
  copied d.spec.run_at d.status.run_at,
  copied d.spec.debugger_config d.status.debugger_config,
  copied_deep d.spec.tolerations d.status.tolerations,
  copied_deep d.spec.affinity d.status.affinity,
)

mirrored-IsUnchanged :
    (d : Debugger) (s : DebuggerStatus)
    → s ≡ mirrored d
    → is_changed (record d { status = s }) ≡ false
unfolding is_changed
mirrored-IsUnchanged d s e =
    subst (λ (x : DebuggerStatus). is_changed (record d { status = x }) ≡ false) (sym e)
      (ground (
        arith,
        deep_equal_iff d.spec.tolerations d.spec.tolerations,
        deep_equal_iff d.spec.affinity d.spec.affinity,
      ))

-- The written status is the spec's in every field but the subnet and the selector, which stay as
-- they were; a debugger with this status counts as unchanged, whatever its subnet and selector.
pub written_lem :
    (d : Debugger) (subnet : String) (selector : Slice String)
    → ((new_debugger d).status ≡ mirrored d)
      × (is_changed (record (new_debugger d) {
        spec = record (d.spec) { subnet = subnet; selector = selector };
      })
          ≡ false)
unfolding new_debugger
written_lem d subnet selector = (
  new_status-eq-mirrored d,
  mirrored-IsUnchanged
      (record d { spec = record (d.spec) { subnet = subnet; selector = selector } }) (new_status d)
      (new_status-eq-mirrored d),
)

pub new_debugger-unchanged : (d : Debugger) → is_changed (new_debugger d) ≡ false
unfolding new_debugger
new_debugger-unchanged d = mirrored-IsUnchanged d (new_status d) (new_status-eq-mirrored d)

-- A write is made exactly when the debugger counts as changed.
pub needs_update-eq-is_changed : (d : Debugger) → needs_update d ≡ is_changed d
unfolding needs_update is_changed
needs_update-eq-is_changed d = ground arith
