-- ===== src/Tests/Debuggers.antt =====
-- The reconciler of Debugger over a store of one object.
use kube_combo.Prelude.{String, ◌≡◌, refl, ◌≢◌, Bool, true, false, Option, none, some, [], ◌∷◌}
use kube_combo.Prelude.{if◌then◌else◌, ret, panic, Io, Result, ok, Reply, found, not_found, bool_eq}
use kube_combo.Prelude.{nat_eq, string_eq, option_eq, list_eq}
use kube_combo.Prelude.Dict.{Dict}
use kube_combo.Api.Meta.{ObjectMeta}
use kube_combo.Api.Debugger.{Debugger}
use kube_combo.Api.Pinger.{Pinger}
use kube_combo.Sync.{SyncState}
use kube_combo.Debugger.Validate.{validate_debugger, IsDeployable, validate_debugger_iff}
use kube_combo.Debugger.Validate.{validate_pinger}
use kube_combo.Debugger.Status.{is_changed, needs_update, new_debugger, mirrored, written_lem}
use kube_combo.Debugger.Volumes.{Mounted, get_volumes_mounts}
use kube_combo.Debugger.Volumes.Paired.{IsPaired, get_volumes_mounts-IsPaired}
use kube_combo.Debugger.Build.{get_debugger_pod, get_debugger_daemonset, get_containers}
use kube_combo.Debugger.Build.{debugger_container, pinger_container, root_container, with_pinger}
use kube_combo.Workload.Builder.{must_parse, set_controller}
use kube_combo.Debugger.Build.Panics.{parses, debugger_builders-ne-panic}
use kube_combo.Debugger.Handler
use kube_combo.Debugger.Handler.{Client, handle_add_or_update}
use kube_combo.Tests.Samples.{meta_of, no_affinity, request, platform}

abbrev pub debugger : Debugger
debugger = record {
  meta = meta_of "dbg";
  spec = record {
    workload_type = "pod";
    cpu = "1";
    memory = "1Gi";
    qos_bandwidth = "0";
    subnet = "ovn-default";
    host_network = false;
    image = "kubecombo/debugger";
    selector = none;
    tolerations = none;
    affinity = no_affinity;
    node_name = "node-1";
    enable_pinger = true;
    pinger = "ping";
    enable_config_map = true;
    enable_sys = false;
    config_map = "scripts";
    run_at = "";
    debugger_config = "";
  };
  status = record {
    workload_type = "";
    cpu = "";
    memory = "";
    qos_bandwidth = "";
    subnet = "";
    host_network = false;
    image = "";
    selector = none;
    tolerations = none;
    affinity = no_affinity;
    node_name = "";
    enable_config_map = false;
    config_map = "";
    enable_pinger = false;
    pinger = "";
    enable_sys = false;
    run_at = "";
    debugger_config = "";
  };
}

abbrev pub pinger : Pinger
pinger = record {
  meta = meta_of "ping";
  spec = record {
    image = "kubecombo/pinger";
    enable_metrics = true;
    ping = "8.8.8.8";
    tcp_ping = "";
    udp_ping = "";
    dns = "";
  };
  status = record {
    image = "";
    enable_metrics = false;
    ping = "";
    tcp_ping = "";
    udp_ping = "";
    dns = "";
  };
}

accepted : validate_debugger debugger ≡ none
unfolding validate_debugger string_eq
accepted = refl

deployable : IsDeployable debugger
deployable = (validate_debugger_iff debugger).0 accepted

written_lem_example :
    ((new_debugger debugger).status ≡ mirrored debugger)
    × (is_changed (record (new_debugger debugger) {
      spec = record (debugger.spec) { subnet = "other"; selector = none };
    })
        ≡ false)
written_lem_example = written_lem debugger "other" none

-- A config map with one script.
abbrev one_map : String → String → Io Debugger (Result (Option Dict))
one_map ns name w = ret (ok (some (("a.sh", "true") ∷ ("notes", "") ∷ [])), w)

volumes_read : (m : Mounted) × (get_volumes_mounts one_map debugger debugger ≡ ret (m, debugger))
unfolding get_volumes_mounts string_eq
volumes_read = (_, refl)

get_volumes_mounts-IsPaired_example : IsPaired volumes_read.0
get_volumes_mounts-IsPaired_example =
    get_volumes_mounts-IsPaired one_map debugger debugger debugger volumes_read.0 volumes_read.1

has_quantities : parses platform debugger ≡ true
unfolding string_eq
has_quantities = refl

debugger_builders-ne-panic_example :
    (get_debugger_pod platform debugger (some pinger) none ([], []) ≢ panic)
    × (get_debugger_daemonset platform debugger (some pinger) none ([], []) ≢ panic)
debugger_builders-ne-panic_example =
    debugger_builders-ne-panic platform debugger (some pinger) none ([], []) has_quantities
      deployable tt

-- The stored debugger, and whether it has its workload.
pub record Lab : Type 0 where
  pub stored : Debugger
  pub has_workload : Bool

abbrev get_workload : Lab → Reply ObjectMeta
get_workload w = if w.has_workload then found (meta_of "dbg") else not_found "not found"

abbrev made : Lab → Lab
made w = record w { has_workload = true }

abbrev pub lab : Client
lab = record {
  World = Lab;
  get_debugger = λ req w. ret (found w.stored, w);
  get_pinger = λ req w. ret (found pinger, w);
  get_config_map = λ ns name w. ret (ok (some (("a.sh", "true") ∷ [])), w);
  get_pod = λ req w. ret (get_workload w, w);
  create_pod = λ pod w. ret (none, made w);
  update_pod = λ pod w. ret (none, w);
  get_daemonset = λ req w. ret (get_workload w, w);
  create_daemonset = λ ds w. ret (none, made w);
  update_daemonset = λ ds w. ret (none, w);
  update_status = λ d w. ret (none, record w { stored = d });
}

abbrev pub empty_lab : Lab
empty_lab = record { stored = debugger; has_workload = false }

abbrev pub set_up : Lab
set_up = record { stored = new_debugger debugger; has_workload = true }

-- The pod is created and the status is written.
pub created :
    handle_add_or_update platform lab request empty_lab ≡ ret ((SyncState.success, none), set_up)
unfolding handle_add_or_update string_eq Handler.handle_fetched Handler.fetched_debugger
    validate_debugger Handler.handle_valid Handler.with_config_map Handler.config_map_error
    Handler.handle_pinger Handler.deploy_with Handler.fetched_pinger validate_pinger Handler.deploy
    is_changed Handler.handle_workload Handler.apply_pod get_volumes_mounts get_debugger_pod
    get_containers debugger_container pinger_container root_container with_pinger
    Handler.after_workload Handler.update_debugger Handler.write_status needs_update must_parse
    set_controller
created = refl
