-- ===== src/Tests/Idle.antt =====
-- Events on a debugger whose status is that of its spec.
use kube_combo.Prelude.{◌≡◌, refl, sym, ap, false, none, some, ret, found, subst, ret-world}
use kube_combo.Prelude.{ret-value, bool_eq, nat_eq, string_eq, option_eq, list_eq}
use kube_combo.Api.Debugger.{Debugger}
use kube_combo.Sync.{SyncState}
use kube_combo.Debugger.Validate.{validate_debugger}
use kube_combo.Debugger.Validate.{validate_pinger}
use kube_combo.Debugger.Status.{is_changed, new_debugger, written_lem}
use kube_combo.Debugger.Handler
use kube_combo.Debugger.Handler.{handle_add_or_update}
use kube_combo.Debugger.Status.{new_debugger-unchanged}
use kube_combo.Debugger.Handler.Landed.{Shows, IsStore}
use kube_combo.Debugger.Handler.Converged.{handle_debugger-converges}
use kube_combo.Debugger.Handler.Settled.{handle_debugger-settled}
use kube_combo.Tests.Samples.{request, platform}
use kube_combo.Tests.Debuggers.{debugger, Lab, lab, empty_lab, set_up, created}

-- The debugger has its status but lost its pod.
abbrev in_step : Debugger
in_step = record (new_debugger debugger) {
  spec = record (debugger.spec) { subnet = "ovn-default"; selector = none };
}

abbrev without_pod : Lab
without_pod = record { stored = in_step; has_workload = false }

stored-unchanged : is_changed in_step ≡ false
stored-unchanged = (written_lem debugger "ovn-default" none).1

not_repaired :
    handle_add_or_update platform lab request without_pod
    ≡ ret ((SyncState.success, none), without_pod)
unfolding handle_add_or_update string_eq Handler.handle_fetched Handler.fetched_debugger
    validate_debugger Handler.handle_valid Handler.with_config_map Handler.config_map_error
    Handler.handle_pinger Handler.deploy_with Handler.fetched_pinger validate_pinger Handler.deploy
    new_debugger kube_combo.Debugger.Status.new_status
not_repaired = rw stored-unchanged refl

handle_debugger-settled_example : without_pod ≡ without_pod
handle_debugger-settled_example =
    handle_debugger-settled platform lab request in_step (λ ns name w v r h. ret-world _ r w v h)
      (λ key w v r h. ret-world _ r w v h) stored-unchanged without_pod without_pod
      (SyncState.success, none) refl not_repaired

lab-IsStore : IsStore lab request (λ w. some w.stored)
lab-IsStore = record {
  get_shows = λ w v r h. (
    ret-world _ r w v h,
    subst (λ r. Shows r (some w.stored)) (ret-value (found w.stored) r w v h) refl,
  );
  get_pinger_keeps = λ key w v r h. ret-world _ r w v h;
  get_config_map_keeps = λ ns name w v r h. ret-world _ r w v h;
  update_stores = λ d w v h.
      sym (ap (λ (x : Lab). some x.stored) (ret-world none none (record w { stored = d }) v h));
}

idle : handle_add_or_update platform lab request set_up ≡ ret ((SyncState.success, none), set_up)
unfolding handle_add_or_update string_eq Handler.handle_fetched Handler.fetched_debugger
    validate_debugger Handler.handle_valid Handler.with_config_map Handler.config_map_error
    Handler.handle_pinger Handler.deploy_with Handler.fetched_pinger validate_pinger Handler.deploy
    new_debugger kube_combo.Debugger.Status.new_status
idle = rw (new_debugger-unchanged debugger) refl

handle_debugger-converges_example : set_up ≡ set_up
handle_debugger-converges_example =
    handle_debugger-converges platform lab request (λ w. some w.stored) lab-IsStore empty_lab set_up
      set_up (SyncState.success, none) created idle
