-- ===== src/Debugger/Validate.antt =====
-- `validateDebugger` and `validatePinger`.
use kube_combo.Prelude.{String, ◌<>◌, ◌≡◌, ◌≢◌, ◌↔◌, ◌⊎◌, Bool, true, false, not, ◌&&◌, Option}
use kube_combo.Prelude.{none, arith, if◌then◌else◌, ◌==◌, ◌!=◌, ◌then_check◌, check, bool_eq}
use kube_combo.Prelude.{nat_eq, string_eq, option_eq, list_eq}
use text.Mathlib.TextEquality.{eq_iff}
use kube_combo.Api.Debugger.{Debugger}
use kube_combo.Api.Pinger.{Pinger}

-- The checks in their order.
unfoldable pub validate_debugger : Debugger → Option String
validate_debugger d =
    check (d.spec.cpu == "") "debugger pod cpu is required"
    then_check check (d.spec.memory == "") "debugger pod memory is required"
    then_check check (d.spec.image == "") ("debugger " <> (d.meta.name <> " image is required"))
    then_check check (d.spec.workload_type == "") "debugger workload type is required"
    then_check check (d.spec.workload_type != "daemonset" && d.spec.workload_type != "pod")
        ("debugger " <> (d.meta.name <> " workload type is invalid, should be daemonset or pod"))
    then_check (if d.spec.workload_type == "daemonset"
        then check (d.spec.node_name != "")
            ("debugger " <> (d.meta.name <> " daemonset not need node name"))
        else none)
    then_check check (d.spec.enable_config_map && d.spec.config_map == "")
        ("debugger " <> (d.meta.name <> " enable config map, but config map is empty"))
    then_check check (d.spec.enable_pinger && d.spec.pinger == "")
        ("debugger " <> (d.meta.name <> " enable pinger, but pinger is empty"))
    then_check check (d.status.subnet != "" && d.status.subnet != d.spec.subnet) (
        "debugger "
        <> (d.meta.name
            <> (" subnet is changed, old: " <> (d.status.subnet <> (", new: " <> d.spec.subnet)))))
    then_check check (d.spec.host_network && d.spec.subnet != "")
        ("debugger " <> (d.meta.name <> " use host network pod not need subnet"))

-- Without a pinger container, and while the pinger is being deleted, nothing is checked.
unfoldable pub validate_pinger : Pinger → Bool → Option String
validate_pinger p enable_pinger =
    if not enable_pinger
    then none
    else if p.meta.deleting
    then none
    else check (p.spec.image == "") ("pinger " <> (p.meta.name <> " image is required"))
      then_check check
          (p.spec.ping == ""
            && (p.spec.tcp_ping == "" && (p.spec.udp_ping == "" && p.spec.dns == "")))
          ("pinger " <> (p.meta.name <> " must set at least one kind of ping target"))

-- A debugger that can be deployed.
pub record IsDeployable (d : Debugger) : Type 0 where
  pub cpu : d.spec.cpu ≢ ""
  pub memory : d.spec.memory ≢ ""
  pub image : d.spec.image ≢ ""
  pub type :
      ((d.spec.workload_type ≡ "daemonset") × (d.spec.node_name ≡ ""))
      ⊎ (d.spec.workload_type ≡ "pod")
  pub config_map : d.spec.enable_config_map ≡ true → d.spec.config_map ≢ ""
  pub pinger : d.spec.enable_pinger ≡ true → d.spec.pinger ≢ ""
  pub subnet : d.status.subnet ≢ "" → d.status.subnet ≡ d.spec.subnet
  pub host_network : d.spec.host_network ≡ true → d.spec.subnet ≡ ""

daemonset-ne-empty : ◌≢◌ {A = String} "daemonset" ""
daemonset-ne-empty = ground (arith, eq_iff "daemonset" "")

pod-ne-empty : ◌≢◌ {A = String} "pod" ""
pod-ne-empty = ground (arith, eq_iff "pod" "")

pod-ne-daemonset : ◌≢◌ {A = String} "pod" "daemonset"
pod-ne-daemonset = ground (arith, eq_iff "pod" "daemonset")

-- The reconciler accepts a debugger exactly when it can be deployed.
pub validate_debugger_iff : (d : Debugger) → (validate_debugger d ≡ none) ↔ IsDeployable d
unfolding validate_debugger
validate_debugger_iff d =
    (λ h. ground arith, λ i. ground (arith, daemonset-ne-empty, pod-ne-empty, pod-ne-daemonset))

-- A pinger that is needed and is not being deleted is accepted exactly when it has an image and a
-- target; any other pinger is accepted.
pub validate_pinger_iff :
    (p : Pinger) (enable_pinger : Bool)
    → (validate_pinger p enable_pinger ≡ none) ↔ (
        enable_pinger ≡ true
        → p.meta.deleting ≡ false
        → (p.spec.image ≢ "")
          × ((p.spec.ping ≢ "")
              ⊎ ((p.spec.tcp_ping ≢ "") ⊎ ((p.spec.udp_ping ≢ "") ⊎ (p.spec.dns ≢ "")))))
unfolding validate_pinger
validate_pinger_iff p enable_pinger = (λ h e d. ground arith, λ k. ground arith)
