-- ===== src/Debugger/Handler/Mapped.antt =====
-- The config maps that the debugger's handler reads, and the volumes that it makes of them.
use kube_combo.Prelude.{String, Bool, ◌&&◌, Option, none, some, ◌!=◌, Io, Keeps, pure-Keeps}
use kube_combo.Prelude.{>>=-Keeps, if-Keeps, bool_eq, nat_eq, string_eq, option_eq, list_eq}
use kube_combo.Api.Meta.{NamespacedName}
use kube_combo.Api.Debugger.{Debugger}
use kube_combo.Workload.Builder.{Platform}
use kube_combo.Debugger.Volumes.{Mounted, host_dirs, add_scripts}
use kube_combo.Debugger.Volumes.{add_run_at, get_volumes_mounts}
use kube_combo.Debugger.Handler.{Client, Outcome}
use kube_combo.Debugger.Handler.{config_map_error}
use kube_combo.Debugger.Handler.{unless_stopped}
use kube_combo.Debugger.Handler.{with_config_map}
use kube_combo.Debugger.Handler.Allowed.{Allows}

module _ (p : Platform) (c : Client) (req : NamespacedName) (R : c.World → c.World → Type 0)
    (allows : Allows p c req R) where
  unless_stopped-Keeps :
      (o : Option Outcome) {rest : Io c.World Outcome}
      → Keeps R rest
      → Keeps R (unless_stopped p c o rest)
  unless_stopped-Keeps (some o) k = pure-Keeps R allows.order o
  unless_stopped-Keeps none k = k

  pub with_config_map-Keeps :
      (needed : Bool) (ns name : String) (rest : Io c.World Outcome)
      → Keeps R rest
      → Keeps R (with_config_map p c needed ns name rest)
  unfolding with_config_map
  with_config_map-Keeps needed ns name rest k =
      if-Keeps R allows.order needed
        (λ _.
          >>=-Keeps R allows.order (c.get_config_map ns name) _ (allows.get_config_map ns name)
            (λ cm. unless_stopped-Keeps (config_map_error name cm) k))
        (λ _. k)

  add_run_at-Keeps : (d : Debugger) (o : Option Mounted) → Keeps R (add_run_at c.get_config_map d o)
  unfolding add_run_at
  add_run_at-Keeps d none = pure-Keeps R allows.order none
  add_run_at-Keeps d (some m) =
      if-Keeps R allows.order (d.spec.run_at != "")
        (λ _.
          >>=-Keeps R allows.order (c.get_config_map d.meta.namespace d.spec.run_at) _
            (allows.get_config_map _ _) (λ cm. pure-Keeps R allows.order _))
        (λ _. pure-Keeps R allows.order (some m))

  pub get_volumes_mounts-Keeps : (d : Debugger) → Keeps R (get_volumes_mounts c.get_config_map d)
  unfolding get_volumes_mounts add_scripts
  get_volumes_mounts-Keeps d =
      >>=-Keeps R allows.order (add_scripts c.get_config_map d (host_dirs d)) _
        (if-Keeps R allows.order (d.spec.enable_config_map && d.spec.config_map != "")
          (λ _.
            >>=-Keeps R allows.order (c.get_config_map d.meta.namespace d.spec.config_map) _
              (allows.get_config_map _ _) (λ cm. pure-Keeps R allows.order _))
          (λ _. pure-Keeps R allows.order _))
        (λ scripts.
          >>=-Keeps R allows.order (add_run_at c.get_config_map d scripts) _
            (add_run_at-Keeps d scripts) (λ both. pure-Keeps R allows.order _))
