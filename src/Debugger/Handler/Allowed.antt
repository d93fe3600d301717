-- ===== src/Debugger/Handler/Allowed.antt =====
-- The reads of the debugger's handler, and the writes that a debugger's spec asks for.
use kube_combo.Prelude.{String, ◌≡◌, ◌≢◌, ◌⊎◌, true, false, Option, none, some, ret, found}
use kube_combo.Prelude.{not_found, Keeps, IsPreorder, Returns}
use kube_combo.Api.Meta.{ObjectMeta, NamespacedName}
use kube_combo.Api.Debugger.{Debugger}
use kube_combo.Api.Pinger.{Pinger}
use kube_combo.Workload.Objects.{Pod, DaemonSet}
use kube_combo.Workload.Builder.{Platform}
use kube_combo.Debugger.Validate.{IsDeployable}
use kube_combo.Debugger.Status.{is_changed, needs_update, new_debugger}
use kube_combo.Debugger.Volumes.{Mounted, get_volumes_mounts}
use kube_combo.Debugger.Volumes.Paired.{IsPaired}
use kube_combo.Debugger.Build.{get_debugger_pod, get_debugger_daemonset}
use kube_combo.Debugger.Handler.{Client}

-- The pinger that a workload is built with: none if the debugger names none, else the one that was
-- read under the name that the debugger gives, in its namespace, which has an image and a target, if
-- the debugger runs it and it is not being deleted.
abbrev pub IsReady : Client → Debugger → Option Pinger → Type 0
IsReady c d none = d.spec.pinger ≡ ""
IsReady c d (some p) =
    (d.spec.pinger ≢ "")
    × Returns (c.get_pinger (record { namespace = d.meta.namespace; name = d.spec.pinger }))
        (found p)
    × (d.spec.enable_pinger ≡ true
        → p.meta.deleting ≡ false
        → (p.spec.image ≢ "")
          × ((p.spec.ping ≢ "")
              ⊎ ((p.spec.tcp_ping ≢ "") ⊎ ((p.spec.udp_ping ≢ "") ⊎ (p.spec.dns ≢ "")))))

-- What every workload write is made for: a changed debugger that was read under the key of the event
-- and that can be deployed, its pinger, and the volumes of its config maps, which are just what is
-- mounted.
pub record IsAsked (c : Client) (req : NamespacedName) (d : Debugger) (pinger : Option Pinger)
    (mounted : Mounted) : Type 0 where
  pub read : Returns (c.get_debugger req) (found d)
  pub deployable : IsDeployable d
  pub ready : IsReady c d pinger
  pub changed : is_changed d ≡ true
  pub volumes : Returns (get_volumes_mounts c.get_config_map d) mounted
  pub paired : IsPaired mounted

-- A relation that holds of every read, and of those writes that the debugger of the event's key asks
-- for.
pub record Allows (p : Platform) (c : Client) (req : NamespacedName)
    (R : c.World → c.World → Type 0) : Type 0 where
  pub order : IsPreorder R
  pub get_debugger : Keeps R (c.get_debugger req)
  pub get_pinger : (key : NamespacedName) → Keeps R (c.get_pinger key)
  pub get_config_map : (ns name : String) → Keeps R (c.get_config_map ns name)
  pub get_pod : Keeps R (c.get_pod req)
  pub get_daemonset : Keeps R (c.get_daemonset req)
  pub create_pod :
      (d : Debugger) (pinger : Option Pinger) (mounted : Mounted) (e : String) (pod : Option Pod)
      → IsAsked c req d pinger mounted
      → d.spec.workload_type ≡ "pod"
      → Returns (c.get_pod req) (not_found e)
      → get_debugger_pod p d pinger none mounted ≡ ret pod
      → Keeps R (c.create_pod pod)
  pub update_pod :
      (d : Debugger) (pinger : Option Pinger) (mounted : Mounted) (old : ObjectMeta)
      (pod : Option Pod)
      → IsAsked c req d pinger mounted
      → d.spec.workload_type ≡ "pod"
      → Returns (c.get_pod req) (found old)
      → get_debugger_pod p d pinger (some old) mounted ≡ ret pod
      → Keeps R (c.update_pod pod)
  pub create_daemonset :
      (d : Debugger) (pinger : Option Pinger) (mounted : Mounted) (e : String)
      (ds : Option DaemonSet)
      → IsAsked c req d pinger mounted
      → d.spec.workload_type ≡ "daemonset"
      → Returns (c.get_daemonset req) (not_found e)
      → get_debugger_daemonset p d pinger none mounted ≡ ret ds
      → Keeps R (c.create_daemonset ds)
  pub update_daemonset :
      (d : Debugger) (pinger : Option Pinger) (mounted : Mounted) (old : ObjectMeta)
      (ds : Option DaemonSet)
      → IsAsked c req d pinger mounted
      → d.spec.workload_type ≡ "daemonset"
      → Returns (c.get_daemonset req) (found old)
      → get_debugger_daemonset p d pinger (some old) mounted ≡ ret ds
      → Keeps R (c.update_daemonset ds)
  pub update_status :
      (d : Debugger)
      → Returns (c.get_debugger req) (found d)
      → needs_update d ≡ true
      → Keeps R (c.update_status (new_debugger d))
