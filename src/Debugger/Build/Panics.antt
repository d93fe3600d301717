-- ===== src/Debugger/Build/Panics.antt =====
-- The handler of a debugger does not panic.
use kube_combo.Prelude.{String, ◌≡◌, refl, ◌≢◌, Bool, true, false, ◌&&◌, Option, none, some, List}
use kube_combo.Prelude.{[], ◌∷◌, arith, if◌then◌else◌, ret, panic, bool_eq, nat_eq, string_eq}
use kube_combo.Prelude.{option_eq, list_eq}
use kube_combo.Api.Meta.{ObjectMeta}
use kube_combo.Api.Debugger.{Debugger}
use kube_combo.Api.Pinger.{Pinger}
use kube_combo.Workload.Objects.{VolumeMount, EnvVar, Container}
use kube_combo.Workload.Builder.{Platform, Build, >>=-ne-panic, must_parse, set_controller}
use kube_combo.Debugger.Validate.{IsDeployable}
use kube_combo.Debugger.Volumes.{Mounted}
use kube_combo.Debugger.Envs.{get_envs}
use kube_combo.Debugger.Build.{root_container, debugger_container, pinger_container, with_pinger}
use kube_combo.Debugger.Build.{get_containers, meta_with, get_debugger_pod, get_debugger_daemonset}

-- `resource.MustParse` takes both quantities of the debugger.
abbrev pub parses : Platform → Debugger → Bool
parses p d = p.is_quantity d.spec.cpu && p.is_quantity d.spec.memory

-- The handler passes a pinger whenever the debugger names one.
abbrev pub IsFetched : Debugger → Option Pinger → Type 0
IsFetched d none = d.spec.pinger ≡ ""
IsFetched d (some pinger) = Unit

built-ne-panic : {A : Type 0} {a : A} → ◌≢◌ {A = Build A} (ret (some a)) panic
built-ne-panic e = cc

module _ (p : Platform) (d : Debugger) (good : parses p d ≡ true) where
  must_parse-ne-panic : must_parse p d.spec.cpu d.spec.memory ≢ panic
  unfolding must_parse
  must_parse-ne-panic = rw good built-ne-panic

  root_container-ne-panic :
      (name image command : String) (mounts : List VolumeMount) (envs : List EnvVar)
      → root_container p d name image command mounts envs ≢ panic
  unfolding root_container
  root_container-ne-panic name image command mounts envs =
      >>=-ne-panic (must_parse p d.spec.cpu d.spec.memory) _ must_parse-ne-panic (λ _ _.
        >>=-ne-panic (must_parse p d.spec.cpu d.spec.memory) _ must_parse-ne-panic
          (λ _ _. built-ne-panic))

  with_pinger-ne-panic :
      (k : Container) (pinger : Pinger) (mounts : List VolumeMount) (envs : List EnvVar)
      → with_pinger p d k (some pinger) mounts envs ≢ panic
  unfolding with_pinger pinger_container
  with_pinger-ne-panic k pinger mounts envs =
      >>=-ne-panic (pinger_container p d pinger mounts envs) _
        (root_container-ne-panic "ping" pinger.spec.image "/pinger-start.sh" mounts envs)
        (λ _ _. built-ne-panic)

  get_containers-ne-panic :
      (pinger : Option Pinger) (mounts : List VolumeMount)
      → IsDeployable d
      → IsFetched d pinger
      → get_containers p d pinger mounts ≢ panic
  unfolding get_containers debugger_container
  get_containers-ne-panic pinger mounts deployable fetched =
      >>=-ne-panic (debugger_container p d mounts (get_envs d pinger)) _
        (root_container-ne-panic "debug" d.spec.image "/debugger-start.sh" mounts
          (get_envs d pinger))
        (λ k _. by_flag k pinger fetched d.spec.enable_pinger deployable.pinger)
    where
      by_flag :
          (k : Container) (q : Option Pinger)
          → IsFetched d q
          → (b : Bool) → (b ≡ true → d.spec.pinger ≢ "")
          → (if b then with_pinger p d k q mounts (get_envs d pinger) else ret (some (k ∷ [])))
            ≢ panic
      by_flag k q f false n = built-ne-panic
      by_flag k none f true n = absurd (n refl f)
      by_flag k (some q) f true n = with_pinger-ne-panic k q mounts (get_envs d pinger)

set_controller-ne-panic : (p : Platform) (a b : ObjectMeta) → set_controller p a b ≢ panic
unfolding set_controller
set_controller-ne-panic p a b = ground arith

-- Neither builder panics for a debugger that can be deployed and whose quantities parse, with the
-- pinger that the handler passes: the validation rules out that a nil pinger is dereferenced.
pub debugger_builders-ne-panic :
    (p : Platform) (d : Debugger) (pinger : Option Pinger) (old : Option ObjectMeta)
    (mounted : Mounted)
    → parses p d ≡ true
    → IsDeployable d
    → IsFetched d pinger
    → (get_debugger_pod p d pinger old mounted ≢ panic)
      × (get_debugger_daemonset p d pinger old mounted ≢ panic)
unfolding get_debugger_pod get_debugger_daemonset
debugger_builders-ne-panic p d pinger old mounted good deployable fetched =
    let containers = get_containers-ne-panic p d good pinger mounted.1 deployable fetched in
    (
      >>=-ne-panic (get_containers p d pinger mounted.1) _ containers (λ _ _.
          >>=-ne-panic (set_controller p d.meta (meta_with p d _)) _ (set_controller-ne-panic p _ _)
            (λ _ _. built-ne-panic)),
      >>=-ne-panic (get_containers p d pinger mounted.1) _ containers (λ _ _.
          >>=-ne-panic (set_controller p d.meta (meta_with p d [])) _
            (set_controller-ne-panic p _ _) (λ _ _. built-ne-panic)),
    )
