-- ===== src/Debugger/Build.antt =====
-- `labelsFor`, `getDebuggerContainer`, `getPingerContainer`, `getDebuggerPod` and
-- `getDebuggerDaemonset`, given the volumes and the mounts.
pub mod Panics
use kube_combo.Prelude.{String, true, false, Option, none, some, List, [], ◌∷◌, if◌then◌else◌, ◌>>◌}
use kube_combo.Prelude.Dict.{Dict}
use kube_combo.Api.Meta.{ObjectMeta}
use kube_combo.Api.Debugger.{Debugger}
use kube_combo.Api.Pinger.{Pinger}
use kube_combo.Workload.Objects.{EnvVar, VolumeMount, Container, SecurityContext, Pod, DaemonSet}
use kube_combo.Workload.Objects.{empty_pod_spec, pull_if_not_present, rolling_update}
use kube_combo.Workload.Builder.{Platform, Build, ◌>>=◌, built, deref, must_parse, set_controller}
use kube_combo.Workload.Builder.{node_selector, pod_tolerations, pod_affinity, pod_annotations}
use kube_combo.Debugger.Volumes.{Mounted}
use kube_combo.Debugger.Envs.{get_envs}

unfoldable pub labels_for : Debugger → Dict
labels_for d = ("debug", d.meta.name) ∷ []

abbrev root_context : SecurityContext
root_context = record {
  privileged = true;
  allow_privilege_escalation = true;
  run_as_user = some 0;
  capabilities = "NET_ADMIN" ∷ "NET_RAW" ∷ [];
}

module _ (p : Platform) (d : Debugger) where
  -- A container, with the mounts and the environment that both containers are given.
  unfoldable pub root_container :
      String → String → String → List VolumeMount → List EnvVar → Build Container
  root_container name image command mounts envs = do
    limits ← must_parse p d.spec.cpu d.spec.memory
    requests ← must_parse p d.spec.cpu d.spec.memory
    built (record {
      name = name;
      image = image;
      volume_mounts = mounts;
      limits = limits;
      requests = some requests;
      command = command ∷ [];
      ports = [];
      env = envs;
      image_pull_policy = pull_if_not_present;
      security_context = root_context;
    })

  unfoldable pub debugger_container : List VolumeMount → List EnvVar → Build Container
  debugger_container mounts envs =
      root_container "debug" d.spec.image "/debugger-start.sh" mounts envs

  unfoldable pub pinger_container : Pinger → List VolumeMount → List EnvVar → Build Container
  pinger_container pinger mounts envs =
      root_container "ping" pinger.spec.image "/pinger-start.sh" mounts envs

  -- With the pinger's container, for which a nil pinger is dereferenced.
  unfoldable pub with_pinger :
      Container → Option Pinger → List VolumeMount → List EnvVar → Build (List Container)
  with_pinger c pinger mounts envs = do
    given ← deref pinger
    k ← pinger_container given mounts envs
    built (c ∷ k ∷ [])

  unfoldable pub get_containers : Option Pinger → List VolumeMount → Build (List Container)
  get_containers pinger mounts = do
    c ← debugger_container mounts (get_envs d pinger)
    if d.spec.enable_pinger then with_pinger c pinger mounts (get_envs d pinger) else built (c ∷ [])

  abbrev pub meta_with : Dict → ObjectMeta
  meta_with annotations = record {
    name = d.meta.name;
    namespace = d.meta.namespace;
    labels = labels_for d;
    annotations = annotations;
    deleting = false;
    controller = none;
  }

  unfoldable pub get_debugger_pod : Option Pinger → Option ObjectMeta → Mounted → Build Pod
  get_debugger_pod pinger old mounted = do
    cs ← get_containers pinger mounted.1
    meta ←
        set_controller p d.meta (meta_with (pod_annotations old d.spec.subnet d.spec.qos_bandwidth))
    built (record {
      meta = meta;
      spec = record empty_pod_spec {
        node_name = d.spec.node_name;
        containers = cs;
        volumes = mounted.0;
        restart_policy = "Never";
        host_network = d.spec.host_network;
        host_pid = d.spec.host_network;
        service_account = "kube-combo-debugger";
      };
    })

  unfoldable pub get_debugger_daemonset :
      Option Pinger → Option ObjectMeta → Mounted → Build DaemonSet
  get_debugger_daemonset pinger old mounted = do
    cs ← get_containers pinger mounted.1
    meta ← set_controller p d.meta (meta_with [])
    built (record {
      meta = meta;
      selector = labels_for d;
      template = record {
        name = d.meta.name;
        namespace = d.meta.namespace;
        labels = labels_for d;
        annotations = pod_annotations old d.spec.subnet d.spec.qos_bandwidth;
        spec = record empty_pod_spec {
          containers = cs;
          volumes = mounted.0;
          host_network = d.spec.host_network;
          host_pid = d.spec.host_network;
          service_account = "kube-combo-debugger";
          run_as_user = some 0;
          node_selector = node_selector d.spec.selector;
          tolerations = pod_tolerations d.spec.tolerations;
          affinity = pod_affinity d.spec.affinity;
        };
      };
      update_strategy = rolling_update;
      max_unavailable = some "100%";
    })
