-- ===== src/Debugger/Volumes.antt =====
-- `getVolumesMounts`
pub mod Paired
use kube_combo.Prelude.{String, true, false, ◌&&◌, Option, none, some, List, [], ◌∷◌, ◌++◌}
use kube_combo.Prelude.{if◌then◌else◌, ◌!=◌, Io, ◌>>=◌, ◌>>◌, pure, Result, ok, err, bool_eq}
use kube_combo.Prelude.{nat_eq, string_eq, option_eq, list_eq}
use kube_combo.Prelude.Dict.{Dict}
use kube_combo.Text.Words.{has_suffix}
use kube_combo.Api.Debugger.{Debugger}
use kube_combo.Workload.Objects.{VolumeMount, Volume, VolumeSource, HostPathType}
use kube_combo.Workload.Mounts.{volume_names}

-- The volumes and the mounts that belong to each other.
abbrev pub Mounted : Type 0
Mounted = List Volume × List VolumeMount

-- A directory of the host.
abbrev host_volume : String → String → Volume
host_volume name path = record {
  name = name;
  source = VolumeSource.host_path path HostPathType.unset;
}

abbrev read_only_mount : String → String → VolumeMount
read_only_mount name path = record { name = name; mount_path = path; read_only = true }

abbrev writable_mount : String → String → VolumeMount
writable_mount name path = record { name = name; mount_path = path; read_only = false }

-- The literal of `volumes`.
unfoldable pub base_volumes : List Volume
base_volumes =
    host_volume "host-run-ovs" "/var/run/openvswitch"
    ∷ host_volume "host-run-ovn" "/var/run/ovn"
    ∷ host_volume "host-config-openvswitch" "/etc/openvswitch"
    ∷ host_volume "host-log-openvswitch" "/var/log/openvswitch"
    ∷ host_volume "host-log-ovn" "/var/log/ovn"
    ∷ host_volume "host-log-kube-ovn" "/var/log/kube-ovn"
    ∷ host_volume "host-log-kube-combo" "/var/log/kube-combo"
    ∷ host_volume "localtime" "/etc/localtime"
    ∷ host_volume "kube-ovn-tls" "/var/run/tls"
    ∷ []

-- The literal of `volumeMounts`, which is written apart from that of the volumes.
unfoldable pub base_mounts : List VolumeMount
base_mounts =
    read_only_mount "host-run-ovs" "/var/run/openvswitch"
    ∷ read_only_mount "host-run-ovn" "/var/run/ovn"
    ∷ read_only_mount "host-config-openvswitch" "/etc/openvswitch"
    ∷ read_only_mount "host-log-openvswitch" "/var/log/openvswitch"
    ∷ read_only_mount "host-log-ovn" "/var/log/ovn"
    ∷ read_only_mount "host-log-kube-ovn" "/var/log/kube-ovn"
    ∷ writable_mount "host-log-kube-combo" "/var/log/kube-combo"
    ∷ read_only_mount "localtime" "/etc/localtime"
    ∷ read_only_mount "kube-ovn-tls" "/var/run/tls"
    ∷ []

-- The literals under `if debugger.Spec.EnableSys`.
unfoldable pub sys_volumes : List Volume
sys_volumes =
    host_volume "etc-systemd" "/etc/systemd/system"
    ∷ host_volume "run-systemd" "/run/systemd/system"
    ∷ host_volume "var-run-systemd" "/var/run/systemd/system"
    ∷ host_volume "usr-local-lib-systemd" "/usr/local/lib/systemd/system"
    ∷ host_volume "usr-lib-systemd" "/usr/lib/systemd/system"
    ∷ host_volume "lib-systemd" "/lib/systemd/system"
    ∷ host_volume "cgroup" "/sys/fs/cgroup"
    ∷ host_volume "var-log-journal" "/var/log/journal"
    ∷ []

unfoldable pub sys_volume_mounts : List VolumeMount
sys_volume_mounts =
    read_only_mount "etc-systemd" "/etc/systemd/system"
    ∷ writable_mount "run-systemd" "/run/systemd/system"
    ∷ read_only_mount "var-run-systemd" "/var/run/systemd/system"
    ∷ read_only_mount "usr-local-lib-systemd" "/usr/local/lib/systemd/system"
    ∷ writable_mount "usr-lib-systemd" "/usr/lib/systemd/system"
    ∷ writable_mount "lib-systemd" "/lib/systemd/system"
    ∷ read_only_mount "cgroup" "/sys/fs/cgroup"
    ∷ writable_mount "var-log-journal" "/var/log/journal"
    ∷ []

abbrev pub add : Mounted → Mounted → Mounted
add (vs, ms) (us, ns) = (vs ++ us, ms ++ ns)

unfoldable pub host_dirs : Debugger → Mounted
unfolding base_volumes base_mounts sys_volumes sys_volume_mounts
host_dirs d =
    if d.spec.enable_sys
    then (base_volumes ++ sys_volumes, base_mounts ++ sys_volume_mounts)
    else (base_volumes, base_mounts)

-- The keys of a config map that end in `.sh`.
unfoldable pub script_keys : Dict → List String
script_keys [] = []
script_keys ((key, value) ∷ entries) =
    let rest = script_keys entries in if has_suffix key ".sh" then key ∷ rest else rest

-- `cm.Data`, which may be a nil map.
abbrev pub entries_of : Option Dict → Dict
entries_of none = []
entries_of (some entries) = entries

-- The volume and the mount of the scripts, which the code appends to two slices.
abbrev scripts_volume : String → Dict → Volume
scripts_volume name entries = record {
  name = name;
  source = VolumeSource.config_map name (some (script_keys entries)) (some 493);
}

abbrev scripts_mount : String → VolumeMount
scripts_mount name = record { name = name; mount_path = "/scripts"; read_only = true }

-- The scripts of the config map, with mode 0755; nil if the config map cannot be read.
unfoldable pub scripts_part : String → Result (Option Dict) → Option Mounted
unfolding script_keys
scripts_part name (err e) = none
scripts_part name (ok entries) =
    some (scripts_volume name (entries_of entries) ∷ [], scripts_mount name ∷ [])

abbrev run_at_volume : String → Volume
run_at_volume name = record { name = name; source = VolumeSource.config_map name none none }

abbrev run_at_mount : String → VolumeMount
run_at_mount name = record { name = name; mount_path = "/tasks"; read_only = true }

unfoldable pub run_at_part : String → Result (Option Dict) → Option Mounted
run_at_part name (err e) = none
run_at_part name (ok entries) = some (run_at_volume name ∷ [], run_at_mount name ∷ [])

abbrev pub add_part : Mounted → Option Mounted → Option Mounted
add_part m none = none
add_part m (some part) = some (add m part)

module _ {W : Type 0} (get_config_map : String → String → Io W (Result (Option Dict))) where
  unfoldable pub add_scripts : Debugger → Mounted → Io W (Option Mounted)
  unfolding scripts_part
  add_scripts d m =
      if d.spec.enable_config_map && d.spec.config_map != ""
      then (do
        cm ← get_config_map d.meta.namespace d.spec.config_map
        pure (add_part m (scripts_part d.spec.config_map cm)))
      else pure (some m)

  -- A part that failed makes both results nil at once.
  unfoldable pub add_run_at : Debugger → Option Mounted → Io W (Option Mounted)
  unfolding run_at_part
  add_run_at d none = pure none
  add_run_at d (some m) =
      if d.spec.run_at != ""
      then (do
        cm ← get_config_map d.meta.namespace d.spec.run_at
        pure (add_part m (run_at_part d.spec.run_at cm)))
      else pure (some m)

  abbrev pub or_empty : Option Mounted → Mounted
  or_empty none = ([], [])
  or_empty (some m) = m

  unfoldable pub get_volumes_mounts : Debugger → Io W Mounted
  unfolding host_dirs add_scripts add_run_at
  get_volumes_mounts d = do
    scripts ← add_scripts d (host_dirs d)
    both ← add_run_at d scripts
    pure (or_empty both)
