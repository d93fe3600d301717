-- ===== src/Debugger/Volumes/Paired.antt =====
-- The volumes of a debugger are just what its containers mount.
use kube_combo.Prelude.{String, ◌≡◌, refl, sym, ap, ◌∙◌, Bool, true, false, ◌&&◌, Option, none}
use kube_combo.Prelude.{some, List, ◌++◌, map, if◌then◌else◌, ◌!=◌, ret, Io, ◌>>=◌, pure, Result}
use kube_combo.Prelude.{ok, err, >>=-ret, subst, bool_eq, nat_eq, string_eq, option_eq, list_eq}
use kube_combo.Prelude.Dict.{Dict}
use mathlib.Core.List.{map-append}
use kube_combo.Api.Debugger.{Debugger}
use kube_combo.Workload.Objects.{VolumeMount}
use kube_combo.Workload.Mounts.{volume_names}
use kube_combo.Debugger.Volumes.{
  Mounted, base_volumes, base_mounts, sys_volumes, sys_volume_mounts, host_dirs, add, add_part,
}
use kube_combo.Debugger.Volumes.{
  add_scripts, add_run_at, scripts_part, run_at_part, or_empty, get_volumes_mounts,
}

abbrev pub mount_names : List VolumeMount → List String
mount_names = map (λ (m : VolumeMount). m.name)

-- The mounts name the volumes, one for one.
abbrev pub IsPaired : Mounted → Type 0
IsPaired (vs, ms) = mount_names ms ≡ volume_names vs

abbrev IsPairedPart : Option Mounted → Type 0
IsPairedPart none = Unit
IsPairedPart (some m) = IsPaired m

add-IsPaired : (m n : Mounted) → IsPaired m → IsPaired n → IsPaired (add m n)
add-IsPaired (vs, ms) (us, ns) p q =
    map-append _ ms ns
    ∙ ap (λ (x : List String). x ++ mount_names ns) p
    ∙ ap (λ (x : List String). volume_names vs ++ x) q
    ∙ sym (map-append _ vs us)

host_dirs-IsPaired : (d : Debugger) → IsPaired (host_dirs d)
unfolding host_dirs base_volumes base_mounts sys_volumes sys_volume_mounts
host_dirs-IsPaired d = by_flag d.spec.enable_sys
  where
    by_flag :
        (b : Bool)
        → IsPaired (
            if b
            then (base_volumes ++ sys_volumes, base_mounts ++ sys_volume_mounts)
            else (base_volumes, base_mounts))
    by_flag true = refl
    by_flag false = refl

add_part-IsPaired :
    (m : Mounted) (o : Option Mounted) → IsPaired m → IsPairedPart o → IsPairedPart (add_part m o)
add_part-IsPaired m none p q = tt
add_part-IsPaired m (some n) p q = add-IsPaired m n p q

scripts_part-IsPaired :
    (name : String) (r : Result (Option Dict)) → IsPairedPart (scripts_part name r)
unfolding scripts_part
scripts_part-IsPaired name (err e) = tt
scripts_part-IsPaired name (ok entries) = refl

run_at_part-IsPaired :
    (name : String) (r : Result (Option Dict)) → IsPairedPart (run_at_part name r)
unfolding run_at_part
run_at_part-IsPaired name (err e) = tt
run_at_part-IsPaired name (ok entries) = refl

or_empty-IsPaired :
    {W : Type 0} (get : String → String → Io W (Result (Option Dict))) (o : Option Mounted)
    → IsPairedPart o
    → IsPaired (or_empty get o)
or_empty-IsPaired get none p = refl
or_empty-IsPaired get (some m) p = p

module _ {W : Type 0} (get : String → String → Io W (Result (Option Dict))) (d : Debugger) where
  read_part-IsPaired :
      (m : Mounted) (needed : Bool) (name : String) (part : Result (Option Dict) → Option Mounted)
      (w v : W) (o : Option Mounted)
      → IsPaired m
      → ((r : Result (Option Dict)) → IsPairedPart (part r))
      → (if needed
            then (do cm ← get d.meta.namespace name; pure (add_part m (part cm)))
            else pure (some m))
          w
        ≡ ret (o, v)
      → IsPairedPart o
  read_part-IsPaired m true name part w v o p q h =
      let (cm, u, got, rest) =
        >>=-ret (get d.meta.namespace name) (λ cm. pure (add_part m (part cm))) w v o h in
      let same : add_part m (part cm) ≡ o = cc in
      subst IsPairedPart same (add_part-IsPaired m (part cm) p (q cm))
  read_part-IsPaired m false name part w v o p q h =
      let same : ◌≡◌ {A = Option Mounted} (some m) o = cc in subst IsPairedPart same p

  add_run_at-IsPaired :
      (o : Option Mounted) (w v : W) (b : Option Mounted)
      → IsPairedPart o
      → add_run_at get d o w ≡ ret (b, v)
      → IsPairedPart b
  unfolding add_run_at
  add_run_at-IsPaired none w v b p h =
      let same : ◌≡◌ {A = Option Mounted} none b = cc in subst IsPairedPart same tt
  add_run_at-IsPaired (some m) w v b p h =
      read_part-IsPaired m (d.spec.run_at != "") d.spec.run_at (run_at_part d.spec.run_at) w v b p
        (run_at_part-IsPaired d.spec.run_at) h

  -- Whatever config maps can be read, the mounts of a debugger's containers name the volumes of its
  -- pod, one for one and in order.
  pub get_volumes_mounts-IsPaired :
      (w v : W) (m : Mounted) → get_volumes_mounts get d w ≡ ret (m, v) → IsPaired m
  unfolding get_volumes_mounts add_scripts
  get_volumes_mounts-IsPaired w v m h =
      let (scripts, u, got, rest) =
        >>=-ret (add_scripts get d (host_dirs d))
          (λ s. add_run_at get d s >>= λ b. pure (or_empty get b)) w v m h in
      let (both, t, got', rest') =
        >>=-ret (add_run_at get d scripts) (λ b. pure (or_empty get b)) u v m rest in
      let same : or_empty get both ≡ m = cc in
      subst IsPaired same (
        or_empty-IsPaired get both (
          add_run_at-IsPaired scripts u t both
            (read_part-IsPaired (host_dirs d) (d.spec.enable_config_map && d.spec.config_map != "")
              d.spec.config_map (scripts_part d.spec.config_map) w u scripts (host_dirs-IsPaired d)
              (scripts_part-IsPaired d.spec.config_map) got)
            got'))
