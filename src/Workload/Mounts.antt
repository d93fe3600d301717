-- ===== src/Workload/Mounts.antt =====
-- Pods whose containers mount only volumes that the pod has.
use kube_combo.Prelude.{String, sym, inl, inr, List, [], ◌∷◌, ◌++◌, map, subst}
use mathlib.Core.List.Memᴰ
use mathlib.Core.List.{Memᴰ, map-append, append-nil}
use kube_combo.Workload.Objects.{VolumeMount, Volume, Container}

abbrev pub volume_names : List Volume → List String
volume_names = map (λ (v : Volume). v.name)

-- Each mount names one of the volumes.
abbrev pub AreMounted : List String → List VolumeMount → Type 0
AreMounted names [] = Unit
AreMounted names (m ∷ ms) = Memᴰ m.name names × AreMounted names ms

abbrev pub AllMounted : List String → List Container → Type 0
AllMounted names [] = Unit
AllMounted names (c ∷ cs) = AreMounted names c.volume_mounts × AllMounted names cs

-- What is mounted of some volumes is mounted of more volumes.
pub AreMounted-mono :
    (names more : List String) (ms : List VolumeMount)
    → ((n : String) → Memᴰ n names → Memᴰ n more)
    → AreMounted names ms
    → AreMounted more ms
AreMounted-mono names more [] f h = tt
AreMounted-mono names more (m ∷ ms) f h = (f m.name h.0, AreMounted-mono names more ms f h.1)

pub AllMounted-mono :
    (names more : List String) (cs : List Container)
    → ((n : String) → Memᴰ n names → Memᴰ n more)
    → AllMounted names cs
    → AllMounted more cs
AllMounted-mono names more [] f h = tt
AllMounted-mono names more (c ∷ cs) f h =
    (AreMounted-mono names more c.volume_mounts f h.0, AllMounted-mono names more cs f h.1)

pub AllMounted-append :
    (names : List String) (cs ds : List Container)
    → AllMounted names cs
    → AllMounted names ds
    → AllMounted names (cs ++ ds)
AllMounted-append names [] ds h k = k
AllMounted-append names (c ∷ cs) ds h k = (h.0, AllMounted-append names cs ds h.1 k)

-- The volumes of a part are among those of the pod.
pub volumes_left :
    (a b : List Volume) (more : List String) (n : String)
    → Memᴰ n (volume_names a ++ more)
    → Memᴰ n (volume_names (a ++ b) ++ more)
volumes_left a b more n h =
    subst (λ (names : List String). Memᴰ n (names ++ more)) (sym (map-append _ a b))
      (elim (Memᴰ.append_cases (volume_names a) h) [
        | inl m ↦ Memᴰ.append_left more (Memᴰ.append_left (volume_names b) m)
        | inr m ↦ Memᴰ.append_right (volume_names a ++ volume_names b) m
      ])

pub volumes_right :
    (a b : List Volume) (more : List String) (n : String)
    → Memᴰ n (volume_names b ++ more)
    → Memᴰ n (volume_names (a ++ b) ++ more)
volumes_right a b more n h =
    subst (λ (names : List String). Memᴰ n (names ++ more)) (sym (map-append _ a b))
      (elim (Memᴰ.append_cases (volume_names b) h) [
        | inl m ↦ Memᴰ.append_left more (Memᴰ.append_right (volume_names a) m)
        | inr m ↦ Memᴰ.append_right (volume_names a ++ volume_names b) m
      ])

pub AllMounted-of_append-nil :
    (names : List String) (cs : List Container) → AllMounted (names ++ []) cs → AllMounted names cs
AllMounted-of_append-nil names cs =
    subst (λ (ns : List String). AllMounted ns cs) (append-nil names)

pub AllMounted-volumes_append :
    (a b : List Volume) (cs : List Container)
    → AllMounted (volume_names a ++ volume_names b) cs
    → AllMounted (volume_names (a ++ b)) cs
AllMounted-volumes_append a b cs =
    subst (λ (ns : List String). AllMounted ns cs) (sym (map-append _ a b))
