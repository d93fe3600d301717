-- ===== src/VpnGw/Build/Selected.antt =====
-- The labels of the gateway's pods, and the selector by which the reconciler lists them.
use kube_combo.Prelude.{String, ◌≡◌, refl, sym, ◌⊎◌, inl, inr, Bool, true, false, Option, some, []}
use kube_combo.Prelude.{◌∷◌, if◌then◌else◌, ret, format_bool, bool_eq, nat_eq, string_eq, option_eq}
use kube_combo.Prelude.{list_eq}
use mathlib.Core.Bool.{true≢false}
use kube_combo.Prelude.Dict
use kube_combo.Prelude.Dict.{Dict}
use kube_combo.Api.Meta.{ObjectMeta}
use kube_combo.Api.KeepAlived.{KeepAlived}
use kube_combo.Api.VpnGw.{VpnGw}
use kube_combo.Workload.Objects.{StatefulSet, DaemonSet}
use kube_combo.Workload.Builder.{Platform}
use kube_combo.VpnGw.Validate.{IsDeployable}
use kube_combo.VpnGw.Build.Containers.{Config, labels_for_vpn_gw}
use kube_combo.VpnGw.Build.Inversion.{sts_steps, ds_steps}
use kube_combo.VpnGw.Build.Stateful.{sts_object, stateful_set_for_vpn_gw}
use kube_combo.VpnGw.Build.Daemon.{ds_object, daemonset_for_vpn_gw}

-- The `MatchingLabels` of `getVpnGwPodNames`.
unfoldable pub pod_selector : VpnGw → Dict
pod_selector gw =
    (if gw.spec.enable_ipsec_vpn then "enable-ipsec-vpn" else "enable-ssl-vpn", "true")
    ∷ ("vpn-gw", gw.meta.name)
    ∷ []

-- The labels have every pair of the selector.
abbrev pub Selects : Dict → Dict → Type 0
Selects [] labels = Unit
Selects ((k, v) ∷ selector) labels = (Dict.lookup k labels ≡ some v) × Selects selector labels

by_flags :
    (s i : Bool) (name : String)
    → (s ≡ true) ⊎ (i ≡ true)
    → Dict.lookup (if i then "enable-ipsec-vpn" else "enable-ssl-vpn") (
        ("enable-ssl-vpn", format_bool s)
        ∷ ("enable-ipsec-vpn", format_bool i)
        ∷ ("vpn-gw", name)
        ∷ [])
      ≡ some "true"
unfolding Dict.lookup string_eq
by_flags s true name h = refl
by_flags true false name h = refl
by_flags false false name (inl e) = absurd (true≢false (sym e))
by_flags false false name (inr e) = absurd (true≢false (sym e))

lookup_name :
    (s i : String) (name : String)
    → Dict.lookup "vpn-gw" (("enable-ssl-vpn", s) ∷ ("enable-ipsec-vpn", i) ∷ ("vpn-gw", name) ∷ [])
      ≡ some name
unfolding Dict.lookup string_eq
lookup_name s i name = refl

labels_selected :
    (gw : VpnGw) → IsDeployable gw.spec → Selects (pod_selector gw) (labels_for_vpn_gw gw)
unfolding pod_selector labels_for_vpn_gw
labels_selected gw d = (
  by_flags gw.spec.enable_ssl_vpn gw.spec.enable_ipsec_vpn gw.meta.name d.enabled,
  (lookup_name _ _ gw.meta.name, tt),
)

-- The pods of either workload of a gateway that can be deployed carry the labels by which the
-- reconciler lists them, and the workload itself selects just these labels.
pub workload_selected :
    (p : Platform) (r : Config) (gw : VpnGw) (ka : Option KeepAlived) (old : Option ObjectMeta)
    → IsDeployable gw.spec
    → ((sts : StatefulSet)
        → stateful_set_for_vpn_gw p r gw ka old ≡ ret (some sts)
        → Selects (pod_selector gw) sts.template.labels × (sts.selector ≡ sts.template.labels))
      × ((ds : DaemonSet)
          → daemonset_for_vpn_gw p r gw ka old ≡ ret (some ds)
          → Selects (pod_selector gw) ds.template.labels × (ds.selector ≡ ds.template.labels))
unfolding sts_object ds_object
workload_selected p r gw ka old d = (
  λ sts h. rw ((sts_steps p r gw old ka h).object_eq) (labels_selected gw d, refl),
  λ ds h. rw ((ds_steps p r gw old ka h).object_eq) (labels_selected gw d, refl),
)
