-- ===== src/VpnGw/Build/Shape.antt =====
-- Which containers the workloads of a gateway have, and what these mount.
use kube_combo.Prelude.{String, ◌≡◌, refl, sym, ap, ◌∙◌, Bool, Option, none, some, List, [], ◌∷◌}
use kube_combo.Prelude.{◌++◌, ret, subst, bool_eq, nat_eq, string_eq, option_eq, list_eq}
use mathlib.Core.List.{map-append}
use kube_combo.Api.Meta.{ObjectMeta}
use kube_combo.Api.KeepAlived.{KeepAlived}
use kube_combo.Api.VpnGw.{VpnGw}
use kube_combo.Workload.Objects.{Container, StatefulSet, DaemonSet, HostPathType}
use kube_combo.Workload.Builder.{Platform, >>=-built}
use kube_combo.Workload.Mounts.{volume_names, AreMounted, AllMounted, AllMounted-append}
use kube_combo.Workload.Mounts.{AllMounted-mono, volumes_left, volumes_right}
use kube_combo.Workload.Mounts.{AllMounted-of_append-nil, AllMounted-volumes_append}
use kube_combo.VpnGw.Build.Containers.{Config, Part, keepalived_container}
use kube_combo.VpnGw.Build.Containers.{host_volume}
use kube_combo.VpnGw.Build.Stateful.{sts_object}
use kube_combo.VpnGw.Build.Stateful.{stateful_set_for_vpn_gw}
use kube_combo.VpnGw.Build.Daemon.{ds_keepalived_part, ds_object}
use kube_combo.VpnGw.Build.Daemon.{daemonset_for_vpn_gw}
use kube_combo.VpnGw.Build.Inversion.{sts_steps, ds_steps}
use kube_combo.VpnGw.Build.Parts.{
  names, named_if, IsPart, keepalived_container_lem, sts_ssl_IsPart, sts_ipsec_IsPart,
  ds_ssl_IsPart, ds_ipsec_IsPart, when-IsPart, built-injective,
}

-- Two parts and the keepalived container behind them.
module _ {s i : Bool} {n m : String} {more : List String} {ssl ipsec : Part}
    (tail : List Container) where
  join_mounted :
      IsPart s n more ssl
      → IsPart i m more ipsec
      → AllMounted (volume_names (ssl.1 ++ ipsec.1) ++ more) tail
      → AllMounted (volume_names (ssl.1 ++ ipsec.1) ++ more) ((ssl.0 ++ ipsec.0) ++ tail)
  join_mounted a b t =
      AllMounted-append _ (ssl.0 ++ ipsec.0) tail
        (AllMounted-append _ ssl.0 ipsec.0
          (AllMounted-mono _ _ ssl.0 (volumes_left ssl.1 ipsec.1 more) a.mounted)
          (AllMounted-mono _ _ ipsec.0 (volumes_right ssl.1 ipsec.1 more) b.mounted))
        t

  join_named :
      IsPart s n more ssl
      → IsPart i m more ipsec
      → names ((ssl.0 ++ ipsec.0) ++ tail) ≡ (named_if s n ++ named_if i m) ++ names tail
  join_named a b =
      map-append _ (ssl.0 ++ ipsec.0) tail
      ∙ ap (λ (x : List String). x ++ names tail)
          (map-append _ ssl.0 ipsec.0 ∙ rw (a.named) (rw (b.named) refl))

-- A built StatefulSet runs the servers that the gateway enables and behind them one keepalived,
-- and whatever its containers mount is a volume of the pod.
pub stateful_set_servers :
    (p : Platform) (r : Config) (gw : VpnGw) (ka : Option KeepAlived) (old : Option ObjectMeta)
    (sts : StatefulSet)
    → stateful_set_for_vpn_gw p r gw ka old ≡ ret (some sts)
    → (names sts.template.spec.containers
        ≡ (named_if gw.spec.enable_ssl_vpn "ssl-vpn"
            ++ named_if gw.spec.enable_ipsec_vpn "ipsec-vpn")
          ++ ("keepalived" ∷ []))
      × AllMounted (volume_names sts.template.spec.volumes) sts.template.spec.containers
unfolding sts_object
stateful_set_servers p r gw ka old sts h =
    let steps = sts_steps p r gw old ka h in
    let k = steps.keepalived in
    let (name, mounts) = keepalived_container_lem p r gw steps.given steps.keepalived_eq in
    let a =
      when-IsPart gw.spec.enable_ssl_vpn [] (λ q e. sts_ssl_IsPart p r gw steps.given e)
        steps.ssl_eq in
    let b =
      when-IsPart gw.spec.enable_ipsec_vpn [] (λ q e. sts_ipsec_IsPart p r gw e) steps.ipsec_eq in
    let all = join_mounted (k ∷ []) a b (subst (AreMounted _) (sym mounts) tt, tt) in
    rw (steps.object_eq) (
      join_named (k ∷ []) a b
          ∙ ap
              (λ (x : String).
                (named_if gw.spec.enable_ssl_vpn "ssl-vpn"
                  ++ named_if gw.spec.enable_ipsec_vpn "ipsec-vpn")
                ++ (x ∷ []))
              name,
      AllMounted-of_append-nil (volume_names (steps.ssl.1 ++ steps.ipsec.1)) _ all,
    )

abbrev pub keepalived_if : Option KeepAlived → List String
keepalived_if none = []
keepalived_if (some ka) = "keepalived" ∷ []

ds_keepalived_lem :
    (p : Platform) (r : Config) (gw : VpnGw) (vols : List String) (ka : Option KeepAlived)
    (cs : List Container)
    → ds_keepalived_part p r gw ka ≡ ret (some cs)
    → (names cs ≡ keepalived_if ka) × AllMounted vols cs
unfolding ds_keepalived_part
ds_keepalived_lem p r gw vols none cs h =
    subst (λ (x : List Container). (names x ≡ []) × AllMounted vols x) (built-injective h)
      (refl, tt)
ds_keepalived_lem p r gw vols (some ka) cs h =
    let (k, ke, h1) = >>=-built (keepalived_container p gw ka) _ _ h in
    let (name, mounts) = keepalived_container_lem p r gw ka ke in
    subst (λ (x : List Container). (names x ≡ "keepalived" ∷ []) × AllMounted vols x)
      (built-injective h1)
      (ap (λ (x : String). x ∷ []) name, (subst (AreMounted vols) (sym mounts) tt, tt))

-- A built DaemonSet runs the servers that the gateway enables and behind them a keepalived if one
-- is given, and whatever its containers mount is a volume of the pod.
pub daemonset_servers :
    (p : Platform) (r : Config) (gw : VpnGw) (ka : Option KeepAlived) (old : Option ObjectMeta)
    (ds : DaemonSet)
    → daemonset_for_vpn_gw p r gw ka old ≡ ret (some ds)
    → (names ds.template.spec.containers
        ≡ (named_if gw.spec.enable_ssl_vpn "ssl-vpn"
            ++ named_if gw.spec.enable_ipsec_vpn "ipsec-vpn")
          ++ keepalived_if ka)
      × AllMounted (volume_names ds.template.spec.volumes) ds.template.spec.containers
unfolding ds_object
daemonset_servers p r gw ka old ds h =
    let steps = ds_steps p r gw old ka h in
    let more = "k8s-manifests" ∷ [] in
    let (name, mounted) = ds_keepalived_lem p r gw _ ka steps.keepalived steps.keepalived_eq in
    let a =
      when-IsPart gw.spec.enable_ssl_vpn more (λ q e. ds_ssl_IsPart p r gw ka e) steps.ssl_eq in
    let b =
      when-IsPart gw.spec.enable_ipsec_vpn more (λ q e. ds_ipsec_IsPart p r gw e) steps.ipsec_eq in
    let all = join_mounted steps.keepalived a b mounted in
    rw (steps.object_eq) (
      join_named steps.keepalived a b
          ∙ ap
              (λ (x : List String).
                (named_if gw.spec.enable_ssl_vpn "ssl-vpn"
                  ++ named_if gw.spec.enable_ipsec_vpn "ipsec-vpn")
                ++ x)
              name,
      AllMounted-volumes_append (steps.ssl.1 ++ steps.ipsec.1)
          (host_volume "k8s-manifests" r.k8s_manifests_path HostPathType.directory ∷ []) _ all,
    )
