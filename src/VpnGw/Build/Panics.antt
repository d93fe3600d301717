-- ===== src/VpnGw/Build/Panics.antt =====
-- When the builders of the workloads panic.
use kube_combo.Prelude.{String, ◌≡◌, refl, ◌≢◌, ◌↔◌, ◌⊎◌, inl, inr, Bool, true, false, ◌&&◌, Option}
use kube_combo.Prelude.{none, some, List, arith, ret, panic, Result, ok, err, Bool-cases, bool_eq}
use kube_combo.Prelude.{nat_eq, string_eq, option_eq, list_eq}
use kube_combo.Api.Meta.{ObjectMeta}
use kube_combo.Api.KeepAlived.{KeepAlived}
use kube_combo.Api.VpnGw.{VpnGw}
use kube_combo.Workload.Objects.{VolumeMount}
use kube_combo.Workload.Builder.{Platform, Build, >>=-ne-panic, or_nil, when, must_parse}
use kube_combo.Workload.Builder.{set_controller}
use kube_combo.VpnGw.Build.Containers.{Config, no_part, keepalived_container, ssl_container}
use kube_combo.VpnGw.Build.Containers.{ipsec_container, ssl_vpn_port, workload_meta}
use kube_combo.VpnGw.Build.Stateful.{sts_ssl_part, sts_ipsec_part, stateful_set_for_vpn_gw}
use kube_combo.VpnGw.Build.Daemon.{ds_ssl_part, ds_ipsec_part, ds_keepalived_part}
use kube_combo.VpnGw.Build.Daemon.{daemonset_for_vpn_gw}
use kube_combo.VpnGw.Port.{get_port_int32}

-- `resource.MustParse` takes both quantities of the gateway.
abbrev pub parses : Platform → VpnGw → Bool
parses p gw = p.is_quantity gw.spec.cpu && p.is_quantity gw.spec.memory

built-ne-panic : {A : Type 0} {a : A} → ◌≢◌ {A = Build A} (ret (some a)) panic
built-ne-panic e = cc

or_nil-ne-panic : {A : Type 0} (r : Result A) → or_nil r ≢ panic
or_nil-ne-panic (ok a) e = cc
or_nil-ne-panic (err s) e = cc

when-ne-panic :
    {A : Type 0} (flag : Bool) (other : A) {step : Build A}
    → step ≢ panic
    → when flag other step ≢ panic
when-ne-panic true other h = h
when-ne-panic false other h = built-ne-panic

set_controller-ne-panic : (p : Platform) (a b : ObjectMeta) → set_controller p a b ≢ panic
unfolding set_controller
set_controller-ne-panic p a b = ground arith

module _ (p : Platform) (gw : VpnGw) where
  must_parse-panic : parses p gw ≡ false → must_parse p gw.spec.cpu gw.spec.memory ≡ panic
  unfolding must_parse
  must_parse-panic h = rw h refl

  must_parse-ne-panic : parses p gw ≡ true → must_parse p gw.spec.cpu gw.spec.memory ≢ panic
  unfolding must_parse
  must_parse-ne-panic h = rw h (λ e. cc)

  keepalived_container-panic :
      (ka : KeepAlived) → parses p gw ≡ false → keepalived_container p gw ka ≡ panic
  unfolding keepalived_container
  keepalived_container-panic ka h = rw (must_parse-panic h) refl

  module _ (good : parses p gw ≡ true) where
    keepalived_container-ne-panic : (ka : KeepAlived) → keepalived_container p gw ka ≢ panic
    unfolding keepalived_container
    keepalived_container-ne-panic ka =
        >>=-ne-panic (must_parse p gw.spec.cpu gw.spec.memory) _ (must_parse-ne-panic good)
          (λ _ _. built-ne-panic)

    keepalived_part-ne-panic :
        (r : Config) (ka : Option KeepAlived) → ds_keepalived_part p r gw ka ≢ panic
    unfolding ds_keepalived_part
    keepalived_part-ne-panic r none = built-ne-panic
    keepalived_part-ne-panic r (some ka) =
        >>=-ne-panic (keepalived_container p gw ka) _ (keepalived_container-ne-panic ka)
          (λ _ _. built-ne-panic)

    ssl_container-ne-panic :
        (r : Config) (mounts : List VolumeMount) (command vip : String)
        → ssl_container p gw r mounts command vip ≢ panic
    unfolding ssl_container
    ssl_container-ne-panic r mounts command vip =
        >>=-ne-panic (or_nil (get_port_int32 (ssl_vpn_port p gw r))) _ (or_nil-ne-panic _) (λ _ _.
          >>=-ne-panic (must_parse p gw.spec.cpu gw.spec.memory) _ (must_parse-ne-panic good)
            (λ _ _. built-ne-panic))

    ipsec_container-ne-panic :
        (r : Config) (mounts : List VolumeMount) (command : List String)
        → ipsec_container p gw r mounts command ≢ panic
    unfolding ipsec_container
    ipsec_container-ne-panic r mounts command =
        >>=-ne-panic (or_nil (get_port_int32 r.ipsec_isakmp_port)) _ (or_nil-ne-panic _) (λ _ _.
          >>=-ne-panic (or_nil (get_port_int32 r.ipsec_nat_port)) _ (or_nil-ne-panic _) (λ _ _.
            >>=-ne-panic (must_parse p gw.spec.cpu gw.spec.memory) _ (must_parse-ne-panic good)
              (λ _ _. built-ne-panic)))

    stateful_set-ne-panic :
        (r : Config) (ka : KeepAlived) (old : Option ObjectMeta)
        → stateful_set_for_vpn_gw p r gw (some ka) old ≢ panic
    unfolding stateful_set_for_vpn_gw sts_ssl_part sts_ipsec_part
    stateful_set-ne-panic r ka old =
        >>=-ne-panic (keepalived_container p gw ka) _ (keepalived_container-ne-panic ka) (λ _ _.
          >>=-ne-panic (when gw.spec.enable_ssl_vpn no_part (sts_ssl_part p r gw ka)) _
            (when-ne-panic gw.spec.enable_ssl_vpn no_part (
              >>=-ne-panic (ssl_container p gw r _ _ _) _ (ssl_container-ne-panic r _ _ _)
                (λ _ _. built-ne-panic)))
            (λ _ _.
              >>=-ne-panic (when gw.spec.enable_ipsec_vpn no_part (sts_ipsec_part p r gw)) _
                (when-ne-panic gw.spec.enable_ipsec_vpn no_part (
                  >>=-ne-panic (ipsec_container p gw r _ _) _ (ipsec_container-ne-panic r _ _)
                    (λ _ _. built-ne-panic)))
                (λ _ _.
                  >>=-ne-panic (set_controller p gw.meta (workload_meta gw)) _
                    (set_controller-ne-panic p _ _) (λ _ _. built-ne-panic))))

    daemonset-ne-panic :
        (r : Config) (ka : Option KeepAlived) (old : Option ObjectMeta)
        → daemonset_for_vpn_gw p r gw ka old ≢ panic
    unfolding daemonset_for_vpn_gw ds_ssl_part ds_ipsec_part
    daemonset-ne-panic r ka old =
        >>=-ne-panic (when gw.spec.enable_ssl_vpn no_part (ds_ssl_part p r gw ka)) _
          (when-ne-panic gw.spec.enable_ssl_vpn no_part (
            >>=-ne-panic (ssl_container p gw r _ _ _) _ (ssl_container-ne-panic r _ _ _)
              (λ _ _. built-ne-panic)))
          (λ _ _.
            >>=-ne-panic (when gw.spec.enable_ipsec_vpn no_part (ds_ipsec_part p r gw)) _
              (when-ne-panic gw.spec.enable_ipsec_vpn no_part (
                >>=-ne-panic (ipsec_container p gw r _ _) _ (ipsec_container-ne-panic r _ _)
                  (λ _ _. built-ne-panic)))
              (λ _ _.
                >>=-ne-panic (ds_keepalived_part p r gw ka) _ (keepalived_part-ne-panic r ka)
                  (λ _ _.
                    >>=-ne-panic (set_controller p gw.meta (workload_meta gw)) _
                      (set_controller-ne-panic p _ _) (λ _ _. built-ne-panic))))

-- The StatefulSet's builder panics exactly when the gateway has no keepalived or one of its
-- quantities does not parse.
pub stateful_set_for_vpn_gw-eq-panic_iff :
    (p : Platform) (r : Config) (gw : VpnGw) (ka : Option KeepAlived) (old : Option ObjectMeta)
    → (stateful_set_for_vpn_gw p r gw ka old ≡ panic) ↔ ((ka ≡ none) ⊎ (parses p gw ≡ false))
unfolding stateful_set_for_vpn_gw
stateful_set_for_vpn_gw-eq-panic_iff p r gw none old = (λ h. inl refl, λ h. refl)
stateful_set_for_vpn_gw-eq-panic_iff p r gw (some ka) old = (
  λ h. elim (Bool-cases (parses p gw)) [
    | inl good ↦ absurd (stateful_set-ne-panic p gw good r ka old h)
    | inr bad ↦ inr bad
  ],
  λ h. elim h [ inl e ↦ cc | inr bad ↦ rw (keepalived_container-panic p gw ka bad) refl ],
)

-- The DaemonSet's builder does not panic while the gateway's quantities parse, whether or not
-- there is a keepalived.
daemonset_for_vpn_gw-ne-panic :
    (p : Platform) (r : Config) (gw : VpnGw) (ka : Option KeepAlived) (old : Option ObjectMeta)
    → parses p gw ≡ true
    → daemonset_for_vpn_gw p r gw ka old ≢ panic
daemonset_for_vpn_gw-ne-panic p r gw ka old good = daemonset-ne-panic p gw good r ka old
