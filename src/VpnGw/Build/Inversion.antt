-- ===== src/VpnGw/Build/Inversion.antt =====
-- The steps of a builder that returned an object.
use kube_combo.Prelude.{◌≡◌, refl, Option, none, some, List, [], ◌∷◌, ◌++◌, ret, bool_eq, nat_eq}
use kube_combo.Prelude.{string_eq, option_eq, list_eq}
use kube_combo.Api.Meta.{ObjectMeta}
use kube_combo.Api.KeepAlived.{KeepAlived}
use kube_combo.Api.VpnGw.{VpnGw}
use kube_combo.Workload.Objects.{Container, StatefulSet, DaemonSet, HostPathType}
use kube_combo.Workload.Builder.{Platform, >>=-built, when, set_controller}
use kube_combo.VpnGw.Build.Containers.{Config, Part, no_part, workload_meta, keepalived_container}
use kube_combo.VpnGw.Build.Containers.{host_volume}
use kube_combo.VpnGw.Build.Stateful.{sts_ssl_part, sts_ipsec_part, sts_object}
use kube_combo.VpnGw.Build.Stateful.{stateful_set_for_vpn_gw}
use kube_combo.VpnGw.Build.Daemon.{ds_ssl_part, ds_ipsec_part, ds_keepalived_part, ds_object}
use kube_combo.VpnGw.Build.Daemon.{daemonset_for_vpn_gw}

module _ (p : Platform) (r : Config) (gw : VpnGw) (old : Option ObjectMeta) where
  pub record StsSteps (ka : Option KeepAlived) (sts : StatefulSet) : Type 0 where
    pub given : KeepAlived
    pub keepalived : Container
    pub ssl : Part
    pub ipsec : Part
    pub meta : ObjectMeta
    pub given_eq : ka ≡ some given
    pub keepalived_eq : keepalived_container p gw given ≡ ret (some keepalived)
    pub ssl_eq : when gw.spec.enable_ssl_vpn no_part (sts_ssl_part p r gw given) ≡ ret (some ssl)
    pub ipsec_eq : when gw.spec.enable_ipsec_vpn no_part (sts_ipsec_part p r gw) ≡ ret (some ipsec)
    pub meta_eq : set_controller p gw.meta (workload_meta gw) ≡ ret (some meta)
    pub object_eq :
        sts
        ≡ sts_object p r gw given old meta
            ((ssl.0 ++ ipsec.0) ++ (keepalived ∷ []))
            (ssl.1 ++ ipsec.1)

  pub sts_steps :
      (ka : Option KeepAlived) {sts : StatefulSet}
      → stateful_set_for_vpn_gw p r gw ka old ≡ ret (some sts)
      → StsSteps ka sts
  unfolding stateful_set_for_vpn_gw
  sts_steps none h = cc
  sts_steps (some ka) h =
      let (k, ke, h1) = >>=-built (keepalived_container p gw ka) _ _ h in
      let (ssl, se, h2) =
        >>=-built (when gw.spec.enable_ssl_vpn no_part (sts_ssl_part p r gw ka)) _ _ h1 in
      let (ipsec, ie, h3) =
        >>=-built (when gw.spec.enable_ipsec_vpn no_part (sts_ipsec_part p r gw)) _ _ h2 in
      let (meta, me, h4) = >>=-built (set_controller p gw.meta (workload_meta gw)) _ _ h3 in
      record {
        given = ka;
        keepalived = k;
        ssl = ssl;
        ipsec = ipsec;
        meta = meta;
        given_eq = refl;
        keepalived_eq = ke;
        ssl_eq = se;
        ipsec_eq = ie;
        meta_eq = me;
        object_eq = cc;
      }

  pub record DsSteps (ka : Option KeepAlived) (ds : DaemonSet) : Type 0 where
    pub ssl : Part
    pub ipsec : Part
    pub keepalived : List Container
    pub meta : ObjectMeta
    pub ssl_eq : when gw.spec.enable_ssl_vpn no_part (ds_ssl_part p r gw ka) ≡ ret (some ssl)
    pub ipsec_eq : when gw.spec.enable_ipsec_vpn no_part (ds_ipsec_part p r gw) ≡ ret (some ipsec)
    pub keepalived_eq : ds_keepalived_part p r gw ka ≡ ret (some keepalived)
    pub meta_eq : set_controller p gw.meta (workload_meta gw) ≡ ret (some meta)
    pub object_eq :
        ds
        ≡ ds_object p r gw ka old meta ((ssl.0 ++ ipsec.0) ++ keepalived) (
            (ssl.1 ++ ipsec.1)
            ++ (host_volume "k8s-manifests" r.k8s_manifests_path HostPathType.directory ∷ []))

  pub ds_steps :
      (ka : Option KeepAlived) {ds : DaemonSet}
      → daemonset_for_vpn_gw p r gw ka old ≡ ret (some ds)
      → DsSteps ka ds
  unfolding daemonset_for_vpn_gw
  ds_steps ka h =
      let (ssl, se, h1) =
        >>=-built (when gw.spec.enable_ssl_vpn no_part (ds_ssl_part p r gw ka)) _ _ h in
      let (ipsec, ie, h2) =
        >>=-built (when gw.spec.enable_ipsec_vpn no_part (ds_ipsec_part p r gw)) _ _ h1 in
      let (k, ke, h3) = >>=-built (ds_keepalived_part p r gw ka) _ _ h2 in
      let (meta, me, h4) = >>=-built (set_controller p gw.meta (workload_meta gw)) _ _ h3 in
      record {
        ssl = ssl;
        ipsec = ipsec;
        keepalived = k;
        meta = meta;
        ssl_eq = se;
        ipsec_eq = ie;
        keepalived_eq = ke;
        meta_eq = me;
        object_eq = cc;
      }
