-- ===== src/Tests/Built.antt =====
-- The workloads of the sample gateway.
use kube_combo.Prelude.{◌≡◌, refl, inl, true, none, some, [], ◌∷◌, ret, panic, bool_eq, nat_eq}
use kube_combo.Prelude.{string_eq, option_eq, list_eq}
use kube_combo.Workload.Objects.{StatefulSet, DaemonSet}
use kube_combo.Workload.Builder.{must_parse, set_controller}
use kube_combo.Workload.Mounts.{AllMounted, volume_names}
use kube_combo.Text.Decimal.{parse_int32, parse_magnitude, parse_digits}
use kube_combo.VpnGw.Port.{get_port_int32}
use kube_combo.VpnGw.Build.Containers.{keepalived_container, ssl_container}
use kube_combo.VpnGw.Build.Containers.{ssl_vpn_port}
use kube_combo.VpnGw.Build.Stateful.{sts_ssl_part, stateful_set_for_vpn_gw}
use kube_combo.VpnGw.Build.Daemon.{ds_ssl_part, ds_keepalived_part, daemonset_for_vpn_gw}
use kube_combo.VpnGw.Build.Selected.{pod_selector, Selects, workload_selected}
use kube_combo.VpnGw.Build.Parts.{names}
use kube_combo.VpnGw.Build.Shape.{stateful_set_servers, daemonset_servers}
use kube_combo.VpnGw.Build.Panics.{parses, stateful_set_for_vpn_gw-eq-panic_iff}
use kube_combo.Tests.Samples.{gateway, keepalived, config, platform}
use kube_combo.Tests.Gateway.{deployable}

built_sts :
    (sts : StatefulSet) × (stateful_set_for_vpn_gw platform config gateway (some keepalived) none
      ≡ ret (some sts))
unfolding stateful_set_for_vpn_gw keepalived_container must_parse sts_ssl_part ssl_container
    get_port_int32 set_controller string_eq parse_int32 ssl_vpn_port nat_eq parse_magnitude
    parse_digits
built_sts = (_, refl)

built_ds :
    (ds : DaemonSet) × (daemonset_for_vpn_gw platform config gateway none none ≡ ret (some ds))
unfolding daemonset_for_vpn_gw must_parse ds_ssl_part ds_keepalived_part ssl_container
    get_port_int32 set_controller string_eq parse_int32 ssl_vpn_port nat_eq parse_magnitude
    parse_digits
built_ds = (_, refl)

workload_selected_example :
    Selects (pod_selector gateway) built_sts.0.template.labels
    × (built_sts.0.selector ≡ built_sts.0.template.labels)
workload_selected_example =
    (workload_selected platform config gateway (some keepalived) none deployable).0 built_sts.0
      built_sts.1

stateful_set_servers_example :
    (names built_sts.0.template.spec.containers ≡ "ssl-vpn" ∷ "keepalived" ∷ [])
    × AllMounted
        (volume_names built_sts.0.template.spec.volumes)
        built_sts.0.template.spec.containers
stateful_set_servers_example =
    stateful_set_servers platform config gateway (some keepalived) none built_sts.0 built_sts.1

daemonset_servers_example :
    (names built_ds.0.template.spec.containers ≡ "ssl-vpn" ∷ [])
    × AllMounted (volume_names built_ds.0.template.spec.volumes) built_ds.0.template.spec.containers
daemonset_servers_example =
    daemonset_servers platform config gateway none none built_ds.0 built_ds.1

-- Without a keepalived the StatefulSet's builder panics.
stateful_set_for_vpn_gw-eq-panic_iff_example :
    stateful_set_for_vpn_gw platform config gateway none none ≡ panic
stateful_set_for_vpn_gw-eq-panic_iff_example =
    (stateful_set_for_vpn_gw-eq-panic_iff platform config gateway none none).1 (inl refl)

parsed : parses platform gateway ≡ true
unfolding string_eq
parsed = refl
