-- ===== src/VpnGw/Status.antt =====
-- When a gateway counts as changed, and the status that is written for it: `isChanged` and the
-- body of `UpdateVpnGW`.
pub mod Sync
use kube_combo.Prelude.{String, Bool, not, ◌&&◌, ◌||◌, if◌then◌else◌, ◌==◌, ◌!=◌, Slice, deep_equal}
use kube_combo.Prelude.{is_nil, bool_eq, nat_eq, string_eq, option_eq, list_eq}
use kube_combo.Api.Meta.{affinity_eq}
use kube_combo.Api.VpnGw.{VpnGw, VpnGwSpec, VpnGwStatus}

unfoldable pub is_changed : VpnGw → Slice String → Bool
is_changed gw conns =
    let spec = gw.spec in
    let status = gw.status in
    (status.keepalived == "" && spec.keepalived != "")
    || (status.cpu != spec.cpu
        || (status.memory != spec.memory
            || (status.qos_bandwidth != spec.qos_bandwidth
                || (status.replicas != spec.replicas
                    || (status.enable_ssl_vpn != spec.enable_ssl_vpn
                        || (status.ssl_vpn_cipher != spec.ssl_vpn_cipher
                            || (status.ssl_vpn_proto != spec.ssl_vpn_proto
                                || (status.ssl_vpn_subnet_cidr != spec.ssl_vpn_subnet_cidr
                                    || (status.ssl_vpn_image != spec.ssl_vpn_image
                                        || (status.enable_ipsec_vpn != spec.enable_ipsec_vpn
                                            || (status.ipsec_vpn_image != spec.ipsec_vpn_image
                                                || ((status.enable_ipsec_vpn && not (is_nil conns))
                                                    || (not
                                                          (deep_equal spec.ipsec_connections conns)
                                                        || (not (
                                                            deep_equal spec.selector
                                                            status.selector)
                                                            || (not (
                                                            deep_equal spec.tolerations
                                                            status.tolerations)
                                                            || not (
                                                            deep_equal spec.affinity
                                                            status.affinity))))))))))))))))

-- The test that guards a write of the connections.
abbrev pub new_conns : VpnGw → Slice String → Bool
new_conns gw conns =
    (gw.status.enable_ipsec_vpn && not (is_nil conns))
    && not (deep_equal gw.spec.ipsec_connections conns)

-- The status of `newGw`.
unfoldable pub new_status : VpnGw → Slice String → VpnGwStatus
new_status gw conns =
    let spec = gw.spec in
    let status = gw.status in
    let ssl = status.enable_ssl_vpn != spec.enable_ssl_vpn in
    let ipsec = status.enable_ipsec_vpn != spec.enable_ipsec_vpn in
    record status {
      keepalived =
          if status.keepalived == "" && spec.keepalived != ""
          then spec.keepalived
          else status.keepalived;
      cpu = if status.cpu != spec.cpu then spec.cpu else status.cpu;
      memory = if status.memory != spec.memory then spec.memory else status.memory;
      qos_bandwidth =
          if status.qos_bandwidth != spec.qos_bandwidth
          then spec.qos_bandwidth
          else status.qos_bandwidth;
      replicas = if status.replicas != spec.replicas then spec.replicas else status.replicas;
      enable_ssl_vpn = if ssl then spec.enable_ssl_vpn else status.enable_ssl_vpn;
      ssl_vpn_cipher =
          if ssl && status.ssl_vpn_cipher != spec.ssl_vpn_cipher
          then spec.ssl_vpn_cipher
          else status.ssl_vpn_cipher;
      ssl_vpn_proto =
          if ssl && status.ssl_vpn_proto != spec.ssl_vpn_proto
          then spec.ssl_vpn_proto
          else status.ssl_vpn_proto;
      ssl_vpn_subnet_cidr =
          if ssl && status.ssl_vpn_subnet_cidr != spec.ssl_vpn_subnet_cidr
          then spec.ssl_vpn_subnet_cidr
          else status.ssl_vpn_subnet_cidr;
      ssl_vpn_image =
          if ssl && status.ssl_vpn_image != spec.ssl_vpn_image
          then spec.ssl_vpn_image
          else status.ssl_vpn_image;
      enable_ipsec_vpn = if ipsec then spec.enable_ipsec_vpn else status.enable_ipsec_vpn;
      ipsec_vpn_image =
          if ipsec && status.ipsec_vpn_image != spec.ipsec_vpn_image
          then spec.ipsec_vpn_image
          else status.ipsec_vpn_image;
      ipsec_connections = if new_conns gw conns then conns else status.ipsec_connections;
      selector =
          if not (deep_equal spec.selector status.selector) then spec.selector else status.selector;
      tolerations =
          if not (deep_equal spec.tolerations status.tolerations)
          then spec.tolerations
          else status.tolerations;
      affinity =
          if not (deep_equal spec.affinity status.affinity) then spec.affinity else status.affinity;
    }

-- `newGw`, which also has the connections in its spec.
unfoldable pub new_gw : VpnGw → Slice String → VpnGw
unfolding new_status
new_gw gw conns = record gw {
  spec = record (gw.spec) {
    ipsec_connections = if new_conns gw conns then conns else gw.spec.ipsec_connections;
  };
  status = new_status gw conns;
}

-- The flag `changed`, which guards the write.
unfoldable pub needs_update : VpnGw → Slice String → Bool
needs_update gw conns =
    let spec = gw.spec in
    let status = gw.status in
    (status.keepalived == "" && spec.keepalived != "")
    || (status.cpu != spec.cpu
        || (status.memory != spec.memory
            || (status.qos_bandwidth != spec.qos_bandwidth
                || (status.replicas != spec.replicas
                    || (status.enable_ssl_vpn != spec.enable_ssl_vpn
                        || (status.enable_ipsec_vpn != spec.enable_ipsec_vpn
                            || (new_conns gw conns
                                || (not (deep_equal spec.selector status.selector)
                                    || (not (deep_equal spec.tolerations status.tolerations)
                                        || not (deep_equal spec.affinity status.affinity))))))))))
