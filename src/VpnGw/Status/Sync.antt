-- ===== src/VpnGw/Status/Sync.antt =====
-- What the written status settles, and what it leaves changed for ever.
use kube_combo.Prelude.{String, ◌≡◌, ap, ◌↔◌, false, ◌&&◌, none, arith, ◌==◌, ◌!=◌, Slice}
use kube_combo.Prelude.{deep_equal_iff, bool_eq, nat_eq, string_eq, option_eq, list_eq}
use kube_combo.Api.Meta.{affinity_eq}
use kube_combo.Api.VpnGw.{VpnGw, VpnGwStatus}
use kube_combo.VpnGw.Status.{is_changed, new_conns, new_status, new_gw, needs_update}

-- The status shows the spec, and the spec has no connections.
pub record IsSynced (gw : VpnGw) : Type 0 where
  pub keepalived : gw.status.keepalived ≡ "" → gw.spec.keepalived ≡ ""
  pub cpu : gw.status.cpu ≡ gw.spec.cpu
  pub memory : gw.status.memory ≡ gw.spec.memory
  pub qos_bandwidth : gw.status.qos_bandwidth ≡ gw.spec.qos_bandwidth
  pub replicas : gw.status.replicas ≡ gw.spec.replicas
  pub enable_ssl_vpn : gw.status.enable_ssl_vpn ≡ gw.spec.enable_ssl_vpn
  pub ssl_vpn_cipher : gw.status.ssl_vpn_cipher ≡ gw.spec.ssl_vpn_cipher
  pub ssl_vpn_proto : gw.status.ssl_vpn_proto ≡ gw.spec.ssl_vpn_proto
  pub ssl_vpn_subnet_cidr : gw.status.ssl_vpn_subnet_cidr ≡ gw.spec.ssl_vpn_subnet_cidr
  pub ssl_vpn_image : gw.status.ssl_vpn_image ≡ gw.spec.ssl_vpn_image
  pub enable_ipsec_vpn : gw.status.enable_ipsec_vpn ≡ gw.spec.enable_ipsec_vpn
  pub ipsec_vpn_image : gw.status.ipsec_vpn_image ≡ gw.spec.ipsec_vpn_image
  pub ipsec_connections : gw.spec.ipsec_connections ≡ none
  pub selector : gw.spec.selector ≡ gw.status.selector
  pub tolerations : gw.spec.tolerations ≡ gw.status.tolerations
  pub affinity : gw.spec.affinity ≡ gw.status.affinity

-- The reconciler's test, which passes nil for the connections, is negative exactly when synced.
pub is_changed_iff : (gw : VpnGw) → (is_changed gw none ≡ false) ↔ IsSynced gw
unfolding is_changed
is_changed_iff gw = (
  λ h. ground (
    arith,
    deep_equal_iff gw.spec.ipsec_connections none,
    deep_equal_iff gw.spec.selector gw.status.selector,
    deep_equal_iff gw.spec.tolerations gw.status.tolerations,
    deep_equal_iff gw.spec.affinity gw.status.affinity,
  ),
  λ s. ground (
    arith,
    deep_equal_iff gw.spec.ipsec_connections none,
    deep_equal_iff gw.spec.selector gw.status.selector,
    deep_equal_iff gw.spec.tolerations gw.status.tolerations,
    deep_equal_iff gw.spec.affinity gw.status.affinity,
  ),
)

-- What the write does not touch: the SSL fields while the SSL flag is the same, the IPSec image
-- while the IPSec flag is the same, and the connections of the spec.
pub record IsSettled (gw : VpnGw) : Type 0 where
  pub ssl :
      gw.status.enable_ssl_vpn ≡ gw.spec.enable_ssl_vpn
      → (gw.status.ssl_vpn_cipher ≡ gw.spec.ssl_vpn_cipher)
        × (gw.status.ssl_vpn_proto ≡ gw.spec.ssl_vpn_proto)
        × (gw.status.ssl_vpn_subnet_cidr ≡ gw.spec.ssl_vpn_subnet_cidr)
        × (gw.status.ssl_vpn_image ≡ gw.spec.ssl_vpn_image)
  pub ipsec :
      gw.status.enable_ipsec_vpn ≡ gw.spec.enable_ipsec_vpn
      → gw.status.ipsec_vpn_image ≡ gw.spec.ipsec_vpn_image
  pub ipsec_connections : gw.spec.ipsec_connections ≡ none

-- The stored gateway after a write of the status.
abbrev pub written : VpnGw → Slice String → VpnGw
written gw conns = record gw { status = (new_gw gw conns).status }

IsSynced-written : (gw : VpnGw) (conns : Slice String) → IsSettled gw → IsSynced (written gw conns)
unfolding new_gw
IsSynced-written gw conns s = record {
  keepalived = ground arith;
  cpu = ground arith;
  memory = ground arith;
  qos_bandwidth = ground arith;
  replicas = ground arith;
  enable_ssl_vpn = ground arith;
  ssl_vpn_cipher = ground arith;
  ssl_vpn_proto = ground arith;
  ssl_vpn_subnet_cidr = ground arith;
  ssl_vpn_image = ground arith;
  enable_ipsec_vpn = ground arith;
  ipsec_vpn_image = ground arith;
  ipsec_connections = ground arith;
  selector = ground (arith, deep_equal_iff gw.spec.selector gw.status.selector);
  tolerations = ground (arith, deep_equal_iff gw.spec.tolerations gw.status.tolerations);
  affinity = ground (arith, deep_equal_iff gw.spec.affinity gw.status.affinity);
}

IsSettled-of_written :
    (gw : VpnGw) (conns : Slice String) → IsSynced (written gw conns) → IsSettled gw
unfolding new_gw
IsSettled-of_written gw conns s = record {
  ssl = λ e. (
    ground (arith, s.ssl_vpn_cipher),
    ground (arith, s.ssl_vpn_proto),
    ground (arith, s.ssl_vpn_subnet_cidr),
    ground (arith, s.ssl_vpn_image),
  );
  ipsec = λ e. ground (arith, s.ipsec_vpn_image);
  ipsec_connections = s.ipsec_connections;
}

-- After the write the gateway counts as unchanged exactly when what the write does not touch
-- was in step before.
pub is_changed-written :
    (gw : VpnGw) (conns : Slice String)
    → (is_changed (written gw conns) none ≡ false) ↔ IsSettled gw
is_changed-written gw conns = (
  λ h. IsSettled-of_written gw conns ((is_changed_iff (written gw conns)).0 h),
  λ s. (is_changed_iff (written gw conns)).1 (IsSynced-written gw conns s),
)

-- Nothing that a write would copy differs.
record IsIdle (gw : VpnGw) (conns : Slice String) : Type 0 where
  keepalived : (gw.status.keepalived == "" && gw.spec.keepalived != "") ≡ false
  cpu : gw.status.cpu ≡ gw.spec.cpu
  memory : gw.status.memory ≡ gw.spec.memory
  qos_bandwidth : gw.status.qos_bandwidth ≡ gw.spec.qos_bandwidth
  replicas : gw.status.replicas ≡ gw.spec.replicas
  enable_ssl_vpn : gw.status.enable_ssl_vpn ≡ gw.spec.enable_ssl_vpn
  enable_ipsec_vpn : gw.status.enable_ipsec_vpn ≡ gw.spec.enable_ipsec_vpn
  no_new_conns : new_conns gw conns ≡ false
  selector : gw.spec.selector ≡ gw.status.selector
  tolerations : gw.spec.tolerations ≡ gw.status.tolerations
  affinity : gw.spec.affinity ≡ gw.status.affinity

needs_update-IsIdle :
    (gw : VpnGw) (conns : Slice String) → (needs_update gw conns ≡ false) ↔ IsIdle gw conns
unfolding needs_update
needs_update-IsIdle gw conns = (
  λ h. ground (
    arith,
    deep_equal_iff gw.spec.selector gw.status.selector,
    deep_equal_iff gw.spec.tolerations gw.status.tolerations,
    deep_equal_iff gw.spec.affinity gw.status.affinity,
  ),
  λ i. ground (
    arith,
    deep_equal_iff gw.spec.selector gw.status.selector,
    deep_equal_iff gw.spec.tolerations gw.status.tolerations,
    deep_equal_iff gw.spec.affinity gw.status.affinity,
  ),
)

new_gw-of_IsIdle : (gw : VpnGw) (conns : Slice String) → IsIdle gw conns → new_gw gw conns ≡ gw
unfolding new_gw
new_gw-of_IsIdle gw conns i = ground arith

IsIdle-of_new_gw : (gw : VpnGw) (conns : Slice String) → new_gw gw conns ≡ gw → IsIdle gw conns
unfolding new_gw
IsIdle-of_new_gw gw conns e =
    let st : new_status gw conns ≡ gw.status = ap (λ (g : VpnGw). g.status) e in
    record {
      keepalived = ground (arith, ap (λ (s : VpnGwStatus). s.keepalived) st);
      cpu = ground (arith, ap (λ (s : VpnGwStatus). s.cpu) st);
      memory = ground (arith, ap (λ (s : VpnGwStatus). s.memory) st);
      qos_bandwidth = ground (arith, ap (λ (s : VpnGwStatus). s.qos_bandwidth) st);
      replicas = ground (arith, ap (λ (s : VpnGwStatus). s.replicas) st);
      enable_ssl_vpn = ground (arith, ap (λ (s : VpnGwStatus). s.enable_ssl_vpn) st);
      enable_ipsec_vpn = ground (arith, ap (λ (s : VpnGwStatus). s.enable_ipsec_vpn) st);
      no_new_conns = ground (
        arith,
        ap (λ (g : VpnGw). g.spec.ipsec_connections) e,
        deep_equal_iff gw.spec.ipsec_connections conns,
      );
      selector = ground (
        arith,
        ap (λ (s : VpnGwStatus). s.selector) st,
        deep_equal_iff gw.spec.selector gw.status.selector,
      );
      tolerations = ground (
        arith,
        ap (λ (s : VpnGwStatus). s.tolerations) st,
        deep_equal_iff gw.spec.tolerations gw.status.tolerations,
      );
      affinity = ground (
        arith,
        ap (λ (s : VpnGwStatus). s.affinity) st,
        deep_equal_iff gw.spec.affinity gw.status.affinity,
      );
    }

-- The write is made exactly when it would change the object.
needs_update_iff :
    (gw : VpnGw) (conns : Slice String) → (needs_update gw conns ≡ false) ↔ (new_gw gw conns ≡ gw)
needs_update_iff gw conns = (
  λ h. new_gw-of_IsIdle gw conns ((needs_update-IsIdle gw conns).0 h),
  λ e. (needs_update-IsIdle gw conns).1 (IsIdle-of_new_gw gw conns e),
)
