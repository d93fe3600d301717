-- ===== src/Webhook/VpnGw/Frozen.antt =====
-- What accepted updates of a gateway keep.
use kube_combo.Prelude.{String, ◌≡◌, ◌≢◌, ◌↔◌, none, [], arith, bool_eq, nat_eq, string_eq}
use kube_combo.Prelude.{option_eq, list_eq}
use kube_combo.Api.VpnGw.{VpnGw, VpnGwSpec}
use kube_combo.Webhook.Errors.{report, aggregate-eq-none}
use kube_combo.Webhook.VpnGw.{vpn_gw_errors, frozen_errors, validate_create, validate_update}
use kube_combo.VpnGw.Validate.{IsDeployable}
use kube_combo.Webhook.VpnGw.Equivalence.{vpn_gw_errors-eq-nil}

-- A text that is set stays.
abbrev pub Stays : String → String → Type 0
Stays old new = old ≢ "" → new ≡ old

-- The six immutable fields stay once they are set.
pub record KeepsFrozen (old new : VpnGwSpec) : Type 0 where
  pub keepalived : Stays old.keepalived new.keepalived
  pub dh_secret : Stays old.dh_secret new.dh_secret
  pub ssl_vpn_secret : Stays old.ssl_vpn_secret new.ssl_vpn_secret
  pub ipsec_secret : Stays old.ipsec_secret new.ipsec_secret
  pub ssl_vpn_proto : Stays old.ssl_vpn_proto new.ssl_vpn_proto
  pub ssl_vpn_subnet_cidr : Stays old.ssl_vpn_subnet_cidr new.ssl_vpn_subnet_cidr

frozen_errors-eq-nil : (old new : VpnGwSpec) → (frozen_errors old new ≡ []) ↔ KeepsFrozen old new
unfolding frozen_errors report
frozen_errors-eq-nil old new = (λ h. ground arith, λ k. ground arith)

-- An update is accepted exactly when the new gateway can be deployed and keeps what is frozen.
validate_update_iff :
    (new old : VpnGw)
    → (validate_update new old ≡ none) ↔ (IsDeployable new.spec × KeepsFrozen old.spec new.spec)
unfolding validate_update
validate_update_iff new old = ground (
  arith,
  aggregate-eq-none (vpn_gw_errors new.spec),
  aggregate-eq-none (frozen_errors old.spec new.spec),
  vpn_gw_errors-eq-nil new.spec,
  frozen_errors-eq-nil old.spec new.spec,
)

KeepsFrozen-refl : (a : VpnGwSpec) → KeepsFrozen a a
KeepsFrozen-refl a = ground arith

KeepsFrozen-trans : (a b c : VpnGwSpec) → KeepsFrozen a b → KeepsFrozen b c → KeepsFrozen a c
KeepsFrozen-trans a b c h k = ground arith

-- The life of a gateway: it is created, and then updated, each time past the webhook.
pub data Admitted : VpnGw → VpnGw → Type 0 where
  create : {g : VpnGw} → validate_create g ≡ none → Admitted g g
  update : {g old new : VpnGw} → Admitted g old → validate_update new old ≡ none → Admitted g new

-- A gateway that was admitted, however often it was updated, can be deployed, and keeps each
-- immutable field that was set when it was created.
pub Admitted-KeepsFrozen :
    {g h : VpnGw} → Admitted g h → IsDeployable h.spec × KeepsFrozen g.spec h.spec
unfolding validate_create
Admitted-KeepsFrozen {g = g} (create e) =
    ((vpn_gw_errors-eq-nil g.spec).0 ((aggregate-eq-none _).0 e), KeepsFrozen-refl g.spec)
Admitted-KeepsFrozen (update {g = g} {old = old} {new = new} a e) =
    let (d, k) = (validate_update_iff new old).0 e in
    (d, KeepsFrozen-trans g.spec old.spec new.spec (Admitted-KeepsFrozen a).1 k)
