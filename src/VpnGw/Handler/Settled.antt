-- ===== src/VpnGw/Handler/Settled.antt =====
-- A gateway whose workload exists and whose status is that of its spec.
use kube_combo.Prelude.{String, ◌≡◌, refl, ap, ◌∙◌, ◌≢◌, inl, inr, false, Option, none, arith, ◌!=◌}
use kube_combo.Prelude.{==_iff, ==_cases, ret, Io, found, >>=-of_ret, if_false, if_true, bool_eq}
use kube_combo.Prelude.{nat_eq, string_eq, option_eq, list_eq}
use kube_combo.Api.Meta.{ObjectMeta, NamespacedName}
use kube_combo.Api.VpnGw.{VpnGw}
use kube_combo.Sync.{SyncState}
use kube_combo.Workload.Builder.{Platform}
use kube_combo.VpnGw.Client.{Client}
use kube_combo.VpnGw.Validate.{IsDeployable, validate_vpn_gw_iff}
use kube_combo.VpnGw.Status.{is_changed, needs_update}
use kube_combo.VpnGw.Refresh.{Refreshed, conns, refresh}
use kube_combo.VpnGw.Build.Containers.{Config}
use kube_combo.VpnGw.Handler.{Outcome, fetched_vpn_gw}
use kube_combo.VpnGw.Handler.{apply_stateful_set, apply_daemonset, handle_workload, write_status}
use kube_combo.VpnGw.Handler.{update_vpn_gw, finish, after_workload, deploy}
use kube_combo.VpnGw.Handler.{handle_valid, handle_fetched, handle_add_or_update, unless_invalid}

pub needs_update_of_is_changed :
    (gw : VpnGw) → is_changed gw none ≡ false → needs_update gw none ≡ false
unfolding is_changed needs_update
needs_update_of_is_changed gw h = ground arith

module _ (p : Platform) (r : Config) (c : Client) (req : NamespacedName) (gw : VpnGw)
    (w : c.World) where
  -- The reads show this gateway, without a keepalived, and that it has its workload.
  pub record IsDeployed : Type 0 where
    pub gateway : c.get_vpn_gw req w ≡ ret (found gw, w)
    pub deployable : IsDeployable gw.spec
    pub no_keepalived : gw.spec.keepalived ≡ ""
    pub no_ipsec : gw.spec.enable_ipsec_vpn ≡ false
    pub meta : ObjectMeta
    pub stateful_set :
        gw.spec.workload_type ≡ "statefulset" → c.get_stateful_set req w ≡ ret (found meta, w)
    pub daemonset :
        gw.spec.workload_type ≢ "statefulset" → c.get_daemonset req w ≡ ret (found meta, w)

  module _ (d : IsDeployed) (unchanged : is_changed gw none ≡ false) where
    apply_settled :
        (apply_stateful_set p r c gw none (found d.meta) w ≡ ret (none, w))
        × (apply_daemonset p r c gw none (found d.meta) w ≡ ret (none, w))
    unfolding apply_stateful_set apply_daemonset
    apply_settled = (rw unchanged refl, rw unchanged refl)

    handle_workload-settled : handle_workload p r c req gw none w ≡ ret (none, w)
    unfolding handle_workload
    handle_workload-settled = elim (==_cases gw.spec.workload_type "statefulset") [
      | inl type ↦
          ap (λ (m : Io c.World (Option String)). m w)
            (if_true _ _ _ ((==_iff gw.spec.workload_type "statefulset").1 type))
          ∙ >>=-of_ret (c.get_stateful_set req) _ w w _ (d.stateful_set type)
          ∙ apply_settled.0
      | inr other ↦
          ap (λ (m : Io c.World (Option String)). m w) (if_false _ _ _ other)
          ∙ >>=-of_ret (c.get_daemonset req) _ w w _ (d.daemonset (ground arith))
          ∙ apply_settled.1
    ]

    refresh_settled : refresh c req gw w ≡ ret (conns none, w)
    unfolding refresh
    refresh_settled = ap (λ (m : Io c.World Refreshed). m w) (if_false _ _ _ d.no_ipsec)

    update_settled : update_vpn_gw p r c req none w ≡ ret (none, w)
    unfolding update_vpn_gw write_status fetched_vpn_gw
    update_settled =
        >>=-of_ret (c.get_vpn_gw req) _ w w _ d.gateway
        ∙ ap (λ (m : Io c.World (Option String)). m w)
            (if_false _ _ _ (needs_update_of_is_changed gw unchanged))

    deploy_settled : deploy p r c req gw none w ≡ ret ((SyncState.success, none), w)
    unfolding deploy after_workload finish
    deploy_settled =
        >>=-of_ret (handle_workload p r c req gw none) _ w w _ handle_workload-settled
        ∙ >>=-of_ret (refresh c req gw) _ w w _ refresh_settled
        ∙ >>=-of_ret (update_vpn_gw p r c req none) _ w w _ update_settled

    handle_valid-settled : handle_valid p r c req gw w ≡ ret ((SyncState.success, none), w)
    unfolding handle_valid
    handle_valid-settled =
        ap (λ (m : Io c.World Outcome). m w)
          (if_false (gw.spec.keepalived != "") _ _ (ground (arith, d.no_keepalived)))
        ∙ deploy_settled

-- A gateway without keepalived and IPSec, whose workload exists and whose status is that of its
-- spec, is left alone: the handler succeeds, and the cluster is as it was.
pub handle_add_or_update-settled :
    (p : Platform) (r : Config) (c : Client) (req : NamespacedName) (gw : VpnGw) (w : c.World)
    → IsDeployed p r c req gw w
    → is_changed gw none ≡ false
    → handle_add_or_update p r c req w ≡ ret ((SyncState.success, none), w)
unfolding handle_add_or_update handle_fetched fetched_vpn_gw
handle_add_or_update-settled p r c req gw w d unchanged =
    >>=-of_ret (c.get_vpn_gw req) _ w w _ d.gateway
    ∙ ap (λ (e : Option String). unless_invalid p r c e (handle_valid p r c req gw) w)
        ((validate_vpn_gw_iff gw.spec).1 d.deployable)
    ∙ handle_valid-settled p r c req gw w d unchanged
