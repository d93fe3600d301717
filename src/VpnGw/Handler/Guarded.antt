-- ===== src/VpnGw/Handler/Guarded.antt =====
-- Which writes the gateway's handler makes, and on what condition.
use kube_combo.Prelude.{String, ◌≡◌, refl, ap, ◌∙◌, ◌≢◌, ◌⊎◌, false, Option, none, some, arith}
use kube_combo.Prelude.{◌==◌, ◌!=◌, Slice, ret, Io, ◌>>=◌, Result, ok, err, Reply, found, not_found}
use kube_combo.Prelude.{failed, Keeps, pure-Keeps, >>=-Keeps, lift-Keeps, if-Keeps, >>=-Keeps_from}
use kube_combo.Prelude.{Returns, bool_eq, nat_eq, string_eq, option_eq, list_eq}
use kube_combo.Api.Meta.{ObjectMeta, NamespacedName}
use kube_combo.Api.KeepAlived.{KeepAlived}
use kube_combo.Api.VpnGw.{VpnGw}
use kube_combo.Sync.{SyncState}
use kube_combo.Workload.Builder.{Platform}
use kube_combo.VpnGw.Client.{Client}
use kube_combo.VpnGw.Validate.{IsDeployable, validate_vpn_gw, validate_vpn_gw_iff}
use kube_combo.VpnGw.Validate.{validate_keepalived}
use kube_combo.VpnGw.Status.{is_changed, needs_update}
use kube_combo.VpnGw.Refresh.{Refreshed, stopped, conns, refresh}
use kube_combo.VpnGw.Refresh.Names.{AreNames, refresh-names}
use kube_combo.VpnGw.Build.Containers.{Config}
use kube_combo.VpnGw.Build.Stateful.{stateful_set_for_vpn_gw}
use kube_combo.VpnGw.Build.Daemon.{daemonset_for_vpn_gw}
use kube_combo.VpnGw.Handler.Commanded.{refresh-Keeps}
use kube_combo.VpnGw.Handler.Allowed.{IsReady, IsAsked, Allows}
use kube_combo.VpnGw.Handler.{Outcome, fetched_vpn_gw, fetched_keepalived, keepalived_key}
use kube_combo.VpnGw.Handler.{apply_stateful_set, apply_daemonset, handle_workload, write_status}
use kube_combo.VpnGw.Handler.{update_vpn_gw, finish, after_workload, deploy, deploy_with}
use kube_combo.VpnGw.Handler.{handle_valid, handle_fetched, handle_add_or_update, unless_invalid}

ka_ready :
    (ka : KeepAlived)
    → validate_keepalived ka.spec ≡ none
    → (ka.status.router_id == 0) ≡ false
    → (ka.spec.image ≢ "")
      × ((ka.spec.vip_v4 ≢ "") ⊎ (ka.spec.vip_v6 ≢ ""))
      × (ka.status.router_id ≢ 0)
unfolding validate_keepalived
ka_ready ka good id = ground arith

fetched_found :
    (reply : Reply VpnGw) (gw : VpnGw) → fetched_vpn_gw reply ≡ ok (some gw) → reply ≡ found gw
unfolding fetched_vpn_gw
fetched_found (found x) gw h = cc
fetched_found (not_found e) gw h = cc
fetched_found (failed e) gw h = cc

keepalived_found :
    (reply : Reply KeepAlived) (ka : KeepAlived)
    → fetched_keepalived reply ≡ ok ka
    → reply ≡ found ka
unfolding fetched_keepalived
keepalived_found (found x) ka h = cc
keepalived_found (not_found e) ka h = cc
keepalived_found (failed e) ka h = cc

module _ (p : Platform) (r : Config) (c : Client) (req : NamespacedName)
    (R : c.World → c.World → Type 0) (allows : Allows p r c req R) where
  unless_invalid-Keeps :
      (e : Option String) {rest : Io c.World Outcome}
      → (e ≡ none → Keeps R rest)
      → Keeps R (unless_invalid p r c e rest)
  unless_invalid-Keeps (some e) k = pure-Keeps R allows.order (SyncState.error_no_retry, some e)
  unless_invalid-Keeps none k = k refl

  -- The names are those of a gateway that was read.
  abbrev HaveNames : Slice String → Type 0
  HaveNames names = (gw : VpnGw) × Returns (c.get_vpn_gw req) (found gw) × AreNames c gw names

  write_status-Keeps :
      (names : Slice String) (res : Result (Option VpnGw))
      → HaveNames names
      → ((gw : VpnGw) → res ≡ ok (some gw) → Returns (c.get_vpn_gw req) (found gw))
      → Keeps R (write_status p r c names res)
  unfolding write_status
  write_status-Keeps names (err e) named read = pure-Keeps R allows.order (some e)
  write_status-Keeps names (ok none) named read = pure-Keeps R allows.order none
  write_status-Keeps names (ok (some gw)) named read =
      if-Keeps R allows.order (needs_update gw names)
        (λ yes_eq. allows.update_status gw names named (read gw refl) yes_eq)
        (λ no_eq. pure-Keeps R allows.order none)

  -- What is read under the key of the event.
  with_gateway-Keeps {ℓ} :
      {A : Type ℓ} (f : Reply VpnGw → Io c.World A)
      → ((reply : Reply VpnGw)
          → ((gw : VpnGw)
              → fetched_vpn_gw reply ≡ ok (some gw)
              → Returns (c.get_vpn_gw req) (found gw))
          → Keeps R (f reply))
      → Keeps R (c.get_vpn_gw req >>= f)
  with_gateway-Keeps f k =
      >>=-Keeps_from R allows.order (c.get_vpn_gw req) f allows.get_vpn_gw (λ reply u v got.
        k reply (λ gw h. (u, v, got ∙ ap (λ x. ret (x, v)) (fetched_found reply gw h))))

  finish-Keeps :
      (res : Refreshed)
      → ((names : Slice String) → res ≡ conns names → HaveNames names)
      → Keeps R (finish p r c req res)
  unfolding finish update_vpn_gw
  finish-Keeps (stopped state e) named = pure-Keeps R allows.order (state, e)
  finish-Keeps (conns names) named =
      >>=-Keeps R allows.order (update_vpn_gw p r c req names) _
        (with_gateway-Keeps (λ reply. write_status p r c names (fetched_vpn_gw reply))
          (λ reply read. write_status-Keeps names (fetched_vpn_gw reply) (named names refl) read))
        (λ e. pure-Keeps R allows.order _)

  module _ (gw : VpnGw) (read : Returns (c.get_vpn_gw req) (found gw))
      (deployable : IsDeployable gw.spec) where
    module _ (ka : Option KeepAlived) (ready : IsReady c gw ka) where
      asked : IsAsked c req gw ka
      asked = record { read = read; deployable = deployable; ready = ready }

      apply_stateful_set-Keeps :
          (reply : Reply ObjectMeta)
          → gw.spec.workload_type ≡ "statefulset"
          → Returns (c.get_stateful_set req) reply
          → Keeps R (apply_stateful_set p r c gw ka reply)
      unfolding apply_stateful_set
      apply_stateful_set-Keeps (failed e) type got = pure-Keeps R allows.order (some e)
      apply_stateful_set-Keeps (not_found e) type got =
          lift-Keeps R allows.order (stateful_set_for_vpn_gw p r gw ka none) c.create_stateful_set
            (λ sts built. allows.create_stateful_set gw ka e sts asked type got built)
      apply_stateful_set-Keeps (found old) type got =
          if-Keeps R allows.order (is_changed gw none)
            (λ yes_eq.
              lift-Keeps R allows.order (stateful_set_for_vpn_gw p r gw ka (some old))
                c.update_stateful_set
                (λ sts built. allows.update_stateful_set gw ka old sts asked type got yes_eq built))
            (λ no_eq. pure-Keeps R allows.order none)

      apply_daemonset-Keeps :
          (reply : Reply ObjectMeta)
          → gw.spec.workload_type ≢ "statefulset"
          → Returns (c.get_daemonset req) reply
          → Keeps R (apply_daemonset p r c gw ka reply)
      unfolding apply_daemonset
      apply_daemonset-Keeps (failed e) type got = pure-Keeps R allows.order (some e)
      apply_daemonset-Keeps (not_found e) type got =
          lift-Keeps R allows.order (daemonset_for_vpn_gw p r gw ka none) c.create_daemonset
            (λ ds built. allows.create_daemonset gw ka e ds asked type got built)
      apply_daemonset-Keeps (found old) type got =
          if-Keeps R allows.order (is_changed gw none)
            (λ yes_eq.
              lift-Keeps R allows.order (daemonset_for_vpn_gw p r gw ka (some old))
                c.update_daemonset
                (λ ds built. allows.update_daemonset gw ka old ds asked type got yes_eq built))
            (λ no_eq. pure-Keeps R allows.order none)

      handle_workload-Keeps : Keeps R (handle_workload p r c req gw ka)
      unfolding handle_workload
      handle_workload-Keeps =
          if-Keeps R allows.order (gw.spec.workload_type == "statefulset")
            (λ type.
              >>=-Keeps_from R allows.order (c.get_stateful_set req) _ allows.get_stateful_set
                (λ reply u v got. apply_stateful_set-Keeps reply (ground arith) (u, v, got)))
            (λ other.
              >>=-Keeps_from R allows.order (c.get_daemonset req) _ allows.get_daemonset
                (λ reply u v got. apply_daemonset-Keeps reply (ground arith) (u, v, got)))

      deploy-Keeps : Keeps R (deploy p r c req gw ka)
      unfolding deploy after_workload
      deploy-Keeps =
          >>=-Keeps R allows.order (handle_workload p r c req gw ka) _ handle_workload-Keeps after
        where
          after : (e : Option String) → Keeps R (after_workload p r c req gw e)
          after (some e) = pure-Keeps R allows.order (SyncState.error, some e)
          after none =
              >>=-Keeps_from R allows.order (refresh c req gw) _
                (refresh-Keeps p r c req R allows gw read deployable)
                (λ res u v got. finish-Keeps res (λ names h.
                  (gw, read, refresh-names c req gw u v names (got ∙ ap (λ x. ret (x, v)) h))))

    deploy_with-Keeps :
        (res : Result KeepAlived)
        → gw.spec.keepalived ≢ ""
        → ((ka : KeepAlived)
            → res ≡ ok ka
            → Returns
                (c.get_keepalived
                  (record { namespace = gw.meta.namespace; name = gw.spec.keepalived }))
                (found ka))
        → Keeps R (deploy_with p r c req gw res)
    unfolding deploy_with
    deploy_with-Keeps (err e) named shown = pure-Keeps R allows.order (SyncState.error, some e)
    deploy_with-Keeps (ok ka) named shown =
        unless_invalid-Keeps (validate_keepalived ka.spec) (λ good.
          if-Keeps R allows.order (ka.status.router_id == 0)
            (λ none_yet. pure-Keeps R allows.order (SyncState.error, none))
            (λ set.
              let (image, vip, id) = ka_ready ka good set in
              deploy-Keeps (some ka) (named, shown ka refl, image, vip, id)))

    handle_valid-Keeps : Keeps R (handle_valid p r c req gw)
    unfolding handle_valid
    handle_valid-Keeps =
        if-Keeps R allows.order (gw.spec.keepalived != "")
          (λ given.
            >>=-Keeps_from R allows.order (c.get_keepalived (keepalived_key gw)) _
              (allows.get_keepalived _)
              (λ reply u v got.
                deploy_with-Keeps (fetched_keepalived reply) (ground arith)
                  (λ ka h. (u, v, got ∙ ap (λ x. ret (x, v)) (keepalived_found reply ka h)))))
          (λ absent. deploy-Keeps none (ground arith))

  handle_fetched-Keeps :
      (res : Result (Option VpnGw))
      → ((gw : VpnGw) → res ≡ ok (some gw) → Returns (c.get_vpn_gw req) (found gw))
      → Keeps R (handle_fetched p r c req res)
  unfolding handle_fetched
  handle_fetched-Keeps (err e) read = pure-Keeps R allows.order (SyncState.error_no_retry, some e)
  handle_fetched-Keeps (ok none) read = pure-Keeps R allows.order (SyncState.success, none)
  handle_fetched-Keeps (ok (some gw)) read =
      unless_invalid-Keeps (validate_vpn_gw gw.spec)
        (λ good. handle_valid-Keeps gw (read gw refl) ((validate_vpn_gw_iff gw.spec).0 good))

-- Whatever the handler of an event does to the cluster is in every relation that holds of the reads
-- and of the writes that are asked for, where a read of the cluster returns a value if it does so
-- from some state. It writes the StatefulSet or the DaemonSet that the builder gives for a gateway
-- that the read under the event's key returns, only if this gateway can be deployed, and with no
-- keepalived if it names none, else with the one that the read under that name in its namespace
-- returns, which is complete and has a router id; it creates the workload only if the read under the
-- event's key returns that there is none, and updates it only if one is returned and the gateway
-- counts as changed. It runs commands only in pods that the list for the gateway returns, with the
-- text of the accepted connections that the list for its name returns, if it has IPSec. It writes
-- the status only of a gateway that the read under the event's key returns, where it differs, and
-- with the names of the connections that the list returns, or none without IPSec.
pub handle_add_or_update-Keeps :
    (p : Platform) (r : Config) (c : Client) (req : NamespacedName) (R : c.World → c.World → Type 0)
    → Allows p r c req R
    → Keeps R (handle_add_or_update p r c req)
unfolding handle_add_or_update
handle_add_or_update-Keeps p r c req R allows =
    with_gateway-Keeps p r c req R allows (λ reply. handle_fetched p r c req (fetched_vpn_gw reply))
      (λ reply read. handle_fetched-Keeps p r c req R allows (fetched_vpn_gw reply) read)
