-- ===== src/Debugger/Handler/Guarded.antt =====
-- Which writes the debugger's handler makes, and on what condition.
use kube_combo.Prelude.{String, ◌≡◌, refl, ap, ◌∙◌, ◌≢◌, true, not, Option, none, some, arith, ◌==◌}
use kube_combo.Prelude.{◌!=◌, Go, ret, Io, ◌>>=◌, lift, Result, ok, err, Reply, found, not_found}
use kube_combo.Prelude.{failed, Keeps, pure-Keeps, >>=-Keeps, lift-Keeps, if-Keeps, >>=-Keeps_from}
use kube_combo.Prelude.{Returns, bool_eq, nat_eq, string_eq, option_eq, list_eq}
use kube_combo.Api.Meta.{ObjectMeta, NamespacedName}
use kube_combo.Api.Debugger.{Debugger}
use kube_combo.Api.Pinger.{Pinger}
use kube_combo.Sync.{SyncState}
use kube_combo.Workload.Builder.{Platform}
use kube_combo.Debugger.Validate.{IsDeployable, validate_debugger, validate_debugger_iff}
use kube_combo.Debugger.Validate.{validate_pinger, validate_pinger_iff}
use kube_combo.Debugger.Status.{is_changed, needs_update}
use kube_combo.Debugger.Volumes.{Mounted}
use kube_combo.Debugger.Volumes.{get_volumes_mounts}
use kube_combo.Debugger.Volumes.Paired.{get_volumes_mounts-IsPaired}
use kube_combo.Debugger.Build.{get_debugger_pod, get_debugger_daemonset}
use kube_combo.Debugger.Handler.{Client, Outcome, fetched_debugger, fetched_pinger, pinger_key}
use kube_combo.Debugger.Handler.{apply_pod, apply_daemonset, handle_workload}
use kube_combo.Debugger.Handler.{write_status, update_debugger, retry_on, after_workload, deploy}
use kube_combo.Debugger.Handler.{unless_invalid, deploy_with, handle_pinger}
use kube_combo.Debugger.Handler.{handle_valid, handle_fetched, handle_add_or_update}
use kube_combo.Debugger.Handler.Mapped.{with_config_map-Keeps, get_volumes_mounts-Keeps}
use kube_combo.Debugger.Handler.Allowed.{IsReady, IsAsked, Allows}

fetched_found :
    (reply : Reply Debugger) (d : Debugger) → fetched_debugger reply ≡ ok (some d) → reply ≡ found d
unfolding fetched_debugger
fetched_found (found x) d h = cc
fetched_found (not_found e) d h = cc
fetched_found (failed e) d h = cc

pinger_found : (reply : Reply Pinger) (p : Pinger) → fetched_pinger reply ≡ ok p → reply ≡ found p
unfolding fetched_pinger
pinger_found (found x) p h = cc
pinger_found (not_found e) p h = cc
pinger_found (failed e) p h = cc

module _ (p : Platform) (c : Client) (req : NamespacedName) (R : c.World → c.World → Type 0)
    (allows : Allows p c req R) where
  unless_invalid-Keeps :
      (e : Option String) {rest : Io c.World Outcome}
      → (e ≡ none → Keeps R rest)
      → Keeps R (unless_invalid p c e rest)
  unless_invalid-Keeps (some e) k = pure-Keeps R allows.order (SyncState.error_no_retry, some e)
  unless_invalid-Keeps none k = k refl

  write_status-Keeps :
      (res : Result (Option Debugger))
      → ((d : Debugger) → res ≡ ok (some d) → Returns (c.get_debugger req) (found d))
      → Keeps R (write_status p c res)
  unfolding write_status
  write_status-Keeps (err e) read = pure-Keeps R allows.order (some e)
  write_status-Keeps (ok none) read = pure-Keeps R allows.order none
  write_status-Keeps (ok (some d)) read =
      if-Keeps R allows.order (needs_update d)
        (λ yes_eq. allows.update_status d (read d refl) yes_eq)
        (λ no_eq. pure-Keeps R allows.order none)

  -- What is read under the key of the event.
  with_debugger-Keeps {ℓ} :
      {A : Type ℓ} (f : Reply Debugger → Io c.World A)
      → ((reply : Reply Debugger)
          → ((d : Debugger)
              → fetched_debugger reply ≡ ok (some d)
              → Returns (c.get_debugger req) (found d))
          → Keeps R (f reply))
      → Keeps R (c.get_debugger req >>= f)
  with_debugger-Keeps f k =
      >>=-Keeps_from R allows.order (c.get_debugger req) f allows.get_debugger (λ reply u v got.
        k reply (λ d h. (u, v, got ∙ ap (λ x. ret (x, v)) (fetched_found reply d h))))

  after_workload-Keeps : (e : Option String) → Keeps R (after_workload p c req e)
  unfolding after_workload update_debugger
  after_workload-Keeps (some e) = pure-Keeps R allows.order (SyncState.error, some e)
  after_workload-Keeps none =
      >>=-Keeps R allows.order (update_debugger p c req) _
        (with_debugger-Keeps (λ reply. write_status p c (fetched_debugger reply))
          (λ reply read. write_status-Keeps (fetched_debugger reply) read))
        (λ e. pure-Keeps R allows.order (retry_on p c e))

  module _ (d : Debugger) (read : Returns (c.get_debugger req) (found d))
      (deployable : IsDeployable d) where
    module _ (pinger : Option Pinger) (ready : IsReady c d pinger)
        (changed : is_changed d ≡ true) where
      -- A write of what is built with the volumes that were read.
      built_write-Keeps {ℓ} :
          {A : Type ℓ} (build : Mounted → Go A) (write : A → Io c.World (Option String))
          → ((mounted : Mounted) (a : A)
              → IsAsked c req d pinger mounted
              → build mounted ≡ ret a
              → Keeps R (write a))
          → Keeps R (get_volumes_mounts c.get_config_map d >>= λ m. lift (build m) >>= write)
      built_write-Keeps build write k =
          >>=-Keeps_from R allows.order (get_volumes_mounts c.get_config_map d) _
            (get_volumes_mounts-Keeps p c req R allows d)
            (λ m u v got.
              lift-Keeps R allows.order (build m) write (λ a built. k m a (asked m u v got) built))
        where
          asked :
              (m : Mounted) (u v : c.World)
              → get_volumes_mounts c.get_config_map d u ≡ ret (m, v)
              → IsAsked c req d pinger m
          asked m u v got = record {
            read = read;
            deployable = deployable;
            ready = ready;
            changed = changed;
            volumes = (u, v, got);
            paired = get_volumes_mounts-IsPaired c.get_config_map d u v m got;
          }

      apply_pod-Keeps :
          (reply : Reply ObjectMeta)
          → d.spec.workload_type ≡ "pod"
          → Returns (c.get_pod req) reply
          → Keeps R (apply_pod p c d pinger reply)
      unfolding apply_pod
      apply_pod-Keeps (failed e) type got = pure-Keeps R allows.order (some e)
      apply_pod-Keeps (not_found e) type got =
          built_write-Keeps (get_debugger_pod p d pinger none) c.create_pod
            (λ m pod a built. allows.create_pod d pinger m e pod a type got built)
      apply_pod-Keeps (found old) type got =
          if-Keeps R allows.order (is_changed d)
            (λ _.
              built_write-Keeps (get_debugger_pod p d pinger (some old)) c.update_pod
                (λ m pod a built. allows.update_pod d pinger m old pod a type got built))
            (λ _. pure-Keeps R allows.order none)

      apply_daemonset-Keeps :
          (reply : Reply ObjectMeta)
          → d.spec.workload_type ≡ "daemonset"
          → Returns (c.get_daemonset req) reply
          → Keeps R (apply_daemonset p c d pinger reply)
      unfolding apply_daemonset
      apply_daemonset-Keeps (failed e) type got = pure-Keeps R allows.order (some e)
      apply_daemonset-Keeps (not_found e) type got =
          built_write-Keeps (get_debugger_daemonset p d pinger none) c.create_daemonset
            (λ m ds a built. allows.create_daemonset d pinger m e ds a type got built)
      apply_daemonset-Keeps (found old) type got =
          if-Keeps R allows.order (is_changed d)
            (λ _.
              built_write-Keeps (get_debugger_daemonset p d pinger (some old)) c.update_daemonset
                (λ m ds a built. allows.update_daemonset d pinger m old ds a type got built))
            (λ _. pure-Keeps R allows.order none)

      handle_workload-Keeps : Keeps R (handle_workload p c req d pinger)
      unfolding handle_workload
      handle_workload-Keeps =
          if-Keeps R allows.order (d.spec.workload_type == "pod")
            (λ type.
              >>=-Keeps_from R allows.order (c.get_pod req) _ allows.get_pod
                (λ reply u v got. apply_pod-Keeps reply (ground arith) (u, v, got)))
            (λ other.
              >>=-Keeps_from R allows.order (c.get_daemonset req) _ allows.get_daemonset
                (λ reply u v got.
                  apply_daemonset-Keeps reply (ground (arith, deployable.type)) (u, v, got)))

    deploy-Keeps : (pinger : Option Pinger) → IsReady c d pinger → Keeps R (deploy p c req d pinger)
    unfolding deploy
    deploy-Keeps pinger ready =
        if-Keeps R allows.order (not (is_changed d))
          (λ _. pure-Keeps R allows.order (SyncState.success, none))
          (λ changed.
            >>=-Keeps R allows.order (handle_workload p c req d pinger) _
              (handle_workload-Keeps pinger ready (ground arith)) (λ e. after_workload-Keeps e))

    deploy_with-Keeps :
        (res : Result Pinger)
        → d.spec.pinger ≢ ""
        → ((q : Pinger)
            → res ≡ ok q
            → Returns
                (c.get_pinger (record { namespace = d.meta.namespace; name = d.spec.pinger }))
                (found q))
        → Keeps R (deploy_with p c req d res)
    unfolding deploy_with
    deploy_with-Keeps (err e) named shown = pure-Keeps R allows.order (SyncState.error, some e)
    deploy_with-Keeps (ok q) named shown =
        unless_invalid-Keeps (validate_pinger q d.spec.enable_pinger) (λ good.
          deploy-Keeps (some q)
            (named, shown q refl, (validate_pinger_iff q d.spec.enable_pinger).0 good))

    handle_pinger-Keeps : Keeps R (handle_pinger p c req d)
    unfolding handle_pinger
    handle_pinger-Keeps =
        if-Keeps R allows.order (d.spec.pinger != "")
          (λ given.
            >>=-Keeps_from R allows.order (c.get_pinger (pinger_key d)) _ (allows.get_pinger _)
              (λ reply u v got.
                deploy_with-Keeps (fetched_pinger reply) (ground arith)
                  (λ q h. (u, v, got ∙ ap (λ x. ret (x, v)) (pinger_found reply q h)))))
          (λ absent. deploy-Keeps none (ground arith))

    handle_valid-Keeps : Keeps R (handle_valid p c req d)
    unfolding handle_valid
    handle_valid-Keeps = with_config_map-Keeps p c req R allows _ _ _ _ (
        with_config_map-Keeps p c req R allows _ _ _ _
          (with_config_map-Keeps p c req R allows _ _ _ _ handle_pinger-Keeps))

  handle_fetched-Keeps :
      (res : Result (Option Debugger))
      → ((d : Debugger) → res ≡ ok (some d) → Returns (c.get_debugger req) (found d))
      → Keeps R (handle_fetched p c req res)
  unfolding handle_fetched
  handle_fetched-Keeps (err e) read = pure-Keeps R allows.order (SyncState.error_no_retry, some e)
  handle_fetched-Keeps (ok none) read = pure-Keeps R allows.order (SyncState.success, none)
  handle_fetched-Keeps (ok (some d)) read =
      unless_invalid-Keeps (validate_debugger d)
        (λ good. handle_valid-Keeps d (read d refl) ((validate_debugger_iff d).0 good))

-- Whatever the handler of an event does to the cluster is in every relation that holds of the reads
-- and of the writes that are asked for, where a read of the cluster returns a value if it does so
-- from some state. It writes the pod or the daemonset that the builder gives for a debugger that the
-- read under the event's key returns, only if this debugger can be deployed and counts as changed,
-- with the volumes of its config maps, which are just what the containers mount, and with no pinger
-- if it names none, else with the one that the read under that name in its namespace returns, which
-- has an image and a target if the debugger runs it and it is not being deleted; it creates the
-- workload only if the read under the event's key returns that there is none, and updates it only if
-- one is returned. It writes the status only of a debugger that the read under the event's key
-- returns, and where it differs.
pub handle_debugger-Keeps :
    (p : Platform) (c : Client) (req : NamespacedName) (R : c.World → c.World → Type 0)
    → Allows p c req R
    → Keeps R (handle_add_or_update p c req)
unfolding handle_add_or_update
handle_debugger-Keeps p c req R allows =
    with_debugger-Keeps p c req R allows (λ reply. handle_fetched p c req (fetched_debugger reply))
      (λ reply read. handle_fetched-Keeps p c req R allows (fetched_debugger reply) read)
