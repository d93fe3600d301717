-- ===== src/Debugger/Handler/Converged.antt =====
-- What the event after a success does to a debugger.
use kube_combo.Prelude.{◌≡◌, sym, ap, ◌∙◌, Option, none, some, ret, Reply, found, not_found, failed}
use kube_combo.Prelude.{>>=-ret, subst, ret-world, bool_eq, nat_eq, string_eq, option_eq, list_eq}
use kube_combo.Api.Meta.{NamespacedName}
use kube_combo.Api.Debugger.{Debugger}
use kube_combo.Sync.{SyncState}
use kube_combo.Workload.Builder.{Platform}
use kube_combo.Debugger.Handler.{Client, Outcome, fetched_debugger}
use kube_combo.Debugger.Handler.{handle_fetched, handle_add_or_update}
use kube_combo.Debugger.Handler.Settled.{handle_debugger-settled}
use kube_combo.Debugger.Handler.Landed.{Shows, IsStore, InStep, handled-InStep}

module _ (p : Platform) (c : Client) (req : NamespacedName) (view : c.World → Option Debugger)
    (store : IsStore c req view) where
  -- An event on a debugger that is in step changes nothing.
  InStep-settled :
      (r : Reply Debugger) (w v : c.World) (o : Outcome)
      → InStep (view w)
      → Shows r (view w)
      → c.get_debugger req w ≡ ret (r, w)
      → handle_fetched p c req (fetched_debugger r) w ≡ ret (o, v)
      → handle_add_or_update p c req w ≡ ret (o, v)
      → w ≡ v
  unfolding handle_fetched fetched_debugger
  InStep-settled (failed e) w v o in_step shown get h whole =
      ret-world (SyncState.error_no_retry, some e) o w v h
  InStep-settled (not_found e) w v o in_step shown get h whole =
      ret-world (SyncState.success, none) o w v h
  InStep-settled (found d) w v o in_step shown get h whole =
      handle_debugger-settled p c req d store.get_config_map_keeps store.get_pinger_keeps
        (subst InStep shown in_step) w v o get whole

  event-InStep-settled :
      (w v : c.World) (o : Outcome)
      → InStep (view w)
      → handle_add_or_update p c req w ≡ ret (o, v)
      → w ≡ v
  unfolding handle_add_or_update
  event-InStep-settled w v o in_step h =
      let (r, t, got, rest) =
        >>=-ret (c.get_debugger req) (λ reply. handle_fetched p c req (fetched_debugger reply)) w v
          o h in
      let (same, shown) = store.get_shows w t r got in
      InStep-settled r w v o in_step shown (got ∙ ap (λ x. ret (r, x)) (sym same))
        (ap (handle_fetched p c req (fetched_debugger r)) same ∙ rest) h

  -- After an event that succeeds, the next event changes nothing, if reads show what is stored and
  -- a status that was written is stored.
  pub handle_debugger-converges :
      (w v u : c.World) (o : Outcome)
      → handle_add_or_update p c req w ≡ ret ((SyncState.success, none), v)
      → handle_add_or_update p c req v ≡ ret (o, u)
      → v ≡ u
  unfolding handle_add_or_update
  handle_debugger-converges w v u o first second =
      let (r, t, got, rest) =
        >>=-ret (c.get_debugger req) (λ reply. handle_fetched p c req (fetched_debugger reply)) w v
          (SyncState.success, none) first in
      let (same, shown) = store.get_shows w t r got in
      event-InStep-settled v u o
        (handled-InStep p c req view store r t v (subst (λ x. Shows r (view x)) same shown) rest)
        second
