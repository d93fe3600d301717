-- ===== src/Debugger/Handler/Settled.antt =====
-- A debugger whose status is that of its spec.
use kube_combo.Prelude.{String, ◌≡◌, refl, sym, ◌∙◌, Bool, false, not, Option, none, some, arith}
use kube_combo.Prelude.{◌!=◌, ret, Io, Result, ok, err, found, >>=-of_ret, Keeps, IsPreorder}
use kube_combo.Prelude.{pure-Keeps, >>=-Keeps, if-Keeps, bool_eq, nat_eq, string_eq, option_eq}
use kube_combo.Prelude.{list_eq}
use kube_combo.Api.Meta.{NamespacedName}
use kube_combo.Api.Debugger.{Debugger}
use kube_combo.Api.Pinger.{Pinger}
use kube_combo.Sync.{SyncState}
use kube_combo.Workload.Builder.{Platform}
use kube_combo.Debugger.Validate.{validate_debugger, validate_pinger}
use kube_combo.Debugger.Status.{is_changed}
use kube_combo.Debugger.Handler.{Client, Outcome, fetched_debugger, fetched_pinger, pinger_key}
use kube_combo.Debugger.Handler.{config_map_error, deploy, unless_invalid, deploy_with}
use kube_combo.Debugger.Handler.{handle_pinger, unless_stopped, with_config_map, handle_valid}
use kube_combo.Debugger.Handler.{handle_fetched, handle_add_or_update}

abbrev pub SameWorld : {W : Type 0} → W → W → Type 0
SameWorld w v = w ≡ v

SameWorld-IsPreorder : {W : Type 0} → IsPreorder (SameWorld {W = W})
SameWorld-IsPreorder {W} = record { rests = λ w. refl; follows = λ u v w p q. p ∙ q }

module _ (p : Platform) (c : Client) (req : NamespacedName) (d : Debugger)
    (get_config_map : (ns name : String) → Keeps SameWorld (c.get_config_map ns name))
    (get_pinger : (key : NamespacedName) → Keeps SameWorld (c.get_pinger key))
    (unchanged : is_changed d ≡ false) where
  abbrev order : IsPreorder (SameWorld {W = c.World})
  order = SameWorld-IsPreorder

  unless_invalid-SameWorld :
      (e : Option String) (rest : Io c.World Outcome)
      → Keeps SameWorld rest
      → Keeps SameWorld (unless_invalid p c e rest)
  unless_invalid-SameWorld (some e) rest k =
      pure-Keeps SameWorld order (SyncState.error_no_retry, some e)
  unless_invalid-SameWorld none rest k = k

  unless_stopped-SameWorld :
      (o : Option Outcome) (rest : Io c.World Outcome)
      → Keeps SameWorld rest
      → Keeps SameWorld (unless_stopped p c o rest)
  unless_stopped-SameWorld (some o) rest k = pure-Keeps SameWorld order o
  unless_stopped-SameWorld none rest k = k

  with_config_map-SameWorld :
      (needed : Bool) (ns name : String) (rest : Io c.World Outcome)
      → Keeps SameWorld rest
      → Keeps SameWorld (with_config_map p c needed ns name rest)
  unfolding with_config_map
  with_config_map-SameWorld needed ns name rest k =
      if-Keeps SameWorld order needed
        (λ _.
          >>=-Keeps SameWorld order (c.get_config_map ns name) _ (get_config_map ns name)
            (λ cm. unless_stopped-SameWorld (config_map_error name cm) rest k))
        (λ _. k)

  deploy-SameWorld : (pinger : Option Pinger) → Keeps SameWorld (deploy p c req d pinger)
  unfolding deploy
  deploy-SameWorld pinger =
      if-Keeps SameWorld order (not (is_changed d))
        (λ _. pure-Keeps SameWorld order (SyncState.success, none))
        (λ changed. absurd (ground arith))

  deploy_with-SameWorld : (r : Result Pinger) → Keeps SameWorld (deploy_with p c req d r)
  unfolding deploy_with
  deploy_with-SameWorld (err e) = pure-Keeps SameWorld order (SyncState.error, some e)
  deploy_with-SameWorld (ok pinger) =
      unless_invalid-SameWorld (validate_pinger pinger d.spec.enable_pinger) _
        (deploy-SameWorld (some pinger))

  handle_valid-SameWorld : Keeps SameWorld (handle_valid p c req d)
  unfolding handle_valid handle_pinger
  handle_valid-SameWorld = with_config_map-SameWorld _ _ _ _ (
      with_config_map-SameWorld _ _ _ _ (
        with_config_map-SameWorld _ _ _ _ (
          if-Keeps SameWorld order (d.spec.pinger != "")
            (λ given.
              >>=-Keeps SameWorld order (c.get_pinger (pinger_key d)) _ (get_pinger (pinger_key d))
                (λ reply. deploy_with-SameWorld (fetched_pinger reply)))
            (λ absent. deploy-SameWorld none))))

  -- A debugger whose status is that of its spec is left alone, whatever became of its pod or its
  -- daemonset: the handler writes nothing, if the reads of config maps and pingers change nothing.
  pub handle_debugger-settled :
      (w v : c.World) (o : Outcome)
      → c.get_debugger req w ≡ ret (found d, w)
      → handle_add_or_update p c req w ≡ ret (o, v)
      → w ≡ v
  unfolding handle_add_or_update handle_fetched fetched_debugger
  handle_debugger-settled w v o shown h =
      unless_invalid-SameWorld (validate_debugger d) (handle_valid p c req d) handle_valid-SameWorld
        w v o (sym (>>=-of_ret (c.get_debugger req) _ w w (found d) shown) ∙ h)
