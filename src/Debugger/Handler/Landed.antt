-- ===== src/Debugger/Handler/Landed.antt =====
-- A debugger's status after an event that succeeds.
use kube_combo.Prelude.{String, ◌≡◌, refl, sym, ap, ◌∙◌, ◌⊎◌, inl, inr, Bool, true, false, not}
use kube_combo.Prelude.{Option, none, some, arith, if◌then◌else◌, ◌!=◌, Go, ret, Io, ◌>>=◌, pure}
use kube_combo.Prelude.{Result, ok, err, Reply, found, not_found, failed, >>=-ret, subst, Keeps}
use kube_combo.Prelude.{ret-world, bool_eq, nat_eq, string_eq, option_eq, list_eq}
use kube_combo.Prelude.Dict.{Dict}
use kube_combo.Api.Meta.{NamespacedName}
use kube_combo.Api.Debugger.{Debugger}
use kube_combo.Api.Pinger.{Pinger}
use kube_combo.Sync.{SyncState}
use kube_combo.Workload.Builder.{Platform}
use kube_combo.Debugger.Validate.{validate_debugger, validate_pinger}
use kube_combo.Debugger.Status.{is_changed, needs_update, new_debugger, new_debugger-unchanged}
use kube_combo.Debugger.Status.{needs_update-eq-is_changed}
use kube_combo.Debugger.Handler.{Client, Outcome, fetched_debugger, fetched_pinger, pinger_key}
use kube_combo.Debugger.Handler.{config_map_error, handle_workload, write_status, update_debugger}
use kube_combo.Debugger.Handler.{retry_on, after_workload, deploy, unless_invalid, deploy_with}
use kube_combo.Debugger.Handler.{handle_pinger, unless_stopped, with_config_map, handle_valid}
use kube_combo.Debugger.Handler.{handle_fetched}
use kube_combo.Debugger.Handler.Settled.{SameWorld}

-- What a read shows of the stored debugger.
abbrev pub Shows : Reply Debugger → Option Debugger → Type 0
Shows (found d) stored = stored ≡ some d
Shows (not_found e) stored = stored ≡ none
Shows (failed e) stored = Unit

-- Reads change nothing and show what is stored, and a status that was written is stored.
pub record IsStore (c : Client) (req : NamespacedName) (view : c.World → Option Debugger)
    : Type 0 where
  pub get_shows :
      (w v : c.World) (r : Reply Debugger)
      → c.get_debugger req w ≡ ret (r, v)
      → (w ≡ v) × Shows r (view w)
  pub get_pinger_keeps : (key : NamespacedName) → Keeps SameWorld (c.get_pinger key)
  pub get_config_map_keeps : (ns name : String) → Keeps SameWorld (c.get_config_map ns name)
  pub update_stores :
      (d : Debugger) (w v : c.World) → c.update_status d w ≡ ret (none, v) → view v ≡ some d

-- There is no debugger, or its status is that of its spec.
abbrev pub InStep : Option Debugger → Type 0
InStep none = Unit
InStep (some d) = is_changed d ≡ false

if-ret :
    {W A : Type 0} (b : Bool) (m k : Io W A) (w v : W) (a : A)
    → (if b then m else k) w ≡ ret (a, v)
    → ((b ≡ true) × (m w ≡ ret (a, v))) ⊎ ((b ≡ false) × (k w ≡ ret (a, v)))
if-ret true m k w v a h = inl (refl, h)
if-ret false m k w v a h = inr (refl, h)

module _ (p : Platform) (c : Client) (req : NamespacedName) (view : c.World → Option Debugger)
    (store : IsStore c req view) where
  write_status-InStep :
      (r : Reply Debugger) (w v : c.World)
      → Shows r (view w)
      → write_status p c (fetched_debugger r) w ≡ ret (none, v)
      → InStep (view v)
  unfolding write_status fetched_debugger
  write_status-InStep (failed e) w v shown h = cc
  write_status-InStep (not_found e) w v shown h =
      subst InStep (sym shown ∙ ap view (ret-world none none w v h)) tt
  write_status-InStep (found d) w v shown h =
      elim (if-ret (needs_update d) (c.update_status (new_debugger d)) (pure none) w v none h) [
        | inl (needed, wrote) ↦
            subst InStep (sym (store.update_stores (new_debugger d) w v wrote))
              (new_debugger-unchanged d)
        | inr (in_step, kept) ↦
            subst InStep (sym shown ∙ ap view (ret-world none none w v kept))
              (sym (needs_update-eq-is_changed d) ∙ in_step)
      ]

  of_error :
      (r : Reply Debugger) (e : Option String) (t u v : c.World)
      → Shows r (view t)
      → write_status p c (fetched_debugger r) t ≡ ret (e, u)
      → ◌≡◌ {A = Go (Outcome × c.World)}
          (ret (retry_on p c e, u))
          (ret ((SyncState.success, none), v))
      → InStep (view v)
  of_error r (some e) t u v shown written last = cc
  of_error r none t u v shown written last = write_status-InStep r t v shown (
      written
      ∙ ap (λ x. ret (none, x)) (ret-world (retry_on p c none) (SyncState.success, none) u v last))

  after_workload-InStep :
      (e : Option String) (w v : c.World)
      → after_workload p c req e w ≡ ret ((SyncState.success, none), v)
      → InStep (view v)
  unfolding after_workload update_debugger
  after_workload-InStep (some e) w v h = cc
  after_workload-InStep none w v h =
      let (e, u, updated, last) =
        >>=-ret (update_debugger p c req) (λ e. pure (retry_on p c e)) w v (SyncState.success, none)
          h in
      let (r, t, got, written) =
        >>=-ret (c.get_debugger req) (λ reply. write_status p c (fetched_debugger reply)) w u e
          updated in
      let (same, shown) = store.get_shows w t r got in
      of_error r e t u v (subst (λ x. Shows r (view x)) same shown) written last

  -- A part of the handler that ends in step if it succeeds.
  abbrev Lands : Debugger → Io c.World Outcome → Type 0
  Lands d m =
      (w v : c.World) → view w ≡ some d → m w ≡ ret ((SyncState.success, none), v) → InStep (view v)

  deploy-Lands : (d : Debugger) (pinger : Option Pinger) → Lands d (deploy p c req d pinger)
  unfolding deploy
  deploy-Lands d pinger w v stored h =
      elim (if-ret (not (is_changed d)) (pure (SyncState.success, none))
        (handle_workload p c req d pinger >>= after_workload p c req) w v (SyncState.success, none)
        h) [
          | inl (unchanged, kept) ↦
              subst InStep
                (sym stored
                  ∙ ap view
                      (ret-world (SyncState.success, none) (SyncState.success, none) w v kept))
                (ground arith)
          | inr (changed, ran) ↦
              let (e, u, worked, rest) =
                >>=-ret (handle_workload p c req d pinger) (after_workload p c req) w v
                  (SyncState.success, none) ran in
              after_workload-InStep e u v rest
        ]

  unless_invalid-Lands :
      (d : Debugger) (e : Option String) (rest : Io c.World Outcome)
      → Lands d rest
      → Lands d (unless_invalid p c e rest)
  unless_invalid-Lands d (some e) rest lands w v stored h = cc
  unless_invalid-Lands d none rest lands w v stored h = lands w v stored h

  unless_stopped-Lands :
      (d : Debugger) (name : String) (r : Result (Option Dict)) (rest : Io c.World Outcome)
      → Lands d rest
      → Lands d (unless_stopped p c (config_map_error name r) rest)
  unfolding config_map_error
  unless_stopped-Lands d name (err e) rest lands w v stored h = cc
  unless_stopped-Lands d name (ok none) rest lands w v stored h = cc
  unless_stopped-Lands d name (ok (some entries)) rest lands w v stored h = lands w v stored h

  -- A read before a part.
  after_read-Lands :
      {A : Type 0} (d : Debugger) (read : Io c.World A) (rest : A → Io c.World Outcome)
      → Keeps SameWorld read
      → ((a : A) → Lands d (rest a))
      → Lands d (read >>= rest)
  after_read-Lands d read rest keeps lands w v stored h =
      let (a, u, got, next) = >>=-ret read rest w v (SyncState.success, none) h in
      lands a u v (ap view (sym (keeps w u a got)) ∙ stored) next

  with_config_map-Lands :
      (d : Debugger) (needed : Bool) (ns name : String) (rest : Io c.World Outcome)
      → Lands d rest
      → Lands d (with_config_map p c needed ns name rest)
  unfolding with_config_map
  with_config_map-Lands d true ns name rest lands =
      after_read-Lands d (c.get_config_map ns name)
        (λ cm. unless_stopped p c (config_map_error name cm) rest)
        (store.get_config_map_keeps ns name) (λ cm. unless_stopped-Lands d name cm rest lands)
  with_config_map-Lands d false ns name rest lands = lands

  deploy_with-Lands : (d : Debugger) (r : Result Pinger) → Lands d (deploy_with p c req d r)
  unfolding deploy_with
  deploy_with-Lands d (err e) w v stored h = cc
  deploy_with-Lands d (ok pinger) w v stored h =
      unless_invalid-Lands d (validate_pinger pinger d.spec.enable_pinger)
        (deploy p c req d (some pinger)) (deploy-Lands d (some pinger)) w v stored h

  if-Lands :
      (d : Debugger) (b : Bool) (m k : Io c.World Outcome)
      → Lands d m
      → Lands d k
      → Lands d (if b then m else k)
  if-Lands d true m k f g = f
  if-Lands d false m k f g = g

  handle_valid-Lands : (d : Debugger) → Lands d (handle_valid p c req d)
  unfolding handle_valid handle_pinger
  handle_valid-Lands d = with_config_map-Lands d _ _ _ _ (
      with_config_map-Lands d _ _ _ _ (
        with_config_map-Lands d _ _ _ _ (
          if-Lands d (d.spec.pinger != "") _ _
            (after_read-Lands d (c.get_pinger (pinger_key d))
              (λ reply. deploy_with p c req d (fetched_pinger reply))
              (store.get_pinger_keeps (pinger_key d))
              (λ reply. deploy_with-Lands d (fetched_pinger reply)))
            (deploy-Lands d none))))

  pub handled-InStep :
      (r : Reply Debugger) (w v : c.World)
      → Shows r (view w)
      → handle_fetched p c req (fetched_debugger r) w ≡ ret ((SyncState.success, none), v)
      → InStep (view v)
  unfolding handle_fetched fetched_debugger
  handled-InStep (failed e) w v shown h = cc
  handled-InStep (not_found e) w v shown h =
      subst InStep
        (sym shown ∙ ap view (ret-world (SyncState.success, none) (SyncState.success, none) w v h))
        tt
  handled-InStep (found d) w v shown h =
      unless_invalid-Lands d (validate_debugger d) (handle_valid p c req d) (handle_valid-Lands d) w
        v shown h
