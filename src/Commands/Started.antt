-- ===== src/Commands/Started.antt =====
-- What the controller has set up when it starts.
use kube_combo.Prelude.{String, ◌≡◌, refl, sym, ap, ◌∙◌, ◌⊎◌, inl, inr, Bool, true, false, Option}
use kube_combo.Prelude.{none, some, List, [], ◌∷◌, ◌++◌, map, ret, Io, pure, >>=-ret, ret-world}
use kube_combo.Prelude.{ret-value, bool_eq, nat_eq, string_eq, option_eq, list_eq}
use mathlib.Core.List.{append-nil, append_assoc}
use kube_combo.Commands.Controller.{Flags, Call, new_kube_client, new_manager, setup_vpn_gw}
use kube_combo.Commands.Controller.{setup_controller, setup_webhook, add_healthz, add_readyz, start}
use kube_combo.Commands.Controller.{vpn_gw, ipsec_conn, keep_alived, debugger, pinger, Ended}
use kube_combo.Commands.Controller.{stopped, exited, vpn_gw_config, manager_options, unless_exited}
use kube_combo.Commands.Controller.{or_exit, start_manager, with_webhooks, cmd_main}

abbrev webhook_calls : Bool → List Call
webhook_calls false = []
webhook_calls true =
    setup_webhook vpn_gw
    ∷ setup_webhook ipsec_conn
    ∷ setup_webhook keep_alived
    ∷ setup_webhook debugger
    ∷ setup_webhook pinger
    ∷ []

-- The five reconcilers, the five webhooks if they are enabled, the health checks, and the start.
abbrev pub plan : Flags → List Call
plan flags =
    new_kube_client
    ∷ new_manager (manager_options flags)
    ∷ setup_vpn_gw (vpn_gw_config flags)
    ∷ setup_controller ipsec_conn
    ∷ setup_controller keep_alived
    ∷ setup_controller debugger
    ∷ setup_controller pinger
    ∷ (webhook_calls flags.enable_webhooks ++ add_healthz ∷ add_readyz ∷ start ∷ [])

module _ {W : Type 0} (call : Call → Io W (Option String)) where
  -- The calls in their order, up to the first that fails.
  unfoldable run_all : List Call → Io W Ended
  run_all [] = pure stopped
  run_all (c ∷ cs) = or_exit call c (run_all cs)

  with_webhooks-run_all :
      (b : Bool)
      → with_webhooks call b (start_manager call)
        ≡ run_all (webhook_calls b ++ add_healthz ∷ add_readyz ∷ start ∷ [])
  unfolding run_all
  with_webhooks-run_all true = refl
  with_webhooks-run_all false = refl

  cmd_main-run_all : (flags : Flags) → cmd_main call flags ≡ run_all (plan flags)
  unfolding cmd_main run_all
  cmd_main-run_all flags = rw (with_webhooks-run_all flags.enable_webhooks) refl

-- A call that was made, with its error.
abbrev pub Made : Type 0
Made = Call × Option String

-- Each call is logged with its answer.
abbrev pub Logs : {W : Type 0} → (Call → Io W (Option String)) → (W → List Made) → Type 0
Logs {W} call log =
    (c : Call) (w v : W) (e : Option String) → call c w ≡ ret (e, v) → log v ≡ log w ++ (c, e) ∷ []

abbrev with_answer : Call → Option String → Made
with_answer c e = (c, e)

-- The calls were made one after the other, and none failed.
abbrev pub succeeded : List Call → List Made
succeeded = map (λ (c : Call). with_answer c none)

-- The calls behind the log `before`: all succeeded and the program returned, or some succeeded, the
-- next one failed, none was made after it, and the program exited.
abbrev pub Followed : List Call → Ended → List Made → List Made → Type 0
Followed cs x before after =
    ((x ≡ stopped) × (after ≡ before ++ succeeded cs))
    ⊎ ((done : List Call) × (c : Call) × (e : String) × (left : List Call) × (x ≡ exited)
        × (cs ≡ done ++ c ∷ left)
        × (after ≡ before ++ (succeeded done ++ (c, some e) ∷ [])))

-- A call that succeeded before the others.
Followed-made :
    (c : Call) (cs : List Call) (x : Ended) (before middle after : List Made)
    → middle ≡ before ++ (c, none) ∷ []
    → Followed cs x middle after
    → Followed (c ∷ cs) x before after
Followed-made c cs x before middle after log (inl (returned, all)) = inl (
  returned,
  all ∙ ap (λ ms. ms ++ succeeded cs) log ∙ append_assoc before ((c, none) ∷ []) (succeeded cs),
)
Followed-made c cs x before middle after log (inr (done, d, e, left, ended, split, made)) = inr (
  c ∷ done,
  d,
  e,
  left,
  ended,
  ap (λ ds. c ∷ ds) split,
  made
      ∙ ap (λ ms. ms ++ (succeeded done ++ (d, some e) ∷ [])) log
      ∙ append_assoc before ((c, none) ∷ []) (succeeded done ++ (d, some e) ∷ []),
)

module _ {W : Type 0} (call : Call → Io W (Option String)) (log : W → List Made)
    (logs : Logs call log) where
  run_all-Followed :
      (cs : List Call) (x : Ended) (w v : W)
      → run_all call cs w ≡ ret (x, v)
      → Followed cs x (log w) (log v)
  unfolding run_all
  run_all-Followed [] x w v h = inl (
    sym (ret-value stopped x w v h),
    sym (append-nil (log w) ∙ ap log (ret-world stopped x w v h)),
  )
  run_all-Followed (c ∷ cs) x w v h =
      let (e, u, first, next) = >>=-ret (call c) (unless_exited call (run_all call cs)) w v x h in
      of_call e u (logs c w u e first) (run_all-Followed cs x u v) next
    where
      of_call :
          (e : Option String) (u : W)
          → log u ≡ log w ++ (c, e) ∷ []
          → (run_all call cs u ≡ ret (x, v) → Followed cs x (log u) (log v))
          → unless_exited call (run_all call cs) e u ≡ ret (x, v)
          → Followed (c ∷ cs) x (log w) (log v)
      of_call (some e) u made later next = inr (
        [],
        c,
        e,
        cs,
        sym (ret-value exited x u v next),
        refl,
        ap log (sym (ret-world exited x u v next)) ∙ made,
      )
      of_call none u made later next =
          Followed-made c cs x (log w) (log u) (log v) made (later next)

  -- If each call is logged with its answer, then of a start that ends, either the program returned
  -- and every call of the plan, the start of the manager being its last, was made in this order
  -- and succeeded; or the program exited, and the calls of the plan were made up to one that
  -- failed, all before it succeeded, and none after it was made.
  pub cmd_main-Starts :
      (flags : Flags) (x : Ended) (w v : W)
      → cmd_main call flags w ≡ ret (x, v)
      → Followed (plan flags) x (log w) (log v)
  cmd_main-Starts flags x w v h =
      run_all-Followed (plan flags) x w v (ap (λ m. m w) (sym (cmd_main-run_all call flags)) ∙ h)
