-- ===== src/VpnGw/Exec/Streamed.antt =====
-- Which commands the refresh streams to the pods of a gateway.
use kube_combo.Prelude.{String, ◌<>◌, ◌≡◌, refl, sym, ap, ◌∙◌, ◌≢◌, ◌⊎◌, inl, inr, ◌||◌, Option}
use kube_combo.Prelude.{none, some, List, [], ◌∷◌, ◌++◌, map, arith, if◌then◌else◌, ◌!=◌, ret, pure}
use kube_combo.Prelude.{>>=-ret, ret-world, ret-value, bool_eq, nat_eq, string_eq, option_eq}
use kube_combo.Prelude.{list_eq}
use mathlib.Core.List.{append-nil, append_assoc}
use kube_combo.Api.VpnGw.{VpnGw}
use kube_combo.VpnGw.Client.{Client, ExecResult}
use kube_combo.VpnGw.Refresh.{exec_error, unless_failed, refresh_pods}
use kube_combo.VpnGw.Exec.{
  ExecRequest, Executor, request_of, trimmed, options_for, execute_by, execute,
  execute_with_options, execute_command_in_container, with_exec,
}

-- The command in the IPSec container of a pod.
abbrev pub request_for : VpnGw → String → String → ExecRequest
request_for gw cmd pod =
    request_of (options_for gw.meta.namespace pod "ipsec-vpn" ("/bin/bash" ∷ "-c" ∷ cmd ∷ []))

-- Each stream is logged, whether the command fails or not.
abbrev pub LogsStreams : {W : Type 0} → Executor W → (W → List ExecRequest) → Type 0
LogsStreams {W} executor streams =
    (request : ExecRequest) (w v : W) (out : ExecResult)
    → executor.stream request w ≡ ret (out, v)
    → streams v ≡ streams w ++ request ∷ []

failed_some : (e : String) → some e ≡ none → ⊥
failed_some e h = cc

-- A command whose error is not nil ends the refresh.
exec_error-none : (out : ExecResult) → exec_error out ≡ none → out.error ≡ none
unfolding exec_error
exec_error-none out h = of_error out.error h
  where
    of_error :
        (o : Option String)
        → (elim o as (λ _. Option String) [
          | none ↦ none
          | some e ↦
              if out.err_output != "" || out.std_output != ""
              then some ("failed to ExecuteCommandInContainer, errOutput: " <> out.err_output)
              else some e
        ])
          ≡ none
        → o ≡ none
    of_error none h = refl
    of_error (some e) h = ground arith

module _ (c : Client) (executor : Executor c.World) (streams : c.World → List ExecRequest)
    (logs : LogsStreams executor streams) (gw : VpnGw) (cmd : String) where
  -- The command was streamed to the first of the pods, and to all of them if there is no error.
  abbrev pub Streamed : List String → c.World → c.World → Option String → Type 0
  Streamed pods w v e =
      (done left : List String) × (pods ≡ done ++ left)
      × (streams v ≡ streams w ++ map (request_for gw cmd) done)
      × (e ≡ none → left ≡ [])

  -- One command: it is streamed, or its executor could not be made and there is an error.
  abbrev Sent : String → c.World → c.World → ExecResult → Type 0
  Sent pod w v out =
      (streams v ≡ streams w ++ request_for gw cmd pod ∷ [])
      ⊎ ((streams v ≡ streams w) × (out.error ≢ none))

  execute_by-Sent :
      (pod : String) (made : Option String) (w v : c.World) (out : ExecResult)
      → execute_by executor (request_for gw cmd pod) made w ≡ ret (out, v)
      → Sent pod w v out
  execute_by-Sent pod (some e) w v out h = inr (
    ap streams (sym (ret-world _ out w v h)),
    λ no_error. failed_some e (ap (λ (o : ExecResult). o.error) (ret-value _ out w v h) ∙ no_error),
  )
  execute_by-Sent pod none w v out h = inl (logs (request_for gw cmd pod) w v out h)

  Sent-same :
      (pod : String) (w u v : c.World) (raw out : ExecResult)
      → u ≡ v
      → raw.error ≡ out.error
      → Sent pod w u raw
      → Sent pod w v out
  Sent-same pod w u v raw out here same (inl sent) = inl (ap streams (sym here) ∙ sent)
  Sent-same pod w u v raw out here same (inr (kept, bad)) =
      inr (ap streams (sym here) ∙ kept, λ no_error. bad (same ∙ no_error))

  exec_lem :
      (pod : String) (w v : c.World) (out : ExecResult)
      → execute_command_in_container executor gw.meta.namespace pod "ipsec-vpn"
          ("/bin/bash" ∷ "-c" ∷ cmd ∷ [])
          w
        ≡ ret (out, v)
      → Sent pod w v out
  unfolding execute_command_in_container execute_with_options execute
  exec_lem pod w v out h =
      let (raw, u, first, rest) =
        >>=-ret (execute executor (request_for gw cmd pod)) (λ out. pure (trimmed out)) w v out h in
      Sent-same pod w u v raw out (ret-world (trimmed raw) out u v rest)
        (ap (λ (o : ExecResult). o.error) (ret-value (trimmed raw) out u v rest))
        (execute_by-Sent pod (executor.new_spdy_executor (request_for gw cmd pod)) w u raw first)

  Streamed-one :
      (pod : String) (pods : List String) (w v : c.World) (out : ExecResult) (e : Option String)
      → Sent pod w v out
      → (e ≡ none → ⊥)
      → Streamed (pod ∷ pods) w v e
  Streamed-one pod pods w v out e (inl sent) bad = (pod ∷ [], pods, refl, sent, λ z. absurd (bad z))
  Streamed-one pod pods w v out e (inr (kept, more)) bad =
      ([], pod ∷ pods, refl, kept ∙ sym (append-nil (streams w)), λ z. absurd (bad z))

  Streamed-more :
      (pod : String) (pods : List String) (w u v : c.World) (out : ExecResult) (e : Option String)
      → Sent pod w u out
      → out.error ≡ none
      → Streamed pods u v e
      → Streamed (pod ∷ pods) w v e
  Streamed-more pod pods w u v out e (inl sent) fine (done, left, split, made, all) = (
    pod ∷ done,
    left,
    ap (λ (x : List String). pod ∷ x) split,
    made
        ∙ ap (λ (x : List ExecRequest). x ++ map (request_for gw cmd) done) sent
        ∙ append_assoc (streams w) (request_for gw cmd pod ∷ []) (map (request_for gw cmd) done),
    all,
  )
  Streamed-more pod pods w u v out e (inr (kept, bad)) fine later = absurd (bad fine)

  pub refresh_pods-Streamed :
      (pods : List String) (w v : c.World) (e : Option String)
      → refresh_pods (with_exec c executor) gw cmd pods w ≡ ret (e, v)
      → Streamed pods w v e
  unfolding refresh_pods
  refresh_pods-Streamed [] w v e h = (
    [],
    [],
    refl,
    ap streams (sym (ret-world none e w v h)) ∙ sym (append-nil (streams w)),
    λ z. refl,
  )
  refresh_pods-Streamed (pod ∷ pods) w v e h =
      let (out, u, ran, rest) =
        >>=-ret (execute_command_in_container executor gw.meta.namespace pod "ipsec-vpn" _) _ w v e
          h in
      of_error out u (exec_lem pod w u out ran) (exec_error out) refl rest
        (refresh_pods-Streamed pods u v e)
    where
      of_error :
          (out : ExecResult) (u : c.World)
          → Sent pod w u out
          → (failure : Option String) → exec_error out ≡ failure
          → unless_failed
              (with_exec c executor)
              failure
              (refresh_pods (with_exec c executor) gw cmd pods)
              u
            ≡ ret (e, v)
          → (refresh_pods (with_exec c executor) gw cmd pods u ≡ ret (e, v) → Streamed pods u v e)
          → Streamed (pod ∷ pods) w v e
      of_error out u sent (some m) same k below =
          Streamed-one pod pods w v out e
            (Sent-same pod w u v out out (ret-world (some m) e u v k) refl sent)
            (λ no_error. failed_some m (ret-value (some m) e u v k ∙ no_error))
      of_error out u sent none same k below =
          Streamed-more pod pods w u v out e sent (exec_error-none out same) (below k)
