-- ===== src/Tests/Streams.antt =====
-- The refresh of three pods, of which the second refuses the command.
use kube_combo.Prelude.{String, ◌≡◌, refl, sym, none, some, List, [], ◌∷◌, ◌++◌, if◌then◌else◌}
use kube_combo.Prelude.{◌==◌, ret, ok, not_found, ret-world, bool_eq, nat_eq, string_eq, option_eq}
use kube_combo.Prelude.{list_eq}
use kube_combo.VpnGw.Client.{Client, ExecResult}
use kube_combo.VpnGw.Refresh.{refresh_pods, exec_error}
use kube_combo.VpnGw.Exec.{
  ExecRequest, Executor, execute, execute_with_options, execute_command_in_container, with_exec,
}
use kube_combo.VpnGw.Exec.Streamed.{request_for, LogsStreams, Streamed, refresh_pods-Streamed}
use kube_combo.Text.Words.{trim_space, trim_left, trim_right}
use kube_combo.Tests.Samples.{gateway}

-- The world is the list of the streams so far.
abbrev cluster : Client
cluster = record {
  World = List ExecRequest;
  get_vpn_gw = λ req w. ret (not_found "not found", w);
  get_keepalived = λ req w. ret (not_found "not found", w);
  get_stateful_set = λ req w. ret (not_found "not found", w);
  create_stateful_set = λ o w. ret (none, w);
  update_stateful_set = λ o w. ret (none, w);
  get_daemonset = λ req w. ret (not_found "not found", w);
  create_daemonset = λ o w. ret (none, w);
  update_daemonset = λ o w. ret (none, w);
  list_ipsec_conns = λ labels w. ret (ok [], w);
  list_pods = λ ns labels w. ret (ok [], w);
  exec =
      λ ns pod container cmd w. ret (record { std_output = ""; err_output = ""; error = none }, w);
  update_status = λ gw w. ret (none, w);
}

abbrev outcome : String → ExecResult
outcome pod = record {
  std_output = "";
  err_output = "";
  error = if pod == "bad" then some "exit 1" else none;
}

abbrev executor : Executor (List ExecRequest)
executor = record {
  new_spdy_executor = λ request. none;
  stream = λ request w. ret (outcome request.name, w ++ request ∷ []);
}

executor-LogsStreams : LogsStreams executor (λ w. w)
executor-LogsStreams request w v out h =
    sym (ret-world (outcome request.name) out (w ++ request ∷ []) v h)

abbrev streamed : List ExecRequest
streamed = request_for gateway "true" "gw-0" ∷ request_for gateway "true" "bad" ∷ []

refreshed :
    refresh_pods (with_exec cluster executor) gateway "true" ("gw-0" ∷ "bad" ∷ "gw-2" ∷ []) []
    ≡ ret (some "exit 1", streamed)
unfolding refresh_pods exec_error execute_command_in_container execute_with_options execute
    trim_space trim_left trim_right string_eq
refreshed = refl

refresh_pods-Streamed_example :
    Streamed cluster executor
      (λ w. w)
      executor-LogsStreams
      gateway
      "true"
      ("gw-0" ∷ "bad" ∷ "gw-2" ∷ [])
      []
      streamed
      (some "exit 1")
refresh_pods-Streamed_example =
    refresh_pods-Streamed cluster executor (λ w. w) executor-LogsStreams gateway "true"
      ("gw-0" ∷ "bad" ∷ "gw-2" ∷ []) [] streamed (some "exit 1") refreshed
