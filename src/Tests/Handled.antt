-- ===== src/Tests/Handled.antt =====
-- The gateway's handler over a small cluster.
use kube_combo.Prelude.{String, ◌≡◌, refl, Bool, true, none, some, List, [], ◌∷◌, ◌++◌}
use kube_combo.Prelude.{if◌then◌else◌, ◌==◌, ret, ok, Reply, found, not_found, bool_eq, nat_eq}
use kube_combo.Prelude.{string_eq, option_eq, list_eq}
use kube_combo.Api.Meta.{ObjectMeta}
use kube_combo.Api.VpnGw.{VpnGw}
use kube_combo.Sync.{SyncState}
use kube_combo.VpnGw.Client.{Client, ExecResult}
use kube_combo.VpnGw.Handler.{handle_add_or_update}
use kube_combo.VpnGw.Handler.Settled.{IsDeployed, handle_add_or_update-settled}
use kube_combo.Tests.Samples.{gateway, config, platform, request, meta_of}
use kube_combo.Tests.Gateway.{deployable, settled}

-- The stored gateway, whether it has its workload, and the kinds of the writes so far.
record Cluster : Type 0 where
  gw : VpnGw
  has_workload : Bool
  log : List String

abbrev get_workload : Cluster → Reply ObjectMeta
get_workload w = if w.has_workload then found (meta_of "gw") else not_found "workload not found"

abbrev logged : String → Cluster → Cluster
logged entry w = record w { log = w.log ++ (entry ∷ []) }

abbrev created : String → Cluster → Cluster
created entry w = record (logged entry w) { has_workload = true }

-- A pod named "bad" fails.
abbrev run_in : String → ExecResult
run_in pod = record {
  std_output = "";
  err_output = "";
  error = if pod == "bad" then some "exec failed" else none;
}

abbrev cluster : Client
cluster = record {
  World = Cluster;
  get_vpn_gw = λ req w. ret (found w.gw, w);
  get_keepalived = λ req w. ret (not_found "keepalived not found", w);
  get_stateful_set = λ req w. ret (get_workload w, w);
  create_stateful_set = λ sts w. ret (none, created "create statefulset" w);
  update_stateful_set = λ sts w. ret (none, logged "update statefulset" w);
  get_daemonset = λ req w. ret (get_workload w, w);
  create_daemonset = λ ds w. ret (none, created "create daemonset" w);
  update_daemonset = λ ds w. ret (none, logged "update daemonset" w);
  list_ipsec_conns = λ labels w. ret (ok [], w);
  list_pods = λ ns labels w. ret (ok [], w);
  exec = λ ns pod container cmd w. ret (run_in pod, logged pod w);
  update_status = λ gw w. ret (none, record w { gw = record (w.gw) { status = gw.status } });
}

abbrev deployed : Cluster
deployed = record { gw = gateway; has_workload = true; log = [] }

gateway-IsDeployed : IsDeployed platform config cluster request gateway deployed
gateway-IsDeployed = record {
  gateway = refl;
  deployable = deployable;
  no_keepalived = refl;
  no_ipsec = refl;
  meta = meta_of "gw";
  stateful_set = λ e. refl;
  daemonset = λ e. refl;
}

handle_add_or_update-settled_example :
    handle_add_or_update platform config cluster request deployed
    ≡ ret ((SyncState.success, none), deployed)
handle_add_or_update-settled_example =
    handle_add_or_update-settled platform config cluster request gateway deployed gateway-IsDeployed
      settled
