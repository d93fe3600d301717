-- ===== src/Tests/Asked.antt =====
-- The gateway's handler over a cluster that records what is written: a gateway whose keepalived is
-- ready and that has no workload yet.
use kube_combo.Prelude.{String, ◌≡◌, refl, sym, ap, ◌∙◌, ◌≢◌, Bool, true, false, Option, none, some}
use kube_combo.Prelude.{List, [], ◌∷◌, arith, if◌then◌else◌, ◌==◌, Slice, Go, ret, ok, Reply, found}
use kube_combo.Prelude.{not_found, subst, ret-world, ret-value, Returns, bool_eq, nat_eq, string_eq}
use kube_combo.Prelude.{option_eq, list_eq}
use text.Mathlib.TextEquality.{eq_iff}
use kube_combo.Api.Meta.{ObjectMeta, NamespacedName}
use kube_combo.Api.KeepAlived.{KeepAlived}
use kube_combo.Api.VpnGw.{VpnGw}
use kube_combo.Sync.{SyncState}
use kube_combo.Workload.Objects.{StatefulSet}
use kube_combo.Workload.Builder.{must_parse, set_controller}
use kube_combo.Text.Decimal.{parse_int32, parse_magnitude, parse_digits}
use kube_combo.VpnGw.Client.{Client}
use kube_combo.VpnGw.Port.{get_port_int32}
use kube_combo.VpnGw.Validate.{validate_vpn_gw, validate_ssl, validate_keepalived}
use kube_combo.VpnGw.Status.{needs_update, new_gw}
use kube_combo.VpnGw.Refresh.{refresh}
use kube_combo.VpnGw.Build.Containers.{keepalived_container, ssl_container, ssl_vpn_port}
use kube_combo.VpnGw.Build.Stateful.{sts_ssl_part, stateful_set_for_vpn_gw}
use kube_combo.VpnGw.Handler
use kube_combo.VpnGw.Handler.{handle_add_or_update}
use kube_combo.VpnGw.Handler.Allowed.{IsReady, IsAsked, Allows}
use kube_combo.VpnGw.Handler.Guarded.{handle_add_or_update-Keeps}
use kube_combo.Tests.Samples.{gateway, gw_spec, keepalived, config, platform, request}

data Write : Type 0 where
  stateful_set : Option StatefulSet → Write
  status : VpnGw → Write
  another : Write

abbrev named : VpnGw
named = record gateway { spec = record gw_spec { keepalived = "ka" } }

abbrev read_keepalived : NamespacedName → Reply KeepAlived
read_keepalived key = if key.name == "ka" then found keepalived else not_found "no keepalived"

abbrev recorder : Client
recorder = record {
  World = List Write;
  get_vpn_gw = λ req w. ret (found named, w);
  get_keepalived = λ key w. ret (read_keepalived key, w);
  get_stateful_set = λ req w. ret (not_found "no workload", w);
  create_stateful_set = λ sts w. ret (none, stateful_set sts ∷ w);
  update_stateful_set = λ sts w. ret (none, another ∷ w);
  get_daemonset = λ req w. ret (not_found "no workload", w);
  create_daemonset = λ ds w. ret (none, another ∷ w);
  update_daemonset = λ ds w. ret (none, another ∷ w);
  list_ipsec_conns = λ labels w. ret (ok [], w);
  list_pods = λ ns labels w. ret (ok [], w);
  exec = λ ns pod container cmd w.
      ret (record { std_output = ""; err_output = ""; error = none }, another ∷ w);
  update_status = λ gw w. ret (none, status gw ∷ w);
}

-- The write is that of the stored gateway: its StatefulSet with its keepalived, or its status.
abbrev Asked : Write → Type 0
Asked (stateful_set sts) =
    stateful_set_for_vpn_gw platform config named (some keepalived) none ≡ ret sts
Asked (status gw) = (names : Slice String) × (gw ≡ new_gw named names)
Asked another = ⊥

abbrev AllAsked : List Write → Type 0
AllAsked [] = Unit
AllAsked (x ∷ xs) = Asked x × AllAsked xs

abbrev StaysAsked : List Write → List Write → Type 0
StaysAsked u v = AllAsked u → AllAsked v

read_named : (gw : VpnGw) → Returns (recorder.get_vpn_gw request) (found gw) → gw ≡ named
read_named gw (u, v, h) = cc

its_keepalived :
    (gw : VpnGw) (ka : Option KeepAlived)
    → gw ≡ named
    → IsReady recorder gw ka
    → ka ≡ some keepalived
its_keepalived gw none same ready =
    absurd (unnamed (sym ready ∙ ap (λ (x : VpnGw). x.spec.keepalived) same))
  where
    unnamed : ◌≢◌ {A = String} "" "ka"
    unnamed = ground (arith, eq_iff "" "ka")
its_keepalived gw (some ka) same (given, (u, v, h), image, vip, id) =
    of_found (gw.spec.keepalived == "ka") (
      ret-value
        (read_keepalived (record { namespace = gw.meta.namespace; name = gw.spec.keepalived }))
        (found ka) u v h)
  where
    of_found :
        (b : Bool)
        → ◌≡◌ {A = Reply KeepAlived}
            (if b then found keepalived else not_found "no keepalived")
            (found ka)
        → some ka ≡ some keepalived
    of_found true h = cc
    of_found false h = cc

rests :
    {A : Type 0} (r a : A) (w v : List Write)
    → ◌≡◌ {A = Go (A × List Write)} (ret (r, w)) (ret (a, v))
    → StaysAsked w v
rests r a w v h = subst (StaysAsked w) (ret-world r a w v h) (λ x. x)

writes :
    (x : Write) (a : Option String) (w v : List Write)
    → Asked x
    → ◌≡◌ {A = Go (Option String × List Write)} (ret (none, x ∷ w)) (ret (a, v))
    → StaysAsked w v
writes x a w v asked h = subst (StaysAsked w) (ret-world none a (x ∷ w) v h) (λ all. (asked, all))

recorder-Allows : Allows platform config recorder request StaysAsked
recorder-Allows = record {
  order = record { rests = λ w e. e; follows = λ u v w f g e. g (f e) };
  get_vpn_gw = λ w v a h. rests _ a w v h;
  get_keepalived = λ key w v a h. rests _ a w v h;
  get_stateful_set = λ w v a h. rests _ a w v h;
  get_daemonset = λ w v a h. rests _ a w v h;
  list_ipsec_conns = λ labels w v a h. rests _ a w v h;
  list_pods = λ labels w v a h. rests _ a w v h;
  create_stateful_set = λ gw ka e sts asked type got built w v a h.
      writes (stateful_set sts) a w v (of_named gw ka sts asked built) h;
  update_stateful_set =
      λ gw ka old sts asked type got changed built w v a h. absurd (missing old got);
  create_daemonset = λ gw ka e ds asked type got built w v a h.
      absurd (type (ap (λ (x : VpnGw). x.spec.workload_type) (read_named gw asked.read)));
  update_daemonset = λ gw ka old ds asked type got changed built w v a h.
      absurd (type (ap (λ (x : VpnGw). x.spec.workload_type) (read_named gw asked.read)));
  exec = λ gw text pod refresh w v a h. absurd (no_ipsec gw refresh.read refresh.enabled);
  update_status = λ gw names d read n w v a h.
      writes (status (new_gw gw names)) a w v
        (names, ap (λ (x : VpnGw). new_gw x names) (read_named gw read)) h;
}
  where
    of_named :
        (gw : VpnGw) (ka : Option KeepAlived) (sts : Option StatefulSet)
        → IsAsked recorder request gw ka
        → stateful_set_for_vpn_gw platform config gw ka none ≡ ret sts
        → Asked (stateful_set sts)
    of_named gw ka sts asked built =
        let same = read_named gw asked.read in
        rw (sym same) (rw (sym (its_keepalived gw ka same asked.ready)) built)

    missing : (old : ObjectMeta) → Returns (recorder.get_stateful_set request) (found old) → ⊥
    missing old (u, v, h) = cc

    no_ipsec :
        (gw : VpnGw)
        → Returns (recorder.get_vpn_gw request) (found gw)
        → gw.spec.enable_ipsec_vpn ≡ true
        → ⊥
    no_ipsec gw read on =
        absurd (ground (arith, ap (λ (x : VpnGw). x.spec.enable_ipsec_vpn) (read_named gw read)))

built_sts :
    (sts : StatefulSet) × (stateful_set_for_vpn_gw platform config named (some keepalived) none
      ≡ ret (some sts))
unfolding stateful_set_for_vpn_gw keepalived_container must_parse sts_ssl_part ssl_container
    get_port_int32 set_controller string_eq parse_int32 ssl_vpn_port nat_eq parse_magnitude
    parse_digits
built_sts = (_, refl)

abbrev written : List Write
written = status (new_gw named none) ∷ stateful_set (some built_sts.0) ∷ []

created :
    handle_add_or_update platform config recorder request []
    ≡ ret ((SyncState.success, none), written)
unfolding handle_add_or_update Handler.handle_fetched Handler.fetched_vpn_gw validate_vpn_gw
    validate_ssl Handler.handle_valid Handler.fetched_keepalived Handler.deploy_with
    validate_keepalived Handler.deploy Handler.handle_workload Handler.apply_stateful_set
    Handler.after_workload refresh Handler.finish Handler.update_vpn_gw Handler.write_status
    needs_update string_eq nat_eq built_sts stateful_set_for_vpn_gw keepalived_container must_parse
    sts_ssl_part ssl_container get_port_int32 set_controller parse_int32 ssl_vpn_port
    parse_magnitude parse_digits
created = refl

handle_add_or_update-Keeps_example : AllAsked written
handle_add_or_update-Keeps_example =
    handle_add_or_update-Keeps platform config recorder request StaysAsked recorder-Allows []
      written (SyncState.success, none) created tt
