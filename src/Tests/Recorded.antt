-- ===== src/Tests/Recorded.antt =====
-- The debugger's handler over a cluster that records what is written: a debugger whose pinger is ready
-- and that has no workload yet.
use text.Mathlib.TextEquality.{eq_iff}
use kube_combo.Prelude.{String, ◌≡◌, refl, sym, ap, ◌∙◌, ◌≢◌, Bool, true, false, Option, none, some}
use kube_combo.Prelude.{List, [], ◌∷◌, arith, if◌then◌else◌, ◌==◌, Go, ret, ok, Reply, found}
use kube_combo.Prelude.{not_found, subst, ret-world, ret-value, Returns, bool_eq, nat_eq, string_eq}
use kube_combo.Prelude.{option_eq, list_eq}
use kube_combo.Prelude.Dict.{Dict}
use kube_combo.Api.Meta.{ObjectMeta, NamespacedName}
use kube_combo.Api.Debugger.{Debugger}
use kube_combo.Api.Pinger.{Pinger}
use kube_combo.Sync.{SyncState}
use kube_combo.Workload.Objects.{Pod}
use kube_combo.Workload.Builder.{must_parse, set_controller}
use kube_combo.Debugger.Validate.{validate_debugger, validate_pinger}
use kube_combo.Debugger.Status.{is_changed, needs_update, new_debugger}
use kube_combo.Debugger.Volumes.{Mounted, get_volumes_mounts}
use kube_combo.Debugger.Volumes.Paired.{IsPaired}
use kube_combo.Debugger.Build.{get_debugger_pod, get_containers}
use kube_combo.Debugger.Build.{debugger_container, pinger_container, root_container, with_pinger}
use kube_combo.Debugger.Handler
use kube_combo.Debugger.Handler.{Client, handle_add_or_update}
use kube_combo.Debugger.Handler.Allowed.{IsReady, IsAsked, Allows}
use kube_combo.Debugger.Handler.Guarded.{handle_debugger-Keeps}
use kube_combo.Tests.Samples.{platform, request}
use kube_combo.Tests.Debuggers.{debugger, pinger}

data Write : Type 0 where
  pod : Option Pod → Write
  status : Debugger → Write
  another : Write

abbrev read_pinger : NamespacedName → Reply Pinger
read_pinger key = if key.name == "ping" then found pinger else not_found "no pinger"

abbrev scripts : Dict
scripts = ("a.sh", "true") ∷ []

abbrev recorder : Client
recorder = record {
  World = List Write;
  get_debugger = λ req w. ret (found debugger, w);
  get_pinger = λ key w. ret (read_pinger key, w);
  get_config_map = λ ns name w. ret (ok (some scripts), w);
  get_pod = λ req w. ret (not_found "no workload", w);
  create_pod = λ p w. ret (none, pod p ∷ w);
  update_pod = λ p w. ret (none, another ∷ w);
  get_daemonset = λ req w. ret (not_found "no workload", w);
  create_daemonset = λ ds w. ret (none, another ∷ w);
  update_daemonset = λ ds w. ret (none, another ∷ w);
  update_status = λ d w. ret (none, status d ∷ w);
}

-- The write is that of the stored debugger: its pod with its pinger and some volumes that are
-- paired, or its status.
abbrev Asked : Write → Type 0
Asked (pod p) =
    (m : Mounted) × IsPaired m × (get_debugger_pod platform debugger (some pinger) none m ≡ ret p)
Asked (status d) = d ≡ new_debugger debugger
Asked another = ⊥

abbrev AllAsked : List Write → Type 0
AllAsked [] = Unit
AllAsked (x ∷ xs) = Asked x × AllAsked xs

abbrev StaysAsked : List Write → List Write → Type 0
StaysAsked u v = AllAsked u → AllAsked v

read_debugger : (d : Debugger) → Returns (recorder.get_debugger request) (found d) → d ≡ debugger
read_debugger d (u, v, h) = cc

its_pinger :
    (d : Debugger) (q : Option Pinger) → d ≡ debugger → IsReady recorder d q → q ≡ some pinger
its_pinger d none same ready =
    absurd (unnamed (sym ready ∙ ap (λ (x : Debugger). x.spec.pinger) same))
  where
    unnamed : ◌≢◌ {A = String} "" "ping"
    unnamed = ground (arith, eq_iff "" "ping")
its_pinger d (some q) same (given, (u, v, h), complete) = of_found (d.spec.pinger == "ping") (
    ret-value (read_pinger (record { namespace = d.meta.namespace; name = d.spec.pinger }))
      (found q) u v h)
  where
    of_found :
        (b : Bool)
        → ◌≡◌ {A = Reply Pinger} (if b then found pinger else not_found "no pinger") (found q)
        → some q ≡ some pinger
    of_found true h = cc
    of_found false h = cc

rests :
    {A : Type 0} (r a : A) (w v : List Write)
    → ◌≡◌ {A = Go (A × List Write)} (ret (r, w)) (ret (a, v))
    → StaysAsked w v
rests r a w v h = subst (StaysAsked w) (ret-world r a w v h) (λ x. x)

writes :
    (x : Write) (a : Option String) (w v : List Write)
    → Asked x
    → ◌≡◌ {A = Go (Option String × List Write)} (ret (none, x ∷ w)) (ret (a, v))
    → StaysAsked w v
writes x a w v asked h = subst (StaysAsked w) (ret-world none a (x ∷ w) v h) (λ all. (asked, all))

is_pod : (d : Debugger) → d ≡ debugger → d.spec.workload_type ≢ "daemonset"
is_pod d same type = absurd (other (sym (ap (λ (x : Debugger). x.spec.workload_type) same) ∙ type))
  where
    other : ◌≢◌ {A = String} "pod" "daemonset"
    other = ground (arith, eq_iff "pod" "daemonset")

recorder-Allows : Allows platform recorder request StaysAsked
recorder-Allows = record {
  order = record { rests = λ w e. e; follows = λ u v w f g e. g (f e) };
  get_debugger = λ w v a h. rests _ a w v h;
  get_pinger = λ key w v a h. rests _ a w v h;
  get_config_map = λ ns name w v a h. rests _ a w v h;
  get_pod = λ w v a h. rests _ a w v h;
  get_daemonset = λ w v a h. rests _ a w v h;
  create_pod = λ d q m e p asked type got built w v a h.
      writes (pod p) a w v (of_debugger d q m p asked built) h;
  update_pod = λ d q m old p asked type got built w v a h. absurd (missing old got);
  create_daemonset = λ d q m e ds asked type got built w v a h.
      absurd (is_pod d (read_debugger d asked.read) type);
  update_daemonset = λ d q m old ds asked type got built w v a h.
      absurd (is_pod d (read_debugger d asked.read) type);
  update_status = λ d read n w v a h.
      writes (status (new_debugger d)) a w v (ap new_debugger (read_debugger d read)) h;
}
  where
    of_debugger :
        (d : Debugger) (q : Option Pinger) (m : Mounted) (p : Option Pod)
        → IsAsked recorder request d q m
        → get_debugger_pod platform d q none m ≡ ret p
        → Asked (pod p)
    of_debugger d q m p asked built =
        let same = read_debugger d asked.read in
        (m, asked.paired, rw (sym same) (rw (sym (its_pinger d q same asked.ready)) built))

    missing : (old : ObjectMeta) → Returns (recorder.get_pod request) (found old) → ⊥
    missing old (u, v, h) = cc

built :
    (m : Mounted) × (p : Pod) × (get_volumes_mounts recorder.get_config_map debugger []
      ≡ ret (m, []))
    × (get_debugger_pod platform debugger (some pinger) none m ≡ ret (some p))
unfolding get_volumes_mounts get_debugger_pod get_containers debugger_container pinger_container
    root_container with_pinger must_parse set_controller string_eq
built = (_, _, refl, refl)

abbrev written : List Write
written = status (new_debugger debugger) ∷ pod (some built.1) ∷ []

created :
    handle_add_or_update platform recorder request [] ≡ ret ((SyncState.success, none), written)
unfolding handle_add_or_update string_eq Handler.handle_fetched Handler.fetched_debugger
    validate_debugger Handler.handle_valid Handler.with_config_map Handler.config_map_error
    Handler.handle_pinger Handler.deploy_with Handler.fetched_pinger validate_pinger Handler.deploy
    is_changed Handler.handle_workload Handler.apply_pod get_volumes_mounts get_debugger_pod
    get_containers debugger_container pinger_container root_container with_pinger
    Handler.after_workload Handler.update_debugger Handler.write_status needs_update must_parse
    set_controller built
created = refl

handle_debugger-Keeps_example : AllAsked written
handle_debugger-Keeps_example =
    handle_debugger-Keeps platform recorder request StaysAsked recorder-Allows [] written
      (SyncState.success, none) created tt
