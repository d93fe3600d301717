-- ===== src/Probes/Accepts.antt =====
-- When the handling of one ping gives no error.
use kube_combo.Prelude.{String, ◌≡◌, refl, sym, ◌↔◌, inl, inr, Bool, true, Option, none, some}
use kube_combo.Prelude.{arith, if◌then◌else◌, ◌==◌, Go, ret, Bool-cases, subst, ret-world}
use kube_combo.Prelude.{iff_trans, bool_eq, nat_eq, string_eq, option_eq, list_eq}
use kube_combo.Probes.{Configuration, Statistics, not_created, not_run, finished, Pod}
use kube_combo.Probes.{Network}
use kube_combo.Probes.Ping.{lost, set_if, external_metric, pod_metric, node_metric}
use kube_combo.Probes.Ping.{after_external, after_pod}
use kube_combo.Probes.Ping.{after_node}
use kube_combo.Probes.Passing.{some-ne-none, Accepts}

-- A result that is an error exactly if packets were lost.
loss_iff :
    {W : Type 0} (s : Statistics) (m : String) (x v : W)
    → (◌≡◌ {A = Go (Option String × W)}
        (ret (if lost s == 0 then none else some m, x))
        (ret (none, v)))
      ↔ ((s.packets_recv ≡ s.packets_sent) × (v ≡ x))
loss_iff s m x v = (
  λ h. elim (Bool-cases (lost s == 0)) [
    | inl none_lost ↦ (ground arith, sym (ret-world none none x v (rw none_lost at h)))
    | inr some_lost ↦ absurd (some-ne-none m x v (rw some_lost at h))
  ],
  λ (q, moved). let none_lost : (lost s == 0) ≡ true = ground arith in rw (none_lost, moved),
)

-- The same, where an error leaves the state.
loss_in_place_iff :
    {W : Type 0} (s : Statistics) (m : String) (x w v : W)
    → (◌≡◌ {A = Go (Option String × W)}
        (if lost s == 0 then ret (none, x) else ret (some m, w))
        (ret (none, v)))
      ↔ ((s.packets_recv ≡ s.packets_sent) × (v ≡ x))
loss_in_place_iff s m x w v = (
  λ h. elim (Bool-cases (lost s == 0)) [
    | inl none_lost ↦ (ground arith, sym (ret-world none none x v (rw none_lost at h)))
    | inr some_lost ↦ absurd (some-ne-none m w v (rw some_lost at h))
  ],
  λ (q, moved). let none_lost : (lost s == 0) ≡ true = ground arith in rw (none_lost, moved),
)

same_statistics :
    {W : Type 0} (s : Statistics) (f : Statistics → W) (v : W)
    → ((t : Statistics) × (finished s ≡ finished t) × (t.packets_recv ≡ t.packets_sent) × (v ≡ f t))
      ↔ ((s.packets_recv ≡ s.packets_sent) × (v ≡ f s))
same_statistics s f v = (
  λ (t, p, q, moved).
      let e : t ≡ s = cc in
      subst (λ (r : Statistics). (r.packets_recv ≡ r.packets_sent) × (v ≡ f r)) e (q, moved),
  λ (q, moved). (s, refl, q, moved),
)

module _ (net : Network) (config : Configuration) (with_metrics : Bool) where
  pub after_external_accepts :
      (a : String)
      → Accepts net config with_metrics
          (external_metric net config with_metrics a)
          (after_external net config with_metrics a)
  unfolding after_external
  after_external_accepts a (not_created e) w v = (λ h. cc, λ (s, p, q, moved). cc)
  after_external_accepts a (not_run e) w v = (λ h. cc, λ (s, p, q, moved). cc)
  after_external_accepts a (finished s) w v =
      let (to, from) =
        same_statistics s
          (λ (t : Statistics).
            set_if net config with_metrics (external_metric net config with_metrics a t) w)
          v in
      iff_trans (loss_iff s _ _ v) (from, to)

  pub after_pod_accepts :
      (pod : Pod) (ip : String)
      → Accepts net config with_metrics
          (pod_metric net config with_metrics pod ip)
          (after_pod net config with_metrics pod ip)
  unfolding after_pod
  after_pod_accepts pod ip (not_created e) w v = (λ h. cc, λ (s, p, q, moved). cc)
  after_pod_accepts pod ip (not_run e) w v = (λ h. cc, λ (s, p, q, moved). cc)
  after_pod_accepts pod ip (finished s) w v =
      let (to, from) =
        same_statistics s
          (λ (t : Statistics).
            set_if net config with_metrics (pod_metric net config with_metrics pod ip t) w)
          v in
      iff_trans (loss_iff s _ _ v) (from, to)

  pub after_node_accepts :
      (name ip : String)
      → Accepts net config with_metrics
          (node_metric net config with_metrics name ip)
          (after_node net config with_metrics name ip)
  unfolding after_node
  after_node_accepts name ip (not_created e) w v = (λ h. cc, λ (s, p, q, moved). cc)
  after_node_accepts name ip (not_run e) w v = (λ h. cc, λ (s, p, q, moved). cc)
  after_node_accepts name ip (finished s) w v =
      let (to, from) =
        same_statistics s
          (λ (t : Statistics).
            set_if net config with_metrics (node_metric net config with_metrics name ip t) w)
          v in
      iff_trans (loss_in_place_iff s _ _ w v) (from, to)
