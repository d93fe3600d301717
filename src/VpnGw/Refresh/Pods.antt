-- ===== src/VpnGw/Refresh/Pods.antt =====
-- Which pods are refreshed, and when the refresh counts as done.
use kube_combo.Prelude.{String, ◌≡◌, refl, sym, ap, ◌∙◌, ◌≢◌, ◌↔◌, Option, none, some, List, []}
use kube_combo.Prelude.{◌∷◌, ◌++◌, map, arith, ret, ok, >>=-ret, subst, bool_eq, nat_eq, string_eq}
use kube_combo.Prelude.{option_eq, list_eq}
use mathlib.Core.List.{append-nil, append_assoc}
use kube_combo.Api.VpnGw.{VpnGw}
use kube_combo.VpnGw.Client.{Client, ListedPod, ExecResult}
use kube_combo.VpnGw.Refresh.{pod_name, bad_pod_names, pod_names, names_or_error, exec_error}
use kube_combo.VpnGw.Refresh.{refresh_pods, unless_failed}

abbrev AllRunning : List ListedPod → Type 0
AllRunning [] = Unit
AllRunning (p ∷ ps) = (p.phase ≡ "Running") × AllRunning ps

bad_pod_names-eq-nil : (pods : List ListedPod) → (bad_pod_names pods ≡ []) ↔ AllRunning pods
unfolding bad_pod_names
bad_pod_names-eq-nil [] = (λ h. tt, λ h. refl)
bad_pod_names-eq-nil (p ∷ ps) =
    (λ h. ground (arith, bad_pod_names-eq-nil ps), λ h. ground (arith, bad_pod_names-eq-nil ps))

names_eq : (gw : VpnGw) (names bad : List String) → (names_or_error gw names bad).0 ≡ names
names_eq gw [] bad = refl
names_eq gw (n ∷ ns) [] = refl
names_eq gw (n ∷ ns) (b ∷ bs) = refl

no_error :
    (gw : VpnGw) (pods : List ListedPod)
    → ((names_or_error gw (map pod_name pods) (bad_pod_names pods)).1 ≡ none)
      ↔ ((pods ≢ []) × AllRunning pods)
no_error gw [] = (λ h. cc, λ h. absurd (h.0 refl))
no_error gw (q ∷ qs) = go (bad_pod_names (q ∷ qs)) (bad_pod_names-eq-nil (q ∷ qs))
  where
    go :
        (bad : List String)
        → (bad ≡ []) ↔ AllRunning (q ∷ qs)
        → ((names_or_error gw (map pod_name (q ∷ qs)) bad).1 ≡ none)
          ↔ ((q ∷ qs ≢ []) × AllRunning (q ∷ qs))
    go [] k = (λ h. (λ e. cc, k.0 refl), λ h. refl)
    go (b ∷ bs) k = (λ h. cc, λ h. let e = k.1 h.1 in cc)

-- Every listed pod is refreshed, running or not, and the refresh is without error exactly when
-- there are pods and all of them run.
pod_names_lem :
    (gw : VpnGw) (pods : List ListedPod)
    → ((pod_names gw (ok pods)).0 ≡ map pod_name pods)
      × (((pod_names gw (ok pods)).1 ≡ none) ↔ ((pods ≢ []) × AllRunning pods))
unfolding pod_names
pod_names_lem gw pods = (names_eq gw (map pod_name pods) (bad_pod_names pods), no_error gw pods)

-- The pods whose command was run, in their order, as the state of the cluster shows them.
record Logs (c : Client) (log : c.World → List String) : Type 0 where
  exec_log :
      (ns pod container : String) (cmd : List String) (w v : c.World) (out : ExecResult)
      → c.exec ns pod container cmd w ≡ ret (out, v)
      → log v ≡ log w ++ (pod ∷ [])

-- What was run is a prefix of the pods, and all of them if there is no error.
abbrev Ran :
    (c : Client)
    → (c.World → List String)
    → List String
    → c.World
    → c.World
    → Option String
    → Type 0
Ran c log pods w w' e =
    (done : List String) × (left : List String) × (pods ≡ done ++ left)
    × (log w' ≡ log w ++ done)
    × (e ≡ none → left ≡ [])

-- The commands run in the given pods in order and stop at the first failure: what was run is a
-- prefix of the pods, and all of them if there is no error.
refresh_pods-log :
    (c : Client) (log : c.World → List String)
    → Logs c log
    → (gw : VpnGw) (cmd : String) (pods : List String) (w w' : c.World) (e : Option String)
    → refresh_pods c gw cmd pods w ≡ ret (e, w')
    → Ran c log pods w w' e
unfolding refresh_pods
refresh_pods-log c log logs gw cmd [] w w' e h = (
  [],
  [],
  refl,
  subst (λ x. log x ≡ log w ++ []) (ground arith) (sym (append-nil (log w))),
  λ z. refl,
)
refresh_pods-log c log logs gw cmd (pod ∷ pods) w w' e h =
    let (out, v, ran, rest) = >>=-ret (c.exec gw.meta.namespace pod "ipsec-vpn" _) _ w w' e h in
    go out v ran (exec_error out) rest (λ k. refresh_pods-log c log logs gw cmd pods v w' e k)
  where
    go :
        (out : ExecResult) (v : c.World)
        → c.exec gw.meta.namespace pod "ipsec-vpn" ("/bin/bash" ∷ "-c" ∷ cmd ∷ []) w ≡ ret (out, v)
        → (failure : Option String)
        → unless_failed c failure (refresh_pods c gw cmd pods) v ≡ ret (e, w')
        → (refresh_pods c gw cmd pods v ≡ ret (e, w') → Ran c log pods v w' e)
        → Ran c log (pod ∷ pods) w w' e
    go out v ran (some m) k below = (
      pod ∷ [],
      pods,
      refl,
      subst (λ x. log x ≡ log w ++ (pod ∷ [])) (ground arith) (logs.exec_log _ _ _ _ w v out ran),
      λ z. cc,
    )
    go out v ran none k below =
        let (done, left, split, logged, all) = below k in
        (
          pod ∷ done,
          left,
          ap (λ (x : List String). pod ∷ x) split,
          logged
              ∙ ap (λ (x : List String). x ++ done) (logs.exec_log _ _ _ _ w v out ran)
              ∙ append_assoc (log w) (pod ∷ []) done,
          all,
        )
