-- ===== src/VpnGw/Handler/Commanded.antt =====
-- Which commands the gateway's handler runs in pods, and on what condition.
use kube_combo.Prelude.{String, ◌≡◌, refl, ap, ◌∙◌, true, Option, none, some, List, [], ◌∷◌, map}
use kube_combo.Prelude.{ret, Io, Result, ok, err, found, Keeps, pure-Keeps, >>=-Keeps, if-Keeps}
use kube_combo.Prelude.{>>=-Keeps_from, Returns, bool_eq, nat_eq, string_eq, option_eq, list_eq}
use mathlib.Core.List.{Memᴰ}
use kube_combo.Api.Meta.{NamespacedName}
use kube_combo.Api.VpnGw.{VpnGw}
use kube_combo.Api.IpsecConn.{IpsecConn}
use kube_combo.Sync.{SyncState}
use kube_combo.Workload.Builder.{Platform}
use kube_combo.VpnGw.Client.{Client, ListedPod}
use kube_combo.VpnGw.Validate.{IsDeployable}
use kube_combo.VpnGw.Ipsec.{Checked, validate_ipsec_conns}
use kube_combo.VpnGw.Refresh.{stopped, conns, refresh, refresh_listed, refresh_checked}
use kube_combo.VpnGw.Refresh.{refresh_pods, unless_failed, exec_error, refresh_command, pod_names}
use kube_combo.VpnGw.Refresh.{after_refresh, pod_name, bad_pod_names, names_or_error}
use kube_combo.VpnGw.Build.Containers.{Config}
use kube_combo.VpnGw.Build.Selected.{pod_selector}
use kube_combo.VpnGw.Handler.Allowed.{IsRefresh, Allows}

-- The pods that are refreshed are listed.
pod_names-listed :
    (gw : VpnGw) (r : Result (List ListedPod)) (pod : String)
    → Memᴰ pod ((pod_names gw r).0)
    → (pods : List ListedPod) × (r ≡ ok pods) × Memᴰ pod (map pod_name pods)
unfolding pod_names
pod_names-listed gw (err e) pod m = elim m [ ]
pod_names-listed gw (ok pods) pod m = (pods, refl, all (map pod_name pods) (bad_pod_names pods) m)
  where
    all : (names bad : List String) → Memᴰ pod ((names_or_error gw names bad).0) → Memᴰ pod names
    all [] bad m = m
    all (n ∷ ns) [] m = m
    all (n ∷ ns) (b ∷ bs) m = m

module _ (p : Platform) (r : Config) (c : Client) (req : NamespacedName)
    (R : c.World → c.World → Type 0) (allows : Allows p r c req R) where
  unless_failed-Keeps :
      (e : Option String) {rest : Io c.World (Option String)}
      → Keeps R rest
      → Keeps R (unless_failed c e rest)
  unless_failed-Keeps (some e) k = pure-Keeps R allows.order (some e)
  unless_failed-Keeps none k = k

  refresh_pods-Keeps :
      (gw : VpnGw) (cmd : String) (pods : List String)
      → ((pod : String)
          → Memᴰ pod pods
          → Keeps R (c.exec gw.meta.namespace pod "ipsec-vpn" ("/bin/bash" ∷ "-c" ∷ cmd ∷ [])))
      → Keeps R (refresh_pods c gw cmd pods)
  unfolding refresh_pods
  refresh_pods-Keeps gw cmd [] k = pure-Keeps R allows.order none
  refresh_pods-Keeps gw cmd (pod ∷ pods) k =
      >>=-Keeps R allows.order
        (c.exec gw.meta.namespace pod "ipsec-vpn" ("/bin/bash" ∷ "-c" ∷ cmd ∷ [])) _
        (k pod (Memᴰ.head refl))
        (λ out.
          unless_failed-Keeps (exec_error out)
            (refresh_pods-Keeps gw cmd pods (λ q m. k q (Memᴰ.tail m))))

  module _ (gw : VpnGw) (read : Returns (c.get_vpn_gw req) (found gw))
      (deployable : IsDeployable gw.spec) where
    refresh_checked-Keeps :
        (cons : List IpsecConn) (checked : Checked)
        → gw.spec.enable_ipsec_vpn ≡ true
        → Returns (c.list_ipsec_conns (("vpn-gw", gw.meta.name) ∷ [])) (ok cons)
        → validate_ipsec_conns gw cons ≡ checked
        → Keeps R (refresh_checked c req gw cons checked)
    unfolding refresh_checked
    refresh_checked-Keeps cons (_, state, some e) on listed h =
        pure-Keeps R allows.order (stopped state (some e))
    refresh_checked-Keeps cons (text, state, none) on listed h =
        >>=-Keeps_from R allows.order (c.list_pods req.namespace (pod_selector gw)) _
          (allows.list_pods _)
          (λ pods u v got.
            >>=-Keeps R allows.order
              (refresh_pods c gw (refresh_command gw text) ((pod_names gw pods).0)) _
              (refresh_pods-Keeps gw (refresh_command gw text) _
                (λ pod m. allows.exec gw text pod (of_pod pods u v got pod m)))
              (λ e. pure-Keeps R allows.order (after_refresh c cons e ((pod_names gw pods).1))))
      where
        of_pod :
            (pods : Result (List ListedPod)) (u v : c.World)
            → c.list_pods req.namespace (pod_selector gw) u ≡ ret (pods, v)
            → (pod : String) → Memᴰ pod ((pod_names gw pods).0)
            → IsRefresh c req gw text pod
        of_pod pods u v got pod m =
            let (ps, same, here) = pod_names-listed gw pods pod m in
            record {
              read = read;
              deployable = deployable;
              enabled = on;
              cons = cons;
              listed = listed;
              state = state;
              accepted = h;
              pods = ps;
              pods_listed = (u, v, got ∙ ap (λ x. ret (x, v)) same);
              is_pod = here;
            }

    refresh_listed-Keeps :
        (res : Result (List IpsecConn))
        → gw.spec.enable_ipsec_vpn ≡ true
        → Returns (c.list_ipsec_conns (("vpn-gw", gw.meta.name) ∷ [])) res
        → Keeps R (refresh_listed c req gw res)
    unfolding refresh_listed
    refresh_listed-Keeps (err e) on listed =
        pure-Keeps R allows.order (stopped SyncState.error (some e))
    refresh_listed-Keeps (ok []) on listed = pure-Keeps R allows.order _
    refresh_listed-Keeps (ok (con ∷ cons)) on listed =
        refresh_checked-Keeps (con ∷ cons) _ on listed refl

    pub refresh-Keeps : Keeps R (refresh c req gw)
    unfolding refresh
    refresh-Keeps =
        if-Keeps R allows.order gw.spec.enable_ipsec_vpn
          (λ on_eq.
            >>=-Keeps_from R allows.order (c.list_ipsec_conns (("vpn-gw", gw.meta.name) ∷ [])) _
              (allows.list_ipsec_conns _)
              (λ res u v got. refresh_listed-Keeps res on_eq (u, v, got)))
          (λ off_eq. pure-Keeps R allows.order (conns none))
