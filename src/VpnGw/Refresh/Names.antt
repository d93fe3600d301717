-- ===== src/VpnGw/Refresh/Names.antt =====
-- The names of connections that a refresh returns.
use kube_combo.Prelude.{String, ◌≡◌, refl, sym, ap, ◌∙◌, ◌⊎◌, inl, inr, true, false, Option, none}
use kube_combo.Prelude.{some, List, [], ◌∷◌, map, Slice, Go, ret, Io, Result, ok, err, Bool-cases}
use kube_combo.Prelude.{>>=-ret, if_false, if_true, ret-value, Returns, bool_eq, nat_eq, string_eq}
use kube_combo.Prelude.{option_eq, list_eq}
use kube_combo.Api.Meta.{NamespacedName}
use kube_combo.Api.VpnGw.{VpnGw}
use kube_combo.Api.IpsecConn.{IpsecConn}
use kube_combo.VpnGw.Client.{Client}
use kube_combo.VpnGw.Ipsec.{Checked}
use kube_combo.VpnGw.Build.Selected.{pod_selector}
use kube_combo.VpnGw.Refresh.{Refreshed, conns, conn_name, after_refresh, pod_names}
use kube_combo.VpnGw.Refresh.{refresh_command, refresh_pods, refresh_checked, refresh_listed}
use kube_combo.VpnGw.Refresh.{refresh}

-- A slice of names that is nil for a gateway without IPSec, else the names of the connections that
-- the list for the gateway's name returned.
abbrev pub AreNames : Client → VpnGw → Slice String → Type 0
AreNames c gw names =
    ((gw.spec.enable_ipsec_vpn ≡ false) × (names ≡ none))
    ⊎ ((cons : List IpsecConn) × (gw.spec.enable_ipsec_vpn ≡ true)
        × Returns (c.list_ipsec_conns (("vpn-gw", gw.meta.name) ∷ [])) (ok cons)
        × (names ≡ some (map conn_name cons)))

module _ (c : Client) (req : NamespacedName) (gw : VpnGw) where
  after_refresh-names :
      (cons : List IpsecConn) (e f : Option String) (names : Slice String)
      → after_refresh c cons e f ≡ conns names
      → names ≡ some (map conn_name cons)
  after_refresh-names cons (some e) f names h = cc
  after_refresh-names cons none (some f) names h = cc
  after_refresh-names cons none none names h = cc

  refresh_checked-names :
      (cons : List IpsecConn) (checked : Checked) (w v : c.World) (names : Slice String)
      → refresh_checked c req gw cons checked w ≡ ret (conns names, v)
      → names ≡ some (map conn_name cons)
  unfolding refresh_checked
  refresh_checked-names cons (_, state, some e) w v names h = cc
  refresh_checked-names cons (text, state, none) w v names h =
      let (pods, u, listed, rest) =
        >>=-ret (c.list_pods req.namespace (pod_selector gw)) _ w v (conns names) h in
      let ns = pod_names gw pods in
      let (e, t, done, last) =
        >>=-ret (refresh_pods c gw (refresh_command gw text) ns.0) _ u v (conns names) rest in
      after_refresh-names cons e ns.1 names
        (ret-value (after_refresh c cons e ns.1) (conns names) t v last)

  refresh_listed-names :
      (res : Result (List IpsecConn)) (w v : c.World) (names : Slice String)
      → refresh_listed c req gw res w ≡ ret (conns names, v)
      → (cons : List IpsecConn) × (res ≡ ok cons) × (names ≡ some (map conn_name cons))
  unfolding refresh_listed
  refresh_listed-names (err e) w v names h = cc
  refresh_listed-names (ok []) w v names h = cc
  refresh_listed-names (ok (con ∷ cons)) w v names h =
      (con ∷ cons, refl, refresh_checked-names (con ∷ cons) _ w v names h)

  pub refresh-names :
      (w v : c.World) (names : Slice String)
      → refresh c req gw w ≡ ret (conns names, v)
      → AreNames c gw names
  unfolding refresh
  refresh-names w v names h = elim (Bool-cases gw.spec.enable_ipsec_vpn) [
    | inl on ↦
        let (res, u, got, rest) =
          >>=-ret (c.list_ipsec_conns (("vpn-gw", gw.meta.name) ∷ [])) (refresh_listed c req gw) w v
            (conns names) (ap (λ (m : Io c.World Refreshed). m w) (sym (if_true _ _ _ on)) ∙ h) in
        let (cons, is_ok, same) = refresh_listed-names res u v names rest in
        inr (cons, on, (w, u, got ∙ ap (λ x. ret (x, u)) is_ok), same)
    | inr off ↦
        inl (off, none_of (ap (λ (m : Io c.World Refreshed). m w) (sym (if_false _ _ _ off)) ∙ h))
  ]
    where
      none_of :
          ◌≡◌ {A = Go (Refreshed × c.World)} (ret (conns none, w)) (ret (conns names, v))
          → names ≡ none
      none_of h = cc
