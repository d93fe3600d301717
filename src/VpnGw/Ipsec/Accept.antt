-- ===== src/VpnGw/Ipsec/Accept.antt =====
-- Which connections are accepted, and what they are rendered to.
use kube_combo.Prelude.{String, ◌<>◌, ◌≡◌, refl, sym, ◌∙◌, ◌≢◌, ◌↔◌, inl, inr, true, none, some}
use kube_combo.Prelude.{List, [], ◌∷◌, arith, Option-cases, bool_eq, nat_eq, string_eq, option_eq}
use kube_combo.Prelude.{list_eq}
use kube_combo.Api.VpnGw.{VpnGw}
use kube_combo.Api.IpsecConn.{IpsecConn}
use kube_combo.Sync.{SyncState}
use kube_combo.VpnGw.Ipsec.{conn_error, render, check_conns, validate_ipsec_conns, refused}
use text.Mathlib.TextLemmas.{append-nil, append_assoc, nil-append}

-- A connection that the gateway can use.
pub record IsUsable (gw : VpnGw) (con : IpsecConn) : Type 0 where
  pub esp_proposals : gw.spec.ipsec_enable_psk ≡ true → con.spec.esp_proposals ≢ ""
  pub vpn_gw_set : con.spec.vpn_gw ≢ ""
  pub vpn_gw : con.spec.vpn_gw ≡ gw.meta.name
  pub auth : con.spec.auth ≢ ""
  pub ike_version : con.spec.ike_version ≢ ""
  pub ike_proposals : con.spec.ike_proposals ≢ ""
  pub local_vip : con.spec.local_vip ≢ ""
  pub local_eip : con.spec.local_eip ≢ ""
  pub local_private_cidrs : con.spec.local_private_cidrs ≢ ""
  pub remote_eip : con.spec.remote_eip ≢ ""
  pub remote_private_cidrs : con.spec.remote_private_cidrs ≢ ""
  pub names : con.spec.auth ≡ "pubkey" → (con.spec.remote_cn ≢ "") × (con.spec.local_cn ≢ "")
  pub gateway_nic :
      con.spec.auth ≡ "psk"
      → gw.spec.workload_type ≡ "static"
      → con.spec.local_gateway ≢ ""
      → con.spec.local_gateway_nic ≢ ""

pub conn_error_iff : (gw : VpnGw) (con : IpsecConn) → (conn_error gw con ≡ none) ↔ IsUsable gw con
unfolding conn_error
conn_error_iff gw con = (λ h. ground arith, λ u. ground arith)

abbrev pub AllUsable : VpnGw → List IpsecConn → Type 0
AllUsable gw [] = Unit
AllUsable gw (con ∷ conns) = IsUsable gw con × AllUsable gw conns

-- The renderings one after the other.
abbrev pub render_all : VpnGw → List IpsecConn → String
render_all gw [] = ""
render_all gw (con ∷ conns) = render gw con <> render_all gw conns

check_conns_ok :
    (gw : VpnGw) (conns : List IpsecConn) (acc : String)
    → AllUsable gw conns
    → acc <> render_all gw conns ≢ ""
    → check_conns gw conns acc ≡ (acc <> render_all gw conns, SyncState.success, none)
unfolding check_conns
check_conns_ok gw [] acc u n = ground (arith, append-nil acc)
check_conns_ok gw (con ∷ conns) acc u n =
    let assoc = append_assoc acc (render gw con) (render_all gw conns) in
    rw ((conn_error_iff gw con).1 u.0, check_conns)
      (check_conns_ok gw conns (acc <> render gw con) u.1 (λ e. n (sym assoc ∙ e)) ∙ rw assoc refl)

refused_check :
    (gw : VpnGw) (con : IpsecConn) (conns : List IpsecConn) (acc e : String)
    → conn_error gw con ≡ some e
    → check_conns gw (con ∷ conns) acc ≡ refused e
unfolding check_conns
refused_check gw con conns acc e bad = rw (bad, check_conns)

check_conns_sound :
    (gw : VpnGw) (conns : List IpsecConn) (acc text : String) (state : SyncState)
    → check_conns gw conns acc ≡ (text, state, none)
    → AllUsable gw conns
      × (text ≡ acc <> render_all gw conns)
      × (state ≡ SyncState.success)
      × (text ≢ "")
unfolding check_conns
check_conns_sound gw [] acc text state h = ground (arith, append-nil acc)
check_conns_sound gw (con ∷ conns) acc text state h = elim (Option-cases (conn_error gw con)) [
  | inl usable ↦
      let (all, text_eq, state_eq, some_text) =
        check_conns_sound gw conns (acc <> render gw con) text state
          (rw (usable, check_conns) at h) in
      (
        ((conn_error_iff gw con).0 usable, all),
        text_eq ∙ append_assoc acc (render gw con) (render_all gw conns),
        state_eq,
        some_text,
      )
  | inr (e, bad) ↦ absurd (ground (arith, refused_check gw con conns acc e bad))
]

-- The check accepts a list of connections with a text exactly when a pre-shared key is there if
-- the gateway uses one, every connection is usable, and the text, which is not empty, is the
-- renderings one after the other; the state is then success.
pub validate_ipsec_conns_iff :
    (gw : VpnGw) (conns : List IpsecConn) (text : String) (state : SyncState)
    → (validate_ipsec_conns gw conns ≡ (text, state, none)) ↔ (
        (gw.spec.ipsec_enable_psk ≡ true → gw.spec.default_psk ≢ "")
        × AllUsable gw conns
        × (text ≡ render_all gw conns)
        × (state ≡ SyncState.success)
        × (text ≢ ""))
unfolding validate_ipsec_conns
validate_ipsec_conns_iff gw conns text state = (
  λ h. ground (arith, check_conns_sound gw conns "" text state, nil-append (render_all gw conns)),
  λ h. ground (arith, check_conns_ok gw conns "", nil-append (render_all gw conns)),
)

check_conns_state :
    (gw : VpnGw) (conns : List IpsecConn) (acc text e : String) (state : SyncState)
    → check_conns gw conns acc ≡ (text, state, some e)
    → (text ≡ "") × (state ≡ SyncState.error)
unfolding check_conns
check_conns_state gw [] acc text e state h = ground arith
check_conns_state gw (con ∷ conns) acc text e state h =
    ground (arith, check_conns_state gw conns (acc <> render gw con) text e state)

-- A refused list gives no text, and is retried.
validate_ipsec_conns_refused :
    (gw : VpnGw) (conns : List IpsecConn) (text e : String) (state : SyncState)
    → validate_ipsec_conns gw conns ≡ (text, state, some e)
    → (text ≡ "") × (state ≡ SyncState.error)
unfolding validate_ipsec_conns
validate_ipsec_conns_refused gw conns text e state h =
    ground (arith, check_conns_state gw conns "" text e state)
