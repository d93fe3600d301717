-- ===== src/IpsecConn/Labelled.antt =====
-- What a handled event leaves of a connection.
use kube_combo.Prelude.{String, ◌≡◌, refl, ◌↔◌, Option, none, some, [], ◌∷◌, ret, pure, ok, Reply}
use kube_combo.Prelude.{found, not_found, failed, >>=-ret, subst, bool_eq, nat_eq, string_eq}
use kube_combo.Prelude.{option_eq, list_eq}
use kube_combo.Prelude.Dict
use kube_combo.Prelude.Dict.{Dict}
use kube_combo.Api.Meta.{NamespacedName}
use kube_combo.Api.IpsecConn.{IpsecConn}
use kube_combo.Sync.{SyncState}
use kube_combo.VpnGw.Build.Selected.{Selects}
use kube_combo.IpsecConn.{Client, validate_ipsec_connection, labels_for_ipsec_connection, labelled}
use kube_combo.IpsecConn.{fetched, retry_on, handle_fetched, handle_add_or_update}

module _ (c : Client) (req : NamespacedName) (view : c.World → Option IpsecConn) where
  -- The reads show the stored connection, and a patch stores the new one.
  pub record IsStore : Type 0 where
    pub get_found :
        (w v : c.World) (con : IpsecConn) → c.get req w ≡ ret (found con, v) → view v ≡ some con
    pub get_missing :
        (w v : c.World) (e : String) → c.get req w ≡ ret (not_found e, v) → view v ≡ none
    pub patch_stored :
        (new old : IpsecConn) (w v : c.World)
        → c.patch new old w ≡ ret (none, v)
        → view v ≡ some new

  -- A gateway that lists by its label finds the stored connection just when the connection names
  -- the gateway.
  abbrev pub IsFoundByGateway : c.World → Type 0
  IsFoundByGateway w =
      (con : IpsecConn) (gw : String)
      → view w ≡ some con
      → Selects (("vpn-gw", gw) ∷ []) con.meta.labels ↔ (con.spec.vpn_gw ≡ gw)

  labelled-Selects :
      (con : IpsecConn) (gw : String)
      → Selects (("vpn-gw", gw) ∷ []) (labelled con).meta.labels ↔ ((labelled con).spec.vpn_gw ≡ gw)
  unfolding labelled labels_for_ipsec_connection Dict.lookup string_eq
  labelled-Selects con gw = (λ h. cc, λ e. (rw e refl, tt))

  module _ (store : IsStore) where
    handle_fetched-IsFoundByGateway :
        (o : Option IpsecConn) (v w' : c.World) (e : Option String)
        → view v ≡ o
        → handle_fetched c (ok o) v ≡ ret ((SyncState.success, e), w')
        → IsFoundByGateway w'
    unfolding handle_fetched validate_ipsec_connection
    handle_fetched-IsFoundByGateway none v w' e shown h q gw k =
        let same : v ≡ w' = cc in let gone : ◌≡◌ {A = Option IpsecConn} none (some q) = cc in cc
    handle_fetched-IsFoundByGateway (some con) v w' e shown h q gw k =
        let (r, u, done, rest) =
          >>=-ret (c.patch (labelled con) con) (λ r. pure (retry_on c r)) v w'
            (SyncState.success, e) h in
        patched r u done rest
      where
        patched :
            (r : Option String) (u : c.World)
            → c.patch (labelled con) con v ≡ ret (r, u)
            → pure (retry_on c r) u ≡ ret ((SyncState.success, e), w')
            → Selects (("vpn-gw", gw) ∷ []) q.meta.labels ↔ (q.spec.vpn_gw ≡ gw)
        patched (some m) u done rest = cc
        patched none u done rest =
            let stored = store.patch_stored (labelled con) con v u done in
            let same : u ≡ w' = cc in
            let is : labelled con ≡ q = cc in
            subst
              (λ (x : IpsecConn).
                Selects (("vpn-gw", gw) ∷ []) x.meta.labels ↔ (x.spec.vpn_gw ≡ gw))
              is (labelled-Selects con gw)

-- After a handled event that succeeds, a gateway that lists the connections by its label finds the
-- stored connection exactly when the connection names the gateway, if the reads show the stored
-- connection and a patch stores the new one.
pub handle_conn-IsFoundByGateway :
    (c : Client) (req : NamespacedName) (view : c.World → Option IpsecConn)
    → IsStore c req view
    → (w w' : c.World) (e : Option String)
    → handle_add_or_update c req w ≡ ret ((SyncState.success, e), w')
    → IsFoundByGateway c req view w'
unfolding handle_add_or_update fetched handle_fetched
handle_conn-IsFoundByGateway c req view store w w' e h =
    let (r, v, got, rest) =
      >>=-ret (c.get req) (λ r. handle_fetched c (fetched r)) w w' (SyncState.success, e) h in
    by_reply r v got rest
  where
    by_reply :
        (r : Reply IpsecConn) (v : c.World)
        → c.get req w ≡ ret (r, v)
        → handle_fetched c (fetched r) v ≡ ret ((SyncState.success, e), w')
        → IsFoundByGateway c req view w'
    by_reply (found con) v got rest =
        handle_fetched-IsFoundByGateway c req view store (some con) v w' e
          (store.get_found w v con got) rest
    by_reply (not_found m) v got rest =
        handle_fetched-IsFoundByGateway c req view store none v w' e (store.get_missing w v m got)
          rest
    by_reply (failed m) v got rest = cc
