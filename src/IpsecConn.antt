-- ===== src/IpsecConn.antt =====
-- The IpsecConn reconciler (internal/controller/ipsecconn_controller.go).
pub mod Labelled
use kube_combo.Prelude.{String, Option, none, some, [], ◌∷◌, Io, ◌>>=◌, ◌>>◌, pure, Result, ok, err}
use kube_combo.Prelude.{Reply, found, not_found, failed}
use kube_combo.Prelude.Dict
use kube_combo.Prelude.Dict.{Dict}
use kube_combo.Api.Meta.{NamespacedName}
use kube_combo.Api.IpsecConn.{IpsecConn, IpsecConnSpec}
use kube_combo.Sync.{SyncState, Stats, Answer, conclude}

-- The calls of the API server; `patch` is given the new and the old object.
pub record Client : Type 1 where
  pub World : Type 0
  pub get : NamespacedName → Io World (Reply IpsecConn)
  pub patch : IpsecConn → IpsecConn → Io World (Option String)

-- `validateIpsecConnection`: both branches only log.
unfoldable pub validate_ipsec_connection : IpsecConnSpec → Option String
validate_ipsec_connection con = none

unfoldable pub labels_for_ipsec_connection : IpsecConn → Dict
labels_for_ipsec_connection con = ("vpn-gw", con.spec.vpn_gw) ∷ []

-- The labels replace those that the connection had.
unfoldable pub labelled : IpsecConn → IpsecConn
labelled con = record con { meta = record (con.meta) { labels = labels_for_ipsec_connection con } }

-- `getIpsecConnection`: a missing object is no error.
unfoldable pub fetched : Reply IpsecConn → Result (Option IpsecConn)
fetched (found con) = ok (some con)
fetched (not_found e) = ok none
fetched (failed e) = err e

module _ (c : Client) where
  open c use {World, get, patch}

  abbrev pub unless_invalid :
      Option String → Io World (SyncState × Option String) → Io World (SyncState × Option String)
  unless_invalid (some e) rest = pure (SyncState.error_no_retry, some e)
  unless_invalid none rest = rest

  abbrev pub retry_on : Option String → SyncState × Option String
  retry_on none = (SyncState.success, none)
  retry_on (some e) = (SyncState.error, some e)

  unfoldable pub handle_fetched : Result (Option IpsecConn) → Io World (SyncState × Option String)
  handle_fetched (err e) = pure (SyncState.error, some e)
  handle_fetched (ok none) = pure (SyncState.success, none)
  handle_fetched (ok (some con)) =
      unless_invalid (validate_ipsec_connection con.spec)
        (do e ← patch (labelled con) con; pure (retry_on e))

  unfoldable pub handle_add_or_update : NamespacedName → Io World (SyncState × Option String)
  handle_add_or_update req = do reply ← get req; handle_fetched (fetched reply)

  unfoldable pub reconcile : NamespacedName → Stats → Io World (Answer × Stats)
  reconcile req stats = do r ← handle_add_or_update req; pure (conclude 0 r.0 stats)
