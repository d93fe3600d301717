-- ===== src/Tests/Stores.antt =====
-- The reconcilers of Pinger and IpsecConn over a store of one object.
use kube_combo.Prelude.{◌≡◌, refl, none, some, ret, found, bool_eq, nat_eq, string_eq, option_eq}
use kube_combo.Prelude.{list_eq}
use kube_combo.Api.Pinger.{Pinger}
use kube_combo.Api.IpsecConn.{IpsecConn}
use kube_combo.Sync.{SyncState}
use kube_combo.Pinger
use kube_combo.Pinger.Synced.{IsStore, IsSynced, handle_pinger-IsSynced}
use kube_combo.IpsecConn
use kube_combo.IpsecConn.Labelled
use kube_combo.IpsecConn.Labelled.{handle_conn-IsFoundByGateway}
use kube_combo.Tests.Samples.{request, connection}
use kube_combo.Tests.Debuggers.{pinger}

abbrev pinger_store : Pinger.Client
pinger_store = record {
  World = Pinger;
  get = λ req w. ret (found w, w);
  update_status = λ p w. ret (none, p);
}

pinger_store-IsStore : IsStore pinger_store request some
pinger_store-IsStore = record {
  get_found = λ w v p h. cc;
  get_missing = λ w v e h. cc;
  update_stored = λ p w v h. cc;
}

pinger_written :
    Pinger.handle_add_or_update pinger_store request pinger
    ≡ ret ((SyncState.success, none), Pinger.with_new_status pinger)
unfolding Pinger.handle_add_or_update string_eq bool_eq Pinger.handle_fetched Pinger.fetched
    Pinger.is_changed Pinger.update_pinger
pinger_written = refl

handle_pinger-IsSynced_example : IsSynced pinger_store request some (Pinger.with_new_status pinger)
handle_pinger-IsSynced_example =
    handle_pinger-IsSynced pinger_store request some pinger_store-IsStore pinger
      (Pinger.with_new_status pinger) none pinger_written

abbrev conn_store : IpsecConn.Client
conn_store = record {
  World = IpsecConn;
  get = λ req w. ret (found w, w);
  patch = λ new old w. ret (none, new);
}

conn_store-IsStore : Labelled.IsStore conn_store request some
conn_store-IsStore = record {
  get_found = λ w v p h. cc;
  get_missing = λ w v e h. cc;
  patch_stored = λ new old w v h. cc;
}

conn_labelled :
    IpsecConn.handle_add_or_update conn_store request connection
    ≡ ret ((SyncState.success, none), IpsecConn.labelled connection)
unfolding IpsecConn.handle_add_or_update IpsecConn.handle_fetched IpsecConn.fetched
    IpsecConn.validate_ipsec_connection
conn_labelled = refl

handle_conn-IsFoundByGateway_example :
    Labelled.IsFoundByGateway conn_store request some (IpsecConn.labelled connection)
handle_conn-IsFoundByGateway_example =
    handle_conn-IsFoundByGateway conn_store request some conn_store-IsStore connection
      (IpsecConn.labelled connection) none conn_labelled
