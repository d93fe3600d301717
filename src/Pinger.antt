-- ===== src/Pinger.antt =====
-- The Pinger reconciler (internal/controller/pinger_controller.go).
pub mod Synced
use kube_combo.Prelude.{String, Bool, false, ◌||◌, Option, none, some, if◌then◌else◌, ◌!=◌, Io}
use kube_combo.Prelude.{◌>>=◌, ◌>>◌, pure, Result, ok, err, Reply, found, not_found, failed}
use kube_combo.Prelude.{bool_eq, nat_eq, string_eq, option_eq, list_eq}
use kube_combo.Api.Meta.{NamespacedName}
use kube_combo.Api.Pinger.{Pinger, PingerStatus}
use kube_combo.Sync.{SyncState, Stats, Answer, conclude}

-- The calls of the API server, over the state of the cluster.
pub record Client : Type 1 where
  pub World : Type 0
  pub get : NamespacedName → Io World (Reply Pinger)
  pub update_status : Pinger → Io World (Option String)

-- The comparisons that `isChanged` and `updatePinger` both make.
unfoldable pub differs : Pinger → Bool
differs p =
    p.status.image != p.spec.image
    || (p.status.enable_metrics != p.spec.enable_metrics
        || (p.status.ping != p.spec.ping
            || (p.status.tcp_ping != p.spec.tcp_ping
                || (p.status.udp_ping != p.spec.udp_ping || p.status.dns != p.spec.dns))))

-- A pinger that is being deleted counts as unchanged.
unfoldable pub is_changed : Pinger → Bool
unfolding differs
is_changed p = if p.meta.deleting then false else differs p

-- The pinger after the assignments of `updatePinger`.
unfoldable pub with_new_status : Pinger → Pinger
with_new_status p = record p {
  status = record {
    image = if p.status.image != p.spec.image then p.spec.image else p.status.image;
    enable_metrics =
        if p.status.enable_metrics != p.spec.enable_metrics
        then p.spec.enable_metrics
        else p.status.enable_metrics;
    ping = if p.status.ping != p.spec.ping then p.spec.ping else p.status.ping;
    tcp_ping = if p.status.tcp_ping != p.spec.tcp_ping then p.spec.tcp_ping else p.status.tcp_ping;
    udp_ping = if p.status.udp_ping != p.spec.udp_ping then p.spec.udp_ping else p.status.udp_ping;
    dns = if p.status.dns != p.spec.dns then p.spec.dns else p.status.dns;
  };
}

-- `getPinger`: a missing object is no error.
unfoldable pub fetched : Reply Pinger → Result (Option Pinger)
fetched (found p) = ok (some p)
fetched (not_found e) = ok none
fetched (failed e) = err e

module _ (c : Client) where
  open c use {World, get, update_status}

  unfoldable pub update_pinger : Pinger → Io World (Option String)
  update_pinger p = if differs p then update_status (with_new_status p) else pure none

  abbrev pub retry_on : Option String → SyncState × Option String
  retry_on none = (SyncState.success, none)
  retry_on (some e) = (SyncState.error, some e)

  unfoldable pub handle_fetched : Result (Option Pinger) → Io World (SyncState × Option String)
  handle_fetched (err e) = pure (SyncState.error, some e)
  handle_fetched (ok none) = pure (SyncState.success, none)
  handle_fetched (ok (some p)) =
      if is_changed p
      then (do e ← update_pinger p; pure (retry_on e))
      else pure (SyncState.success, none)

  unfoldable pub handle_add_or_update : NamespacedName → Io World (SyncState × Option String)
  handle_add_or_update req = do reply ← get req; handle_fetched (fetched reply)

  unfoldable pub reconcile : NamespacedName → Stats → Io World (Answer × Stats)
  reconcile req stats = do r ← handle_add_or_update req; pure (conclude 0 r.0 stats)
