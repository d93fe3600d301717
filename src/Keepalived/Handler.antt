-- ===== src/Keepalived/Handler.antt =====
-- The handler of a KeepAlived event: `handleAddOrUpdateKeepAlived` and `setRouterID`.
use kube_combo.Prelude.{ℕ, String, Option, none, some, List, [], ◌∷◌, if◌then◌else◌, ◌!=◌, Io}
use kube_combo.Prelude.{◌>>=◌, pure, Result, ok, err, Reply, found, not_found, failed, bool_eq}
use kube_combo.Prelude.{nat_eq, string_eq, option_eq, list_eq}
use kube_combo.Api.Meta.{NamespacedName}
use kube_combo.Api.KeepAlived.{KeepAlived}
use kube_combo.Sync.{SyncState, Stats, Answer, conclude}
use kube_combo.Keepalived.Alloc.{find_next_available_id}

-- The calls of the API server that the reconciler makes, over the state of the cluster.
pub record Client : Type 1 where
  pub World : Type 0
  pub get : NamespacedName → Io World (Reply KeepAlived)
  pub list : String → Io World (Result (List KeepAlived))
  pub update : KeepAlived → Io World (Option String)

-- The ids of a list of objects that are not 0.
unfoldable pub assigned_ids : List KeepAlived → List ℕ
assigned_ids [] = []
assigned_ids (ka ∷ kas) =
    if ka.status.router_id != 0 then ka.status.router_id ∷ assigned_ids kas else assigned_ids kas

abbrev pub with_router_id : ℕ → KeepAlived → KeepAlived
with_router_id id ka = record ka { status = record { router_id = id } }

-- `getKeepAlived`: a missing object is no error.
unfoldable pub get_keep_alived : Reply KeepAlived → Result (Option KeepAlived)
get_keep_alived (found ka) = ok (some ka)
get_keep_alived (not_found e) = ok none
get_keep_alived (failed e) = err e

module _ (c : Client) where
  open c use {World, get, list, update}

  -- The end of `setRouterID`, after the choice of an id.
  unfoldable pub write_id : KeepAlived → Result ℕ → Io World (Option String)
  write_id ka (err e) = pure (some e)
  write_id ka (ok id) = update (with_router_id id ka)

  -- The part of `setRouterID` after the list.
  unfoldable pub assign : KeepAlived → Result (List KeepAlived) → Io World (Option String)
  unfolding assigned_ids write_id
  assign ka (err e) = pure (some e)
  assign ka (ok kas) = write_id ka (find_next_available_id (assigned_ids kas))

  unfoldable pub set_router_id : KeepAlived → Io World (Option String)
  unfolding assign
  set_router_id ka = do kas ← list ka.meta.namespace; assign ka kas

  abbrev pub state_of_set : Option String → SyncState × Option String
  state_of_set none = (SyncState.success, none)
  state_of_set (some e) = (SyncState.error_no_retry, some e)

  -- What the handler does with the object that it fetched.
  unfoldable pub handle_fetched : Result (Option KeepAlived) → Io World (SyncState × Option String)
  unfolding set_router_id
  handle_fetched (err e) = pure (SyncState.error, some e)
  handle_fetched (ok none) = pure (SyncState.success, none)
  handle_fetched (ok (some ka)) =
      if ka.status.router_id != 0
      then pure (SyncState.success, none)
      else do e ← set_router_id ka; pure (state_of_set e)

  unfoldable pub handle_add_or_update : NamespacedName → Io World (SyncState × Option String)
  unfolding handle_fetched get_keep_alived
  handle_add_or_update req = do reply ← get req; handle_fetched (get_keep_alived reply)

  unfoldable pub reconcile : NamespacedName → Stats → Io World (Answer × Stats)
  unfolding handle_add_or_update
  reconcile req stats = do r ← handle_add_or_update req; pure (conclude 0 r.0 stats)
