-- ===== src/Keepalived/Tests/Runs.antt =====
-- Events over the store of the parent.
use kube_combo.Prelude.{ℕ, ◌≤◌, ◌≡◌, refl, ◌↔◌, true, none, [], ◌∷◌, arith, contains, ret, ok, err}
use kube_combo.Prelude.{bool_eq, nat_eq, string_eq, option_eq, list_eq}
use kube_combo.Api.KeepAlived.{KeepAlived}
use kube_combo.Sync.{SyncState}
use kube_combo.Keepalived.Alloc.{find_next_available_id, IsLeastFree}
use kube_combo.Keepalived.Alloc.{find_next_available_id_iff, ids_exhausted}
use kube_combo.Keepalived.Room.{handle-assigns}
use kube_combo.Keepalived.Store.{replace_spec}
use kube_combo.Keepalived.Status.{router_ids, handle-forgotten}
use kube_combo.Keepalived.Tests.{store, store-IsReader, drops, ka, kas, request, find, replace}
use kube_combo.Keepalived.Tests.{in_namespace}
use kube_combo.Keepalived.Handler.{assigned_ids, with_router_id, handle_add_or_update}

find_next_available_id_iff_example :
    ((id : ℕ) → (find_next_available_id (1 ∷ 3 ∷ []) ≡ ok id) ↔ IsLeastFree (1 ∷ 3 ∷ []) id)
    × ((find_next_available_id (1 ∷ 3 ∷ []) ≡ err ids_exhausted)
        ↔ ((j : ℕ) → 1 ≤ j → j ≤ 255 → contains (1 ∷ 3 ∷ []) j ≡ true))
find_next_available_id_iff_example = find_next_available_id_iff (1 ∷ 3 ∷ [])

abbrev two : KeepAlived
two = ka "a" "two" 0

handle-assigns_example :
    (id : ℕ) × IsLeastFree (assigned_ids (in_namespace "a" kas)) id
    × (handle_add_or_update (store replace) request kas
        ≡ ret ((SyncState.success, none), replace (with_router_id id two) kas))
unfolding find in_namespace string_eq
handle-assigns_example =
    handle-assigns (store replace) request two (in_namespace "a" kas) kas kas kas
      (λ id. replace (with_router_id id two) kas) refl refl refl (omega arith) (λ id least. refl)

handle-forgotten_example :
    (id : ℕ) × IsLeastFree (assigned_ids (in_namespace "a" kas)) id
    × (handle_add_or_update (store replace_spec) request kas
        ≡ ret ((SyncState.success, none), replace_spec (with_router_id id two) kas))
    × (router_ids (replace_spec (with_router_id id two) kas) ≡ router_ids kas)
unfolding find in_namespace string_eq
handle-forgotten_example =
    handle-forgotten (store replace_spec) (λ w. w) (store-IsReader replace_spec) drops request two
      (in_namespace "a" kas) kas kas kas (λ id. replace_spec (with_router_id id two) kas) refl refl
      refl (omega arith) (λ id least. refl)
