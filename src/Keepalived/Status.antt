-- ===== src/Keepalived/Status.antt =====
-- What becomes of the router ids where `update` drops the status, as the API server does for a
-- kind with a status subresource.
use kube_combo.Prelude.{ℕ, ◌<◌, String, ◌≡◌, refl, ap, ◌∙◌, inl, inr, Option, none, some, List, []}
use kube_combo.Prelude.{◌∷◌, map, arith, ◌!=◌, ret, pure, Result, ok, err, found, Bool-cases}
use kube_combo.Prelude.{>>=-ret, subst, bool_eq, nat_eq, string_eq, option_eq, list_eq}
use kube_combo.Api.Meta.{NamespacedName}
use kube_combo.Api.KeepAlived.{KeepAlived}
use kube_combo.Sync.{SyncState}
use kube_combo.Keepalived.Alloc.{find_next_available_id, IsLeastFree}
use kube_combo.Keepalived.Handler.{Client, assigned_ids, with_router_id, get_keep_alived}
use kube_combo.Keepalived.Handler.{write_id, assign, state_of_set, set_router_id, handle_fetched}
use kube_combo.Keepalived.Handler.{handle_add_or_update}
use kube_combo.Keepalived.Room.{length, handle-assigns}
use kube_combo.Keepalived.Store.{replace_spec, IsReader, DropsStatus}

abbrev pub router_ids : List KeepAlived → List ℕ
router_ids = map (λ ka. ka.status.router_id)

router_ids-replace_spec :
    (ka : KeepAlived) (ks : List KeepAlived) → router_ids (replace_spec ka ks) ≡ router_ids ks
unfolding replace_spec
router_ids-replace_spec ka [] = refl
router_ids-replace_spec ka (k ∷ ks) = ground (arith, router_ids-replace_spec ka ks)

module _ (c : Client) (view : c.World → List KeepAlived) (reader : IsReader c view) where
  abbrev SameIds : c.World → c.World → Type 0
  SameIds v w = router_ids (view w) ≡ router_ids (view v)

  write_id-SameIds :
      DropsStatus c view
      → (ka : KeepAlived) (r : Result ℕ) (v w : c.World) (e : Option String)
      → write_id c ka r v ≡ ret (e, w)
      → SameIds v w
  unfolding write_id
  write_id-SameIds drops ka (err _) v w e h = ground arith
  write_id-SameIds drops ka (ok id) v w (some m) h =
      ap router_ids (reader.update_failed (with_router_id id ka) v w m h)
  write_id-SameIds drops ka (ok id) v w none h =
      ap router_ids (drops (with_router_id id ka) v w h)
      ∙ router_ids-replace_spec (with_router_id id ka) (view v)

  assign-SameIds :
      DropsStatus c view
      → (ka : KeepAlived) (r : Result (List KeepAlived)) (v w : c.World) (e : Option String)
      → assign c ka r v ≡ ret (e, w)
      → SameIds v w
  unfolding assign
  assign-SameIds drops ka (err _) v w e h = ground arith
  assign-SameIds drops ka (ok kas) v w e h =
      write_id-SameIds drops ka (find_next_available_id (assigned_ids kas)) v w e h

  handle_fetched-SameIds :
      DropsStatus c view
      → (r : Result (Option KeepAlived)) (v w : c.World) (a : SyncState × Option String)
      → handle_fetched c r v ≡ ret (a, w)
      → SameIds v w
  unfolding handle_fetched set_router_id
  handle_fetched-SameIds drops (err e) v w a h = ground arith
  handle_fetched-SameIds drops (ok none) v w a h = ground arith
  handle_fetched-SameIds drops (ok (some ka)) v w a h =
      elim (Bool-cases (ka.status.router_id != 0)) [
        | inl set ↦ ground arith
        | inr unset ↦
            let k = rw unset at h in
            let (e, u, done, rest) =
              >>=-ret (set_router_id c ka) (λ e. pure (state_of_set c e)) v w a k in
            let (r, t, listed, wrote) =
              >>=-ret (c.list ka.meta.namespace) (assign c ka) v u e done in
            subst (λ x. SameIds v x) (ground arith)
              (assign-SameIds drops ka r t u e wrote
                ∙ ap router_ids (reader.list_view ka.meta.namespace v t r listed))
      ]

  handle-SameIds :
      DropsStatus c view
      → (req : NamespacedName) (w w' : c.World) (a : SyncState × Option String)
      → handle_add_or_update c req w ≡ ret (a, w')
      → SameIds w w'
  unfolding handle_add_or_update
  handle-SameIds drops req w w' a h =
      let (r, v, got, rest) =
        >>=-ret (c.get req) (λ r. handle_fetched c (get_keep_alived r)) w w' a h in
      handle_fetched-SameIds drops (get_keep_alived r) v w' a rest
      ∙ ap router_ids (reader.get_view req w v r got)

pub handle-forgotten :
    (c : Client) (view : c.World → List KeepAlived)
    → IsReader c view
    → DropsStatus c view
    → (req : NamespacedName) (ka : KeepAlived) (kas : List KeepAlived) (w u t : c.World)
      (after : ℕ → c.World)
    → c.get req w ≡ ret (found ka, u)
    → ka.status.router_id ≡ 0
    → c.list ka.meta.namespace u ≡ ret (ok kas, t)
    → length kas < 255
    → ((id : ℕ)
        → IsLeastFree (assigned_ids kas) id
        → c.update (with_router_id id ka) t ≡ ret (none, after id))
    → (id : ℕ) × IsLeastFree (assigned_ids kas) id
      × (handle_add_or_update c req w ≡ ret ((SyncState.success, none), after id))
      × (router_ids (view (after id)) ≡ router_ids (view w))
handle-forgotten c view reader drops req ka kas w u t after got unset listed room writes =
    let (id, least, answered) =
      handle-assigns c req ka kas w u t after got unset listed room writes in
    (
      id,
      least,
      answered,
      handle-SameIds c view reader drops req w (after id) (SyncState.success, none) answered,
    )
