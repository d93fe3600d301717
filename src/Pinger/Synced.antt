-- ===== src/Pinger/Synced.antt =====
-- What a handled event leaves of a pinger.
use kube_combo.Prelude.{String, ◌≡◌, ap, ◌↔◌, ◌⊎◌, inl, inr, true, false, Option, none, some, arith}
use kube_combo.Prelude.{ret, pure, ok, Reply, found, not_found, failed, Bool-cases, >>=-ret, subst}
use kube_combo.Prelude.{bool_eq, nat_eq, string_eq, option_eq, list_eq}
use kube_combo.Api.Meta.{NamespacedName}
use kube_combo.Api.Pinger.{Pinger, PingerSpec, PingerStatus}
use kube_combo.Sync.{SyncState}
use kube_combo.Pinger.{Client, differs, is_changed, with_new_status, fetched, update_pinger}
use kube_combo.Pinger.{retry_on, handle_fetched, handle_add_or_update}

-- The status that shows a spec.
abbrev pub status_of : PingerSpec → PingerStatus
status_of s = record {
  image = s.image;
  enable_metrics = s.enable_metrics;
  ping = s.ping;
  tcp_ping = s.tcp_ping;
  udp_ping = s.udp_ping;
  dns = s.dns;
}

differs-eq-false : (p : Pinger) → (differs p ≡ false) ↔ (p.status ≡ status_of p.spec)
unfolding differs
differs-eq-false p = (
  λ h. ground arith,
  λ e. ground (
    arith,
    ap (λ (s : PingerStatus). s.image) e,
    ap (λ (s : PingerStatus). s.enable_metrics) e,
    ap (λ (s : PingerStatus). s.ping) e,
    ap (λ (s : PingerStatus). s.tcp_ping) e,
    ap (λ (s : PingerStatus). s.udp_ping) e,
    ap (λ (s : PingerStatus). s.dns) e,
  ),
)

status-with_new_status :
    (p : Pinger) → (with_new_status p).status ≡ status_of (with_new_status p).spec
unfolding with_new_status
status-with_new_status p = ground arith

-- A pinger counts as changed exactly when it is not being deleted and its status does not show
-- its spec, and it does not count as changed once the new status is written.
pub is_changed_lem :
    (p : Pinger)
    → ((is_changed p ≡ false) ↔ ((p.meta.deleting ≡ true) ⊎ (p.status ≡ status_of p.spec)))
      × (is_changed (with_new_status p) ≡ false)
unfolding is_changed
is_changed_lem p = (
  ground (arith, differs-eq-false p),
  ground (arith, (differs-eq-false (with_new_status p)).1 (status-with_new_status p)),
)

module _ (c : Client) (req : NamespacedName) (view : c.World → Option Pinger) where
  -- The reads show the stored pinger, and a write of the status stores it.
  pub record IsStore : Type 0 where
    pub get_found : (w v : c.World) (p : Pinger) → c.get req w ≡ ret (found p, v) → view v ≡ some p
    pub get_missing :
        (w v : c.World) (e : String) → c.get req w ≡ ret (not_found e, v) → view v ≡ none
    pub update_stored :
        (p : Pinger) (w v : c.World) → c.update_status p w ≡ ret (none, v) → view v ≡ some p

  -- The pinger that is stored, if there is one, is being deleted or has a status that shows its
  -- spec.
  abbrev pub IsSynced : c.World → Type 0
  IsSynced w =
      (p : Pinger) → view w ≡ some p → (p.meta.deleting ≡ true) ⊎ (p.status ≡ status_of p.spec)

  module _ (store : IsStore) where
    update_pinger-IsSynced :
        (p : Pinger) (v w' : c.World)
        → view v ≡ some p
        → update_pinger c p v ≡ ret (none, w')
        → IsSynced w'
    unfolding update_pinger
    update_pinger-IsSynced p v w' shown h q e = elim (Bool-cases (differs p)) [
      | inl yes_eq ↦
          let stored = store.update_stored (with_new_status p) v w' (rw yes_eq at h) in
          let same : with_new_status p ≡ q = cc in
          inr (subst (λ (x : Pinger). x.status ≡ status_of x.spec) same (status-with_new_status p))
      | inr no_eq ↦
          let k = rw no_eq at h in
          let same : v ≡ w' = cc in
          let shown' : p ≡ q = cc in
          inr (
            subst (λ (x : Pinger). x.status ≡ status_of x.spec) shown'
              ((differs-eq-false p).0 no_eq))
    ]

    handle_fetched-IsSynced :
        (o : Option Pinger) (v w' : c.World) (e : Option String)
        → view v ≡ o
        → handle_fetched c (ok o) v ≡ ret ((SyncState.success, e), w')
        → IsSynced w'
    unfolding handle_fetched
    handle_fetched-IsSynced none v w' e shown h q k =
        let same : v ≡ w' = cc in let gone : ◌≡◌ {A = Option Pinger} none (some q) = cc in cc
    handle_fetched-IsSynced (some p) v w' e shown h q k = elim (Bool-cases (is_changed p)) [
      | inr no_eq ↦
          let g = rw no_eq at h in
          let same : v ≡ w' = cc in
          let shown' : p ≡ q = cc in
          subst (λ (x : Pinger). (x.meta.deleting ≡ true) ⊎ (x.status ≡ status_of x.spec)) shown'
            ((is_changed_lem p).0.0 no_eq)
      | inl yes_eq ↦
          let (r, u, done, rest) =
            >>=-ret (update_pinger c p) (λ r. pure (retry_on c r)) v w' (SyncState.success, e)
              (rw yes_eq at h) in
          updated r u done rest
    ]
      where
        updated :
            (r : Option String) (u : c.World)
            → update_pinger c p v ≡ ret (r, u)
            → pure (retry_on c r) u ≡ ret ((SyncState.success, e), w')
            → (q.meta.deleting ≡ true) ⊎ (q.status ≡ status_of q.spec)
        updated (some m) u done rest = cc
        updated none u done rest =
            let same : u ≡ w' = cc in
            update_pinger-IsSynced p v w' shown
              (subst (λ x. update_pinger c p v ≡ ret (none, x)) same done) q k

-- A handled event that succeeds leaves a pinger whose status shows its spec, unless the pinger is
-- being deleted or is gone, if the reads show the stored pinger and a written status is stored.
pub handle_pinger-IsSynced :
    (c : Client) (req : NamespacedName) (view : c.World → Option Pinger)
    → IsStore c req view
    → (w w' : c.World) (e : Option String)
    → handle_add_or_update c req w ≡ ret ((SyncState.success, e), w')
    → IsSynced c req view w'
unfolding handle_add_or_update fetched handle_fetched
handle_pinger-IsSynced c req view store w w' e h =
    let (r, v, got, rest) =
      >>=-ret (c.get req) (λ r. handle_fetched c (fetched r)) w w' (SyncState.success, e) h in
    by_reply r v got rest
  where
    by_reply :
        (r : Reply Pinger) (v : c.World)
        → c.get req w ≡ ret (r, v)
        → handle_fetched c (fetched r) v ≡ ret ((SyncState.success, e), w')
        → IsSynced c req view w'
    by_reply (found p) v got rest =
        handle_fetched-IsSynced c req view store (some p) v w' e (store.get_found w v p got) rest
    by_reply (not_found m) v got rest =
        handle_fetched-IsSynced c req view store none v w' e (store.get_missing w v m got) rest
    by_reply (failed m) v got rest = cc
