-- ===== src/Keepalived/Room.antt =====
-- While fewer than 255 ids are used, one is free, and an object without an id gets one.
use kube_combo.Prelude.{ℕ, zero, suc, ◌+◌, ◌≤◌, ◌<◌, ◌≡◌, ◌∙◌, ◌≢◌, inl, inr, true, false, none}
use kube_combo.Prelude.{List, [], ◌∷◌, arith, if◌then◌else◌, ◌==◌, ◌!=◌, contains, ret, pure, ok}
use kube_combo.Prelude.{found, >>=-of_ret, bool_eq, nat_eq, string_eq, option_eq, list_eq}
use kube_combo.Keepalived.Alloc.{find_next_available_id, find_next_available_id-cases}
use kube_combo.Keepalived.Alloc.{find_next_available_id_err, IsLeastFree, chosen-IsLeastFree}
use kube_combo.Api.Meta.{NamespacedName}
use kube_combo.Api.KeepAlived.{KeepAlived}
use kube_combo.Sync.{SyncState}
use kube_combo.Keepalived.Handler.{Client, assigned_ids, with_router_id, get_keep_alived, write_id}
use kube_combo.Keepalived.Handler.{assign, state_of_set, set_router_id, handle_fetched}
use kube_combo.Keepalived.Handler.{handle_add_or_update}

abbrev pub length {ℓ} : {A : Type ℓ} → List A → ℕ
length [] = 0
length (x ∷ xs) = suc (length xs)

-- The list without the entries of one value.
erase : ℕ → List ℕ → List ℕ
erase a [] = []
erase a (x ∷ xs) = if a == x then erase a xs else x ∷ erase a xs

length-erase_le : (a : ℕ) (xs : List ℕ) → length (erase a xs) ≤ length xs
unfolding erase
length-erase_le a [] = omega arith
length-erase_le a (x ∷ xs) = ground (arith, length-erase_le a xs)

length-erase_lt : (a : ℕ) (xs : List ℕ) → contains xs a ≡ true → length (erase a xs) < length xs
unfolding erase
length-erase_lt a [] h = cc
length-erase_lt a (x ∷ xs) h = ground (arith, length-erase_le a xs, length-erase_lt a xs)

contains-erase :
    (a b : ℕ) (xs : List ℕ) → a ≢ b → contains xs b ≡ true → contains (erase a xs) b ≡ true
unfolding erase
contains-erase a b [] n h = cc
contains-erase a b (x ∷ xs) n h = ground (arith, contains-erase a b xs)

-- A list that has `n` successive numbers is at least that long.
length-le_of_range :
    (n i : ℕ) (xs : List ℕ) → ((j : ℕ) → i ≤ j → j < i + n → contains xs j ≡ true) → n ≤ length xs
length-le_of_range zero i xs full = omega arith
length-le_of_range (suc n) i xs full = omega (
  arith,
  length-erase_lt i xs (full i (omega arith) (omega arith)),
  length-le_of_range n (suc i) (erase i xs)
      (λ j p q. contains-erase i j xs (omega arith) (full j (omega arith) (omega arith))),
)

-- If fewer than 255 entries are used, an id is chosen, whatever the entries are.
pub find_next_available_id_total :
    (used : List ℕ)
    → length used < 255
    → (id : ℕ) × (find_next_available_id used ≡ ok id) × IsLeastFree used id
find_next_available_id_total used room = elim (find_next_available_id-cases used) [
  | inl (id, e) ↦ (id, e, chosen-IsLeastFree used id e)
  | inr e ↦
      let full =
        length-le_of_range 255 1 used
          (λ j p q. (find_next_available_id_err used).0 e j p (omega arith)) in
      absurd (omega arith)
]

length-assigned_ids : (kas : List KeepAlived) → length (assigned_ids kas) ≤ length kas
unfolding assigned_ids
length-assigned_ids [] = omega arith
length-assigned_ids (ka ∷ kas) = ground (arith, length-assigned_ids kas)

set_router_id_writes :
    (c : Client) (ka : KeepAlived) (kas : List KeepAlived) (id : ℕ) (u t v : c.World)
    → c.list ka.meta.namespace u ≡ ret (ok kas, t)
    → find_next_available_id (assigned_ids kas) ≡ ok id
    → c.update (with_router_id id ka) t ≡ ret (none, v)
    → set_router_id c ka u ≡ ret (none, v)
unfolding set_router_id assign write_id
set_router_id_writes c ka kas id u t v listed chosen wrote =
    >>=-of_ret (c.list ka.meta.namespace) (assign c ka) u t (ok kas) listed ∙ rw chosen wrote

-- An event for an object without an id is answered with success, and the least free id of its
-- namespace is written, if the namespace has fewer than 255 objects, the calls succeed, and the
-- write of every such id is accepted.
pub handle-assigns :
    (c : Client) (req : NamespacedName) (ka : KeepAlived) (kas : List KeepAlived) (w u t : c.World)
    (after : ℕ → c.World)
    → c.get req w ≡ ret (found ka, u)
    → ka.status.router_id ≡ 0
    → c.list ka.meta.namespace u ≡ ret (ok kas, t)
    → length kas < 255
    → ((id : ℕ)
        → IsLeastFree (assigned_ids kas) id
        → c.update (with_router_id id ka) t ≡ ret (none, after id))
    → (id : ℕ) × IsLeastFree (assigned_ids kas) id
      × (handle_add_or_update c req w ≡ ret ((SyncState.success, none), after id))
unfolding handle_add_or_update handle_fetched get_keep_alived
handle-assigns c req ka kas w u t after got unset listed room writes =
    let (id, chosen, least) =
      find_next_available_id_total (assigned_ids kas) (omega (arith, length-assigned_ids kas)) in
    let z : (ka.status.router_id != 0) ≡ false = ground arith in
    (
      id,
      least,
      >>=-of_ret (c.get req) (λ r. handle_fetched c (get_keep_alived r)) w u (found ka) got
          ∙ rw z (
              >>=-of_ret (set_router_id c ka) (λ e. pure (state_of_set c e)) u (after id) none
                (set_router_id_writes c ka kas id u t (after id) listed chosen (writes id least))),
    )
