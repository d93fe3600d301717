-- ===== src/Keepalived/Alloc.antt =====
-- The choice of a virtual router id: `findNextAvailableID`.
use kube_combo.Prelude.{ℕ, zero, suc, ◌+◌, ◌≤◌, ◌<◌, String, ◌≡◌, refl, ap, ◌↔◌, ◌⊎◌, inl, inr}
use kube_combo.Prelude.{true, false, Option, none, some, List, [], ◌∷◌, arith, contains, Result, ok}
use kube_combo.Prelude.{err, Option-cases, bool_eq, nat_eq, string_eq, option_eq, list_eq}

abbrev pub max_router_id : ℕ
max_router_id = 255

-- The loop over the candidates `i`, `i + 1`, …, with `rounds` of them left.
unfoldable pub first_free : ℕ → ℕ → List ℕ → Option ℕ
first_free zero i used = none
first_free (suc rounds) i used = elim (contains used i) [
  | true ↦ first_free rounds (suc i) used
  | false ↦ some i
]

abbrev pub ids_exhausted : String
ids_exhausted = "cannot allocate more than 255 ids in one keepalived group"

abbrev of_option : Option ℕ → Result ℕ
of_option none = err ids_exhausted
of_option (some i) = ok i

unfoldable pub find_next_available_id : List ℕ → Result ℕ
find_next_available_id [] = ok 1
find_next_available_id (u ∷ used) = of_option (first_free max_router_id 1 (u ∷ used))

module _ (used : List ℕ) where
  first_free_range :
      (rounds i r : ℕ)
      → first_free rounds i used ≡ some r
      → (i ≤ r) × (r < i + rounds) × (contains used r ≡ false)
  unfolding first_free
  first_free_range zero i r h = cc
  first_free_range (suc rounds) i r h = ground (arith, first_free_range rounds (suc i) r)

  first_free_below :
      (rounds i r j : ℕ)
      → first_free rounds i used ≡ some r
      → i ≤ j
      → j < r
      → contains used j ≡ true
  unfolding first_free
  first_free_below zero i r j h p q = cc
  first_free_below (suc rounds) i r j h p q = ground (arith, first_free_below rounds (suc i) r j)

  first_free-none :
      (rounds i j : ℕ)
      → first_free rounds i used ≡ none
      → i ≤ j
      → j < i + rounds
      → contains used j ≡ true
  unfolding first_free
  first_free-none zero i j h p q = absurd (omega arith)
  first_free-none (suc rounds) i j h p q = ground (arith, first_free-none rounds (suc i) j)

  first_free_full :
      (rounds i : ℕ)
      → ((j : ℕ) → i ≤ j → j < i + rounds → contains used j ≡ true)
      → first_free rounds i used ≡ none
  unfolding first_free
  first_free_full zero i full = refl
  first_free_full (suc rounds) i full =
      rw (full i (omega arith) (omega arith), first_free)
        (first_free_full rounds (suc i) (λ j p q. full j (omega arith) (omega arith)))

-- The id that is chosen lies in 1..255, is not used, and every smaller one from 1 on is used.
pub find_next_available_id_ok :
    (used : List ℕ) (r : ℕ)
    → find_next_available_id used ≡ ok r
    → (1 ≤ r)
      × (r ≤ 255)
      × (contains used r ≡ false)
      × ((j : ℕ) → 1 ≤ j → j < r → contains used j ≡ true)
unfolding find_next_available_id
find_next_available_id_ok [] r h = (ground arith, ground arith, refl, λ j p q. ground arith)
find_next_available_id_ok (u ∷ used) r h =
    let e : first_free max_router_id 1 (u ∷ used) ≡ some r = ground arith in
    let (low, high, free) = first_free_range (u ∷ used) max_router_id 1 r e in
    (low, omega arith, free, λ j p q. first_free_below (u ∷ used) max_router_id 1 r j e p q)

-- The choice fails exactly when each of the ids 1..255 is used.
pub find_next_available_id_err :
    (used : List ℕ)
    → (find_next_available_id used ≡ err ids_exhausted)
      ↔ ((j : ℕ) → 1 ≤ j → j ≤ 255 → contains used j ≡ true)
unfolding find_next_available_id
find_next_available_id_err [] = (λ h. cc, λ full. cc (full 1 (omega arith) (omega arith)))
find_next_available_id_err (u ∷ used) = (
  λ h j p q. first_free-none (u ∷ used) max_router_id 1 j (ground arith) p (omega arith),
  λ full.
      ap of_option (first_free_full (u ∷ used) max_router_id 1 (λ j p q. full j p (omega arith))),
)

-- What is asked of an id: it is the least of 1..255 that is not used.
pub record IsLeastFree (used : List ℕ) (id : ℕ) : Type 0 where
  pub low : 1 ≤ id
  pub high : id ≤ 255
  pub free : contains used id ≡ false
  pub least : (j : ℕ) → 1 ≤ j → j < id → contains used j ≡ true

IsLeastFree-unique : (used : List ℕ) (a b : ℕ) → IsLeastFree used a → IsLeastFree used b → a ≡ b
IsLeastFree-unique used a b p q = ground (arith, p.least b, q.least a)

pub find_next_available_id-cases :
    (used : List ℕ)
    → ((id : ℕ) × (find_next_available_id used ≡ ok id))
      ⊎ (find_next_available_id used ≡ err ids_exhausted)
unfolding find_next_available_id
find_next_available_id-cases [] = inl (1, refl)
find_next_available_id-cases (u ∷ used) =
    elim (Option-cases (first_free max_router_id 1 (u ∷ used))) [
      | inl e ↦ inr (ap of_option e)
      | inr (id, e) ↦ inl (id, ap of_option e)
    ]

pub chosen-IsLeastFree :
    (used : List ℕ) (id : ℕ) → find_next_available_id used ≡ ok id → IsLeastFree used id
chosen-IsLeastFree used id h =
    let (low, high, free, least) = find_next_available_id_ok used id h in
    record { low = low; high = high; free = free; least = least }

IsLeastFree-chosen :
    (used : List ℕ) (id : ℕ) → IsLeastFree used id → find_next_available_id used ≡ ok id
IsLeastFree-chosen used id f = elim (find_next_available_id-cases used) [
  | inl (other, e) ↦ rw (IsLeastFree-unique used id other f (chosen-IsLeastFree used other e)) e
  | inr e ↦ absurd (ground (arith, f.free, (find_next_available_id_err used).0 e id f.low f.high))
]

-- The choice gives the least id of 1..255 that is not used, and fails exactly when all are used.
pub find_next_available_id_iff :
    (used : List ℕ)
    → ((id : ℕ) → (find_next_available_id used ≡ ok id) ↔ IsLeastFree used id)
      × ((find_next_available_id used ≡ err ids_exhausted)
          ↔ ((j : ℕ) → 1 ≤ j → j ≤ 255 → contains used j ≡ true))
find_next_available_id_iff used = (
  λ id. (chosen-IsLeastFree used id, IsLeastFree-chosen used id),
  find_next_available_id_err used,
)
