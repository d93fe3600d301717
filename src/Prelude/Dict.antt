-- ===== src/Prelude/Dict.antt =====
-- Go maps from texts to texts, as association lists.
use Prim.Native.String.{String}
use mathlib.Core.Path.{◌≡◌, refl}
use mathlib.Core.Option.{Option, none, some}
use mathlib.Core.List.{List, [], ◌∷◌}
use native.Mathlib.Omega.{arith}
use kube_combo.Prelude.Equality.{◌==◌, string_eq, if◌then◌else◌}

abbrev pub Dict : Type 0
Dict = List (String × String)

unfoldable pub lookup : String → Dict → Option String
lookup k [] = none
lookup k ((j, v) ∷ m) = if k == j then some v else lookup k m

-- `m[k] = v`
unfoldable pub insert : String → String → Dict → Dict
insert k v [] = (k, v) ∷ []
insert k v ((j, w) ∷ m) = if k == j then (k, v) ∷ m else (j, w) ∷ insert k v m

pub lookup-nil : (k : String) → lookup k [] ≡ none
unfolding lookup
lookup-nil k = refl

pub lookup-insert :
    (j k v : String) (m : Dict) → lookup j (insert k v m) ≡ (if j == k then some v else lookup j m)
unfolding lookup insert
lookup-insert j k v [] = refl
lookup-insert j k v (_ ∷ m) = ground (arith, lookup-insert j k v m)

-- `for k, v := range new { m[k] = v }`
unfoldable pub insert_all : Dict → Dict → Dict
insert_all [] m = m
insert_all ((k, v) ∷ new) m = insert_all new (insert k v m)
