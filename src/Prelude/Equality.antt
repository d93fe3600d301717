-- ===== src/Prelude/Equality.antt =====
-- Go's `==`, for every type whose equality can be decided, and `reflect.DeepEqual` on slices.
use Prim.Native.Nat.{ℕ, compare, Ordering}
use Prim.Native.String.{String}
use mathlib.Core.Path.{◌≡◌, refl}
use mathlib.Core.Logic.{ite, dite, ◌↔◌, ◌⊎◌}
use mathlib.Core.Bool.{Bool, not, true, false, cond, ◌||◌, Bool-discrete}
use mathlib.Core.Option
use mathlib.Core.Option.{Option}
use mathlib.Core.List.{List, [], ◌∷◌, List-discrete}
use native.Mathlib.Omega.{arith}
use native.Mathlib.Decide.{ℕ_discrete}
use text.Mathlib.Text
use text.Mathlib.TextEquality.{eq_iff}

infix 1 if◌then◌else◌
abbrev pub if◌then◌else◌ {ℓ} : {A : Type ℓ} → Bool → A → A → A
if b then x else y = cond b x y

pub if_true {ℓ} : {A : Type ℓ} (b : Bool) (x y : A) → b ≡ true → (if b then x else y) ≡ x
if_true b x y h = rw h refl

pub if_false {ℓ} : {A : Type ℓ} (b : Bool) (x y : A) → b ≡ false → (if b then x else y) ≡ y
if_false b x y h = rw h refl

-- Tests on numbers.
abbrev pub ltb : ℕ → ℕ → Bool
ltb a b = elim (compare a b) [ Ordering.lt ↦ true | _ ↦ false ]

abbrev pub leb : ℕ → ℕ → Bool
leb a b = elim (compare a b) [ Ordering.gt ↦ false | _ ↦ true ]

pub record Eq {ℓ} (A : Type ℓ) : Type ℓ where
  pub dec : Discrete A

module _ {ℓ} {A : Type ℓ} ⦃e : Eq A⦄ where
  infix 50 ◌==◌ ◌!=◌
  abbrev pub ◌==◌ : A → A → Bool
  a == b = ite (e.dec a b) true false

  abbrev pub ◌!=◌ : A → A → Bool
  a != b = ite (e.dec a b) false true

  abbrev pub contains : List A → A → Bool
  contains [] a = false
  contains (x ∷ xs) a = a == x || contains xs a

  pub ==_iff : (a b : A) → ((a == b) ≡ true) ↔ (a ≡ b)
  ==_iff a b = ground arith

  pub ==_refl : (a : A) → (a == a) ≡ true
  ==_refl a = (==_iff a a).1 refl

  pub !=_refl : (a : A) → (a != a) ≡ false
  !=_refl a = ground arith

  pub ==_cases : (a b : A) → (a ≡ b) ⊎ ((a == b) ≡ false)
  ==_cases a b = ground arith

  -- A field that is copied where it differs.
  pub if-!= : (a b : A) → (if a != b then b else a) ≡ b
  if-!= a b = ground arith

  -- `reflect.DeepEqual`, which stays shut in proofs.
  unfoldable pub deep_equal : A → A → Bool
  deep_equal a b = a == b

  pub deep_equal_iff : (a b : A) → (deep_equal a b ≡ true) ↔ (a ≡ b)
  unfolding deep_equal
  deep_equal_iff a b = ==_iff a b

  -- A field that is copied where it differs, with the new value first.
  pub copied : (a b : A) → (if a != b then a else b) ≡ a
  copied a b = ground arith

  pub copied_deep : (a b : A) → (if not (deep_equal a b) then a else b) ≡ a
  copied_deep a b = ground (arith, deep_equal_iff a b)

  instance unfoldable pub option_eq : Eq (Option A)
  option_eq = record { dec = Option.discrete e.dec }

  instance unfoldable pub list_eq : Eq (List A)
  list_eq = record { dec = List-discrete e.dec }

instance unfoldable pub bool_eq : Eq Bool
bool_eq = record { dec = Bool-discrete }

instance unfoldable pub nat_eq : Eq ℕ
unfolding ℕ_discrete
nat_eq = record { dec = ℕ_discrete }

-- Shut in proofs, where a split on `s == t` yields the equation or its negation.
string_dec : Discrete String
string_dec s t =
    dite (Bool-discrete (Text.◌==◌ s t) true) (λ same. yes ((eq_iff s t).0 same))
      (λ differ. no (λ p. differ ((eq_iff s t).1 p)))

instance unfoldable pub string_eq : Eq String
unfolding string_dec
string_eq = record { dec = string_dec }
