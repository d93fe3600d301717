-- ===== src/Prelude/Control.antt =====
-- Go's control flow: a call returns or panics, and may change the state of the cluster.
use Prim.Native.String.{String}
use mathlib.Core.Path.{◌≡◌, refl, ap, ◌∙◌}
use mathlib.Core.Logic.{◌⊎◌, ◌↔◌, inl, inr}
use native.Mathlib.Omega.{arith}
use mathlib.Core.Bool.{Bool, true, false}
use mathlib.Core.Option.{Option, none, some}
use mathlib.Core.List.{List}

-- A slice, which may be nil.
abbrev pub Slice {ℓ} : Type ℓ → Type ℓ
Slice A = Option (List A)

abbrev pub is_nil {ℓ} : {A : Type ℓ} → Slice A → Bool
is_nil none = true
is_nil (some xs) = false

-- What a call does: it returns, or it panics.
pub data Go {ℓ} (A : Type ℓ) : Type ℓ where
  ret : A → Go A
  panic : Go A

-- Code that reads and writes the state `W` of what is outside the program.
abbrev pub Io {ℓ} : Type 0 → Type ℓ → Type ℓ
Io W A = W → Go (A × W)

infixl 5 ◌>>=◌ ◌>>◌
abbrev pub ◌>>=◌ {ℓ κ} : {W : Type 0} {A : Type ℓ} {B : Type κ} → Io W A → (A → Io W B) → Io W B
◌>>=◌ m f w = elim (m w) [ panic ↦ panic | ret (a, v) ↦ f a v ]

abbrev pub ◌>>◌ {ℓ κ} : {W : Type 0} {A : Type ℓ} {B : Type κ} → Io W A → Io W B → Io W B
m >> k = m >>= λ _. k

abbrev pub pure {ℓ} : {W : Type 0} {A : Type ℓ} → A → Io W A
pure a w = ret (a, w)

-- A computation that touches no state.
abbrev pub lift {ℓ} : {W : Type 0} {A : Type ℓ} → Go A → Io W A
lift g w = elim g [ panic ↦ panic | ret a ↦ ret (a, w) ]

-- A pair of a value and an `error`, of which one counts.
pub data Result {ℓ} (A : Type ℓ) : Type ℓ where
  ok : A → Result A
  err : String → Result A

-- What `Get` gives: the object, "not found", or another error. The text is the error's message.
pub data Reply {ℓ} (A : Type ℓ) : Type ℓ where
  found : A → Reply A
  not_found : String → Reply A
  failed : String → Reply A

pub Bool-cases : (b : Bool) → (b ≡ true) ⊎ (b ≡ false)
Bool-cases true = inl refl
Bool-cases false = inr refl

pub Option-cases {ℓ} : {A : Type ℓ} (o : Option A) → (o ≡ none) ⊎ ((a : A) × (o ≡ some a))
Option-cases none = inl refl
Option-cases (some a) = inr (a, refl)

-- A step that returned has a first part that returned.
pub >>=-ret {ℓ κ} :
    {W : Type 0} {A : Type ℓ} {B : Type κ} (m : Io W A) (f : A → Io W B) (w w' : W) (b : B)
    → (m >>= f) w ≡ ret (b, w')
    → (a : A) × (v : W) × (m w ≡ ret (a, v)) × (f a v ≡ ret (b, w'))
>>=-ret {W} {A} {B} m f w w' b h = go (m w) refl h
  where
    go :
        (x : Go (A × W))
        → m w ≡ x
        → (elim x [ panic ↦ panic | ret (a, v) ↦ f a v ]) ≡ ret (b, w')
        → (a : A) × (v : W) × (m w ≡ ret (a, v)) × (f a v ≡ ret (b, w'))
    go (ret (a, v)) e k = (a, v, e, k)
    go panic e k = cc

-- A step whose first part returned goes on with the rest.
pub >>=-of_ret {ℓ κ} :
    {W : Type 0} {A : Type ℓ} {B : Type κ} (m : Io W A) (f : A → Io W B) (w v : W) (a : A)
    → m w ≡ ret (a, v)
    → (m >>= f) w ≡ f a v
>>=-of_ret {W} {A} {B} m f w v a h =
    ap (λ (x : Go (A × W)). elim x as (λ _. Go (B × W)) [ panic ↦ panic | ret (a, v) ↦ f a v ]) h

-- A sequence returns exactly if its parts do.
pub >>=-ret_iff {ℓ κ} :
    {W : Type 0} {A : Type ℓ} {B : Type κ} (m : Io W A) (f : A → Io W B) (w v : W) (b : B)
    → ((m >>= f) w ≡ ret (b, v)) ↔ ((a : A) × (u : W) × (m w ≡ ret (a, u)) × (f a u ≡ ret (b, v)))
>>=-ret_iff m f w v b =
    (>>=-ret m f w v b, λ (a, u, first, rest). >>=-of_ret m f w u a first ∙ rest)

pub ret-world {ℓ} :
    {W : Type 0} {A : Type ℓ} (a b : A) (w v : W)
    → ◌≡◌ {A = Go (A × W)} (ret (a, w)) (ret (b, v))
    → w ≡ v
ret-world a b w v h = cc

pub ret-value {ℓ} :
    {W : Type 0} {A : Type ℓ} (a b : A) (w v : W)
    → ◌≡◌ {A = Go (A × W)} (ret (a, w)) (ret (b, v))
    → a ≡ b
ret-value a b w v h = cc

-- Checks that run in turn, until one gives an error.
infixr 35 ◌then_check◌
abbrev pub ◌then_check◌ : Option String → Option String → Option String
none then_check next = next
some e then_check next = some e

-- One check: an error if the test holds.
abbrev pub check : Bool → String → Option String
check true e = some e
check false e = none

pub then_check-eq-none :
    (a b : Option String) → ((a then_check b) ≡ none) ↔ ((a ≡ none) × (b ≡ none))
then_check-eq-none none b = ground arith
then_check-eq-none (some e) b = ground arith

-- `strconv.FormatBool`
abbrev pub format_bool : Bool → String
format_bool true = "true"
format_bool false = "false"

pub iff_trans {ℓ κ μ} : {A : Type ℓ} {B : Type κ} {C : Type μ} → (A ↔ B) → (B ↔ C) → A ↔ C
iff_trans f g = (λ a. g.0 (f.0 a), λ c. f.1 (g.1 c))
