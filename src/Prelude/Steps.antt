-- ===== src/Prelude/Steps.antt =====
-- Relations between the state before and after a call, and the calls that stay within one.
use mathlib.Core.Path.{◌≡◌, refl, subst}
use mathlib.Core.Bool.{Bool, true, false}
use native.Mathlib.Omega.{arith}
use kube_combo.Prelude.Equality.{if◌then◌else◌}
use kube_combo.Prelude.Control.{Go, ret, panic, Io, ◌>>=◌, >>=-ret, pure, lift}

-- The call's steps are all in the relation.
abbrev pub Keeps {ℓ} : {W : Type 0} {A : Type ℓ} → (W → W → Type 0) → Io W A → Type ℓ
Keeps {W} {A} R m = (w w' : W) (a : A) → m w ≡ ret (a, w') → R w w'

-- What the call returned, from some state.
abbrev pub Returns {ℓ} : {W : Type 0} {A : Type ℓ} → Io W A → A → Type ℓ
Returns {W} m a = (u v : W) × (m u ≡ ret (a, v))

-- A relation that holds of no step, and of two steps if of each.
pub record IsPreorder {W : Type 0} (R : W → W → Type 0) : Type 0 where
  pub rests : (w : W) → R w w
  pub follows : (u v w : W) → R u v → R v w → R u w

module _ {W : Type 0} (R : W → W → Type 0) (order : IsPreorder R) where
  pub pure-Keeps {ℓ} : {A : Type ℓ} (a : A) → Keeps R (pure a)
  pure-Keeps a w w' b h = subst (R w) (ground arith) (order.rests w)

  pub >>=-Keeps {ℓ κ} :
      {A : Type ℓ} {B : Type κ} (m : Io W A) (f : A → Io W B)
      → Keeps R m
      → ((a : A) → Keeps R (f a))
      → Keeps R (m >>= f)
  >>=-Keeps m f k l w w' b h =
      let (a, v, first, rest) = >>=-ret m f w w' b h in
      order.follows w v w' (k w v a first) (l a v w' b rest)

  -- The rest may use what the first part returned.
  pub >>=-Keeps_from {ℓ κ} :
      {A : Type ℓ} {B : Type κ} (m : Io W A) (f : A → Io W B)
      → Keeps R m
      → ((a : A) (w v : W) → m w ≡ ret (a, v) → Keeps R (f a))
      → Keeps R (m >>= f)
  >>=-Keeps_from m f k l w w' b h =
      let (a, v, first, rest) = >>=-ret m f w w' b h in
      order.follows w v w' (k w v a first) (l a w v first v w' b rest)

  pub lift-Keeps {ℓ κ} :
      {A : Type ℓ} {B : Type κ} (g : Go A) (f : A → Io W B)
      → ((a : A) → g ≡ ret a → Keeps R (f a))
      → Keeps R (lift g >>= f)
  lift-Keeps panic f k w w' b h = cc
  lift-Keeps (ret a) f k w w' b h = k a refl w w' b h

  pub if-Keeps {ℓ} :
      {A : Type ℓ} (b : Bool) {m k : Io W A}
      → (b ≡ true → Keeps R m)
      → (b ≡ false → Keeps R k)
      → Keeps R (if b then m else k)
  if-Keeps true f g = f refl
  if-Keeps false f g = g refl
