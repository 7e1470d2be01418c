-- ===== src/Base/Exec.antt =====
-- The type of the methods that change an object and may fail or panic: they return the state that
-- they leave, whatever the result is.
use mathlib.Core.Bool.{Bool}
use block_rust.Base.Fallible.{Outcome, ok, err, panic, assert, Error}

abbrev pub Exec {ℓ κ} : Type ℓ → Type κ → Type (ℓ ⊔ κ)
Exec S A = S → Outcome A × S

module _ {ℓ κ} {S : Type ℓ} {A : Type κ} where
  abbrev pub pure : A → Exec S A
  pure a s = (ok a, s)

  abbrev pub lift : Outcome A → Exec S A
  lift r s = (r, s)

  abbrev pub fail : Error → Exec S A
  fail e s = (err e, s)

  abbrev pub gets : (S → A) → Exec S A
  gets f s = (ok (f s), s)

abbrev pub update {ℓ} : {S : Type ℓ} → (S → S) → Exec S (Unit {0})
update f s = (ok tt, f s)

abbrev pub require {ℓ} : {S : Type ℓ} → Bool → Exec S (Unit {0})
require b s = (assert b, s)

module _ {ℓ κ ι} {S : Type ℓ} {A : Type κ} {B : Type ι} where
  abbrev pub continue : Outcome A → (A → Exec S B) → Exec S B
  continue panic next s = (panic, s)
  continue (err e) next s = (err e, s)
  continue (ok a) next s = next a s

  infixl 5 ◌>>=◌
  abbrev pub ◌>>=◌ : Exec S A → (A → Exec S B) → Exec S B
  ◌>>=◌ m f s = let (r, s') = m s in continue r f s'

module _ {ℓ ι} {S : Type ℓ} {B : Type ι} where
  infixl 5 ◌>>◌
  abbrev pub ◌>>◌ : Exec S (Unit {0}) → Exec S B → Exec S B
  m >> n = m >>= λ _. n

-- Runs on a part of the state.
abbrev pub zoom {ℓ κ ι} :
    {S : Type ℓ} {T : Type ι} {A : Type κ} → (S → T) → (T → S → S) → Exec T A → Exec S A
zoom view set m s = let (r, t) = m (view s) in (r, set t s)
