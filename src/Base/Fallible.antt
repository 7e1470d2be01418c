-- ===== src/Base/Fallible.antt =====
-- What a call of the source comes to: a value, an `anyhow` error, or a panic. `assert!`, `expect` and
-- `panic!` are values too, so that theorems can say that they are not reached.
use mathlib.Core.Path.{◌≡◌, refl}
use mathlib.Core.Logic.{◌⊎◌, inl, inr}
use mathlib.Core.Option.{Option, none, some}
use mathlib.Core.Bool.{Bool, true, false}

-- The errors that the source raises, by their messages, and those of its dependencies.
pub data Error : Type 0 where
  unexpected_log batch_mismatch duplicate_batch_commit closed_before_commit redundant_open : Error
  stray_close not_opened commit_not_found non_monotonic no_command codec io : Error
  expected_path expected_batch expected_view expected_tree expected_key expected_value : Error
  unknown_command missing_header incorrect_header broken_header : Error

pub data Outcome {ℓ} (A : Type ℓ) : Type ℓ where
  ok : A → Outcome A
  err : Error → Outcome A
  panic : Outcome A

infixl 5 ◌>>=◌ ◌>>◌
abbrev pub ◌>>=◌ {ℓ κ} : {A : Type ℓ} {B : Type κ} → Outcome A → (A → Outcome B) → Outcome B
ok a >>= f = f a
err e >>= f = err e
panic >>= f = panic

abbrev pub ◌>>◌ {ℓ} : {B : Type ℓ} → Outcome (Unit {0}) → Outcome B → Outcome B
m >> k = m >>= λ _. k

-- `assert!(b)`.
abbrev pub assert : Bool → Outcome (Unit {0})
assert true = ok tt
assert false = panic

-- `o.expect(…)`.
abbrev pub expect {ℓ} : {A : Type ℓ} → Option A → Outcome A
expect none = panic
expect (some a) = ok a

-- `o.ok_or_else(|| e)`.
abbrev pub ok_or {ℓ} : {A : Type ℓ} → Option A → Error → Outcome A
ok_or none e = err e
ok_or (some a) e = ok a

-- A chain that returns a value has run its first call to a value, and the rest on that.
module _ {ℓ κ} {A : Type ℓ} {B : Type κ} (rest : A → Outcome B) {last : B} where
  pub returned :
      (call : Outcome A)
      → (call >>= rest) ≡ ok last
      → (first : A) × (call ≡ ok first) × (rest first ≡ ok last)
  returned panic h = cc
  returned (err e) h = cc
  returned (ok first) h = (first, refl, h)

-- To split on a result and keep the equation.
pub Outcome-cases {ℓ} :
    {A : Type ℓ} (r : Outcome A)
    → ((a : A) × (r ≡ ok a)) ⊎ (((e : Error) × (r ≡ err e)) ⊎ (r ≡ panic))
Outcome-cases (ok a) = inl (a, refl)
Outcome-cases (err e) = inr (inl (e, refl))
Outcome-cases panic = inr (inr refl)
