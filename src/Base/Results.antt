-- ===== src/Base/Results.antt =====
-- Go's `(value, error)`: a value, or an error with what `errors.Wrap` put around it.
use Prim.Native.Nat.{ℕ}
use Prim.Native.String.{String}
use native.Mathlib.Omega.{arith}
use mathlib.Core.Path.{◌≡◌, refl}
use mathlib.Core.Logic.{◌⊎◌, inl, inr}
use mathlib.Core.Option.{Option, none, some}

-- `client` is an error that external code returned, `new` one that the program makes, and
-- `out_of_fuel` the mark of a loop of the model whose rounds ran out.
pub data Error : Type 0 where
  client : String → Error
  new : String → Error
  wrap : String → Error → Error
  wrapf : String → ℕ → Error → Error
  out_of_fuel : Error

pub data Result {ℓ} (A : Type ℓ) : Type ℓ where
  ok : A → Result A
  err : Error → Result A

-- What an external client returns.
pub data Reply {ℓ} (A : Type ℓ) : Type ℓ where
  value : A → Reply A
  fails : String → Reply A

abbrev pub received {ℓ} : {A : Type ℓ} → Reply A → Result A
received (value a) = ok a
received (fails s) = err (client s)

abbrev pub map_err {ℓ} : {A : Type ℓ} → (Error → Error) → Result A → Result A
map_err f (ok a) = ok a
map_err f (err e) = err (f e)

abbrev pub and_then {ℓ κ} : {A : Type ℓ} {B : Type κ} → Result A → (A → Result B) → Result B
and_then (ok a) f = f a
and_then (err e) f = err e

-- To split on a pointer that may be nil and keep the equation.
pub Option-cases {ℓ} : {A : Type ℓ} (o : Option A) → (o ≡ none) ⊎ ((a : A) × (o ≡ some a))
Option-cases none = inl refl
Option-cases (some a) = inr (a, refl)

-- The same for the answer of a client.
pub Reply-cases {ℓ} :
    {A : Type ℓ} (r : Reply A) → ((a : A) × (r ≡ value a)) ⊎ ((m : String) × (r ≡ fails m))
Reply-cases (value a) = inl (a, refl)
Reply-cases (fails m) = inr (m, refl)

-- The value between two results.
pub record Both {ℓ κ} {A : Type ℓ} {B : Type κ} (r : Result A) (f : A → Result B) (b : B)
    : Type (ℓ ⊔ κ) where
  pub value : A
  pub first : r ≡ ok value
  pub rest : f value ≡ ok b

pub and_then-Both {ℓ κ} :
    {A : Type ℓ} {B : Type κ} (r : Result A) (f : A → Result B) (b : B)
    → and_then r f ≡ ok b
    → Both r f b
and_then-Both (ok a) f b h = record { value = a; first = refl; rest = h }
and_then-Both (err e) f b h = ground arith
