-- ===== src/Base/Replies.antt =====
-- The answers of clients, and the errors wrapped around them.
use Prim.Native.String.{String}
use native.Mathlib.Omega.{arith}
use mathlib.Core.Path.{◌≡◌, refl}
use mathlib.Core.List.{List}
use blitz.Base.Results.{Error, Result, ok, err, Reply, value, fails, received, map_err, and_then}

pub passed_on {ℓ} :
    {A : Type ℓ} (r : Reply A) → and_then (map_err (λ e. e) (received r)) ok ≡ received r
passed_on (value a) = refl
passed_on (fails m) = refl

-- `queryAllFpBtcPubKeys` returns the errors of its clients as they are.
pub without_wrappers :
    (r : Reply String) (f : String → Reply (List String))
    → and_then
        (map_err (λ e. e) (received r))
        (λ id. and_then (map_err (λ e. e) (received (f id))) ok)
      ≡ and_then (received r) (λ id. received (f id))
without_wrappers (value id) f = passed_on (f id)
without_wrappers (fails m) f = refl

pub without_wrapper {ℓ} :
    {A : Type ℓ} (f : Error → Error) (r : Result A) {a : A} → map_err f r ≡ ok a → r ≡ ok a
without_wrapper f (ok a) e = e
without_wrapper f (err x) e = cc

pub and_then-ok {ℓ} : {A : Type ℓ} (r : Result A) → and_then r ok ≡ r
and_then-ok (ok a) = refl
and_then-ok (err x) = refl

pub received-ok {ℓ} : {A : Type ℓ} (r : Reply A) {a : A} → received r ≡ ok a → r ≡ value a
received-ok (value a) e = ground arith
received-ok (fails m) e = cc
