-- ===== src/Process/Calm.antt =====
-- Processes that never panic.
use blitz.Base.{◌≡◌, ◌≢◌, refl, Error, Result, ok, err, Bool, true, false, if◌then◌else◌, arith}
use blitz.Exec.{Exec}
use blitz.Process.{
  Outcome, returned, failed, panicked, exited, of_result, Process, pure, map_failed, wrapping,
  within, continue, ◌>>=◌,
}

pub record Calm {ℓ} {S A : Type ℓ} (m : Process S A) : Type ℓ where
  pub calm : (s : S) (x : Error) → (m s).0 ≢ panicked x

pub of_result-calm {ℓ} : {A : Type ℓ} (r : Result A) (x : Error) → of_result r ≢ panicked x
of_result-calm (ok a) x h = ground arith
of_result-calm (err e) x h = ground arith

map_failed-panicked {ℓ} :
    {A : Type ℓ} (f : Error → Error) (o : Outcome A) (x : Error)
    → map_failed f o ≡ panicked x
    → o ≡ panicked x
map_failed-panicked f (returned a) x h = ground arith
map_failed-panicked f (failed e) x h = ground arith
map_failed-panicked f (panicked e) x h = h
map_failed-panicked f (exited e) x h = ground arith

module _ {ℓ} {S A : Type ℓ} where
  pub Calm-pure : (a : A) → Calm (pure {S = S} a)
  unfolding pure
  Calm-pure a = record { calm = λ s x h. ground arith }

  pub Calm-wrapping : (f : Error → Error) (m : Process S A) → Calm m → Calm (wrapping f m)
  unfolding wrapping
  Calm-wrapping f m h = record { calm = λ s x q. h.calm s x (map_failed-panicked f (m s).0 x q) }

  pub Calm-if : (b : Bool) (m n : Process S A) → Calm m → Calm n → Calm (if b then m else n)
  Calm-if true m n h k = h
  Calm-if false m n h k = k

module _ {ℓ} {S A B : Type ℓ} where
  continue-Calm :
      (o : Outcome A) (f : A → Process S B) (s : S) (x : Error)
      → ((a : A) → Calm (f a))
      → ((y : Error) → o ≢ panicked y)
      → (continue o f s).0 ≢ panicked x
  continue-Calm (returned a) f s x h k q = (h a).calm s x q
  continue-Calm (failed e) f s x h k q = ground arith
  continue-Calm (panicked e) f s x h k q = k e refl
  continue-Calm (exited e) f s x h k q = ground arith

  pub Calm-bind :
      (m : Process S A) (f : A → Process S B) → Calm m → ((a : A) → Calm (f a)) → Calm (m >>= f)
  unfolding ◌>>=◌
  Calm-bind m f h k = record { calm = λ s x q. continue-Calm (m s).0 f (m s).1 x k (h.calm s) q }

module _ {S T A : Type 0} where
  pub Calm-within : (get : S → T) (put : S → T → S) (m : Exec T A) → Calm (within get put m)
  unfolding within
  Calm-within get put m = record { calm = λ s x q. of_result-calm (m (get s)).0 x q }
