-- ===== src/Exec/Yields.antt =====
-- Postconditions of actions, in every state: a value has a property, and an error is never the
-- mark of a loop that ran out of rounds.
use blitz.Base.{◌≡◌, ◌≢◌, refl, Bool, true, false, String, ℕ, wrapf, out_of_fuel}
use blitz.Base.{Result, ok, err, map_err, if◌then◌else◌}
use blitz.Exec.{Exec, pure, wrapping, recover, modify, discard, continue, ◌>>=◌}

abbrev pub Good {ℓ} : {A : Type ℓ} → (A → Type 0) → Result A → Type 0
Good Q (ok a) = Q a
Good Q (err e) = e ≢ out_of_fuel

pub record Yields {S A : Type 0} (Q : A → Type 0) (m : Exec S A) : Type 0 where
  pub at : (s : S) → Good Q (m s).0

module _ {S A : Type 0} {Q : A → Type 0} where
  pub Yields-pure : (a : A) → Q a → Yields Q (pure {S = S} a)
  unfolding pure
  Yields-pure a q = record { at = λ s. q }

  pub Yields-if :
      (b : Bool) (m n : Exec S A)
      → (b ≡ true → Yields Q m)
      → (b ≡ false → Yields Q n)
      → Yields Q (if b then m else n)
  Yields-if true m n ym yn = ym refl
  Yields-if false m n ym yn = yn refl

Good-wrapf :
    {A : Type 0} (s : String) (n : ℕ) (r : Result A) → Good (λ _. Unit) (map_err (wrapf s n) r)
Good-wrapf s n (ok a) = tt
Good-wrapf s n (err e) = λ p. cc

Good-discard : {A : Type 0} (r : Result A) → Good (λ _. Unit) (discard r)
Good-discard (ok a) = tt
Good-discard (err e) = tt

pub Yields-modify : {S : Type 0} (f : S → S) → Yields (λ _. Unit) (modify f)
unfolding modify
Yields-modify f = record { at = λ st. tt }

pub Good-weaken :
    {A : Type 0} {Q R : A → Type 0} (r : Result A) → ((a : A) → Q a → R a) → Good Q r → Good R r
Good-weaken (ok a) k q = k a q
Good-weaken (err e) k q = q

module _ {S A : Type 0} where
  -- An error that is wrapped is no mark of a loop.
  pub Yields-wrapf :
      (s : String) (n : ℕ) (m : Exec S A) → Yields (λ _. Unit) (wrapping (wrapf s n) m)
  unfolding wrapping
  Yields-wrapf s n m = record { at = λ st. Good-wrapf s n (m st).0 }

  pub Yields-recover : (m : Exec S A) → Yields (λ _. Unit) (recover m)
  unfolding recover
  Yields-recover m = record { at = λ st. Good-discard (m st).0 }

  pub Yields-weaken :
      {Q R : A → Type 0} (m : Exec S A) → ((a : A) → Q a → R a) → Yields Q m → Yields R m
  Yields-weaken m k ym = record { at = λ s. Good-weaken (m s).0 k (ym.at s) }

module _ {S A B : Type 0} {Q : A → Type 0} {R : B → Type 0} where
  Good-continue :
      (r : Result A) (f : A → Exec S B)
      → Good Q r
      → ((a : A) → Q a → Yields R (f a))
      → (s : S) → Good R (continue r f s).0
  Good-continue (ok a) f q k s = (k a q).at s
  Good-continue (err e) f q k s = q

  pub Yields-bind :
      (m : Exec S A) (f : A → Exec S B)
      → Yields Q m
      → ((a : A) → Q a → Yields R (f a))
      → Yields R (m >>= f)
  unfolding ◌>>=◌
  Yields-bind m f ym k = record { at = λ s. Good-continue (m s).0 f (ym.at s) k (m s).1 }
