-- ===== src/Exec/Preserves.antt =====
-- Invariants of actions: one rule for each way to build an action.
use blitz.Base.{Bool, true, false, Error, Result, ok, err, if◌then◌else◌}
use blitz.Exec.{Exec, pure, raise, gets, wrapping, recover, continue, ◌>>=◌}

-- `m` keeps `P`, whether it returns a value or an error.
pub record Preserves {ℓ} {S A : Type ℓ} (P : S → Type ℓ) (m : Exec S A) : Type ℓ where
  pub after : (s : S) → P s → P (m s).1

module _ {ℓ} {S A : Type ℓ} {P : S → Type ℓ} where
  pub Preserves-pure : (a : A) → Preserves P (pure a)
  unfolding pure
  Preserves-pure a = record { after = λ s h. h }

  pub Preserves-raise : (e : Error) → Preserves P (raise {A = A} e)
  unfolding raise
  Preserves-raise e = record { after = λ s h. h }

  pub Preserves-gets : (f : S → A) → Preserves P (gets f)
  unfolding gets
  Preserves-gets f = record { after = λ s h. h }

  pub Preserves-wrapping :
      (f : Error → Error) (m : Exec S A) → Preserves P m → Preserves P (wrapping f m)
  unfolding wrapping
  Preserves-wrapping f m k = record { after = λ s h. k.after s h }

  pub Preserves-recover : (m : Exec S A) → Preserves P m → Preserves P (recover m)
  unfolding recover
  Preserves-recover m k = record { after = λ s h. k.after s h }

  pub Preserves-if :
      (b : Bool) (m n : Exec S A) → Preserves P m → Preserves P n → Preserves P (if b then m else n)
  Preserves-if true m n km kn = km
  Preserves-if false m n km kn = kn

module _ {ℓ} {S A B : Type ℓ} {P : S → Type ℓ} where
  Preserves-continue :
      (r : Result A) (f : A → Exec S B)
      → ((a : A) → Preserves P (f a))
      → (s : S) → P s
      → P (continue r f s).1
  Preserves-continue (ok a) f kf s h = (kf a).after s h
  Preserves-continue (err e) f kf s h = h

  pub Preserves-bind :
      (m : Exec S A) (f : A → Exec S B)
      → Preserves P m
      → ((a : A) → Preserves P (f a))
      → Preserves P (m >>= f)
  unfolding ◌>>=◌
  Preserves-bind m f km kf = record {
    after = λ s h. Preserves-continue (m s).0 f kf (m s).1 (km.after s h);
  }

pub ruleset preserve_rules = (
  Preserves-pure, Preserves-raise, Preserves-gets, Preserves-wrapping, Preserves-recover,
  Preserves-if, Preserves-bind,
)
