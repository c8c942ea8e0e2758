-- ===== src/Exec/Inversion.antt =====
-- What is known of an action that returned a value, step by step.
use blitz.Base.{◌≡◌, refl, ap, Error, Result, ok, err, Reply, value, received, map_err, arith}
use blitz.Exec.{Exec, gets, wrapping, continue, ◌>>=◌}

-- The value and the state between two steps.
pub record Split {ℓ} {S A B : Type ℓ} (m : Exec S A) (f : A → Exec S B) (s : S) (b : B) (t : S)
    : Type ℓ where
  pub result : A
  pub mid : S
  pub first : m s ≡ (ok result, mid)
  pub rest : f result mid ≡ (ok b, t)

module _ {ℓ} {S A B : Type ℓ} where
  continue-Split :
      (m : Exec S A) (f : A → Exec S B) (s u t : S) (b : B) (r : Result A)
      → m s ≡ (r, u)
      → continue r f u ≡ (ok b, t)
      → Split m f s b t
  continue-Split m f s u t b (ok a) e h = record { result = a; mid = u; first = e; rest = h }
  continue-Split m f s u t b (err x) e h = ground arith

  pub bind-Split :
      (m : Exec S A) (f : A → Exec S B) (s t : S) (b : B)
      → (m >>= f) s ≡ (ok b, t)
      → Split m f s b t
  unfolding ◌>>=◌
  bind-Split m f s t b h = continue-Split m f s (m s).1 t b (m s).0 refl h

map_err-ok {ℓ} :
    {A : Type ℓ} (g : Error → Error) (r : Result A) (a : A) → map_err g r ≡ ok a → r ≡ ok a
map_err-ok g (ok b) a h = h
map_err-ok g (err e) a h = ground arith

module _ {ℓ} {S A : Type ℓ} where
  pub wrapping-ok :
      (g : Error → Error) (m : Exec S A) (s t : S) (a : A)
      → wrapping g m s ≡ (ok a, t)
      → m s ≡ (ok a, t)
  unfolding wrapping
  wrapping-ok g m s t a h = λ i. (map_err-ok g (m s).0 a (ap (λ p. p.0) h) i, (h i).1)

pub received-ok {ℓ} : {A : Type ℓ} (r : Reply A) (a : A) → received r ≡ ok a → r ≡ value a
received-ok r a h = ground arith

pub gets-bind {ℓ} :
    {S A B : Type ℓ} (g : S → A) (f : A → Exec S B) (s : S) → (gets g >>= f) s ≡ f (g s) s
unfolding gets ◌>>=◌
gets-bind g f s = refl
