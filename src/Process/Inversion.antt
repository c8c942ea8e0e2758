-- ===== src/Process/Inversion.antt =====
-- What is known of a process that returned a value, step by step.
use blitz.Base.{◌≡◌, refl, ap, Error, ok, Result, arith}
use blitz.Exec.{Exec}
use blitz.Process.{
  or_exit, Outcome, returned, failed, panicked, exited, Process, of_result, map_failed, pure, gets,
  outcome, wrapping, fatal_failed, part, within, continue, ◌>>=◌,
}

-- The value and the state between two steps.
pub record Split {ℓ} {S A B : Type ℓ} (m : Process S A) (f : A → Process S B) (s : S) (b : B)
    (t : S) : Type ℓ where
  pub result : A
  pub mid : S
  pub first : m s ≡ (returned result, mid)
  pub rest : f result mid ≡ (returned b, t)

module _ {ℓ} {S A B : Type ℓ} where
  continue-Split :
      (m : Process S A) (f : A → Process S B) (s u t : S) (b : B) (o : Outcome A)
      → m s ≡ (o, u)
      → continue o f u ≡ (returned b, t)
      → Split m f s b t
  continue-Split m f s u t b (returned a) e h = record { result = a; mid = u; first = e; rest = h }
  continue-Split m f s u t b (failed x) e h = ground arith
  continue-Split m f s u t b (panicked x) e h = ground arith
  continue-Split m f s u t b (exited x) e h = ground arith

  pub bind-Split :
      (m : Process S A) (f : A → Process S B) (s t : S) (b : B)
      → (m >>= f) s ≡ (returned b, t)
      → Split m f s b t
  unfolding ◌>>=◌
  bind-Split m f s t b h = continue-Split m f s (m s).1 t b (m s).0 refl h

map_failed-returned {ℓ} :
    {A : Type ℓ} (g : Error → Error) (o : Outcome A) (a : A)
    → map_failed g o ≡ returned a
    → o ≡ returned a
map_failed-returned g (returned b) a h = h
map_failed-returned g (failed e) a h = ground arith
map_failed-returned g (panicked e) a h = ground arith
map_failed-returned g (exited e) a h = ground arith

fatal_failed-returned {ℓ} :
    {A : Type ℓ} (g : Error → Error) (o : Outcome A) (a : A)
    → fatal_failed g o ≡ returned a
    → o ≡ returned a
fatal_failed-returned g (returned b) a h = h
fatal_failed-returned g (failed e) a h = ground arith
fatal_failed-returned g (panicked e) a h = ground arith
fatal_failed-returned g (exited e) a h = ground arith

module _ {ℓ} {S A : Type ℓ} where
  pub wrapping-returned :
      (g : Error → Error) (m : Process S A) (s t : S) (a : A)
      → wrapping g m s ≡ (returned a, t)
      → m s ≡ (returned a, t)
  unfolding wrapping
  wrapping-returned g m s t a h =
      λ i. (map_failed-returned g (m s).0 a (ap (λ p. p.0) h) i, (h i).1)

  pub or_exit-returned :
      (g : Error → Error) (m : Process S A) (s t : S) (a : A)
      → or_exit g m s ≡ (returned a, t)
      → m s ≡ (returned a, t)
  unfolding or_exit
  or_exit-returned g m s t a h =
      λ i. (fatal_failed-returned g (m s).0 a (ap (λ p. p.0) h) i, (h i).1)

  pub or_exit-kept :
      (g : Error → Error) (m : Process S A) (s t : S) (a : A)
      → m s ≡ (returned a, t)
      → or_exit g m s ≡ (returned a, t)
  unfolding or_exit
  or_exit-kept g m s t a h = rw h refl

  pub gets-returned :
      (g : S → A) (s t : S) (a : A) → gets g s ≡ (returned a, t) → (g s ≡ a) × (s ≡ t)
  unfolding gets
  gets-returned g s t a h = (cc, ap (λ p. p.1) h)

pub pure-returned {ℓ} :
    {S A : Type ℓ} (a b : A) (s t : S) → pure a s ≡ (returned b, t) → (a ≡ b) × (s ≡ t)
unfolding pure
pure-returned a b s t h = (let e = ap (λ p. p.0) h in cc, ap (λ p. p.1) h)

pub outcome-returned {ℓ} :
    {S A : Type ℓ} (o : Outcome A) (a : A) (s t : S)
    → outcome o s ≡ (returned a, t)
    → o ≡ returned a
unfolding outcome
outcome-returned o a s t h = ap (λ p. p.0) h

of_result-returned {ℓ} : {A : Type ℓ} (r : Result A) (a : A) → of_result r ≡ returned a → r ≡ ok a
of_result-returned r a h = ground arith

module _ {S T A : Type 0} where
  pub within-returned :
      (get : S → T) (put : S → T → S) (m : Exec T A) (s t : S) (a : A)
      → within get put m s ≡ (returned a, t)
      → (m (get s) ≡ (ok a, (m (get s)).1)) × (put s (m (get s)).1 ≡ t)
  unfolding within
  within-returned get put m s t a h = (
    λ i. (of_result-returned (m (get s)).0 a (ap (λ p. p.0) h) i, (m (get s)).1),
    ap (λ p. p.1) h,
  )

  pub part-returned :
      (get : S → T) (put : S → T → S) (m : Process T A) (s t : S) (a : A)
      → part get put m s ≡ (returned a, t)
      → (m (get s) ≡ (returned a, (m (get s)).1)) × (put s (m (get s)).1 ≡ t)
  unfolding part
  part-returned get put m s t a h = (λ i. ((ap (λ p. p.0) h) i, (m (get s)).1), ap (λ p. p.1) h)
