-- ===== src/Threads.antt =====
-- Goroutines: methods that share an object with others, cut at their critical sections.
pub mod Runs
pub mod Guarded
pub mod System
pub mod Sections
pub mod Places
pub mod Tame
pub mod Answers
use blitz.Base.{Option, Error, Result, ok, err, map_err}
use blitz.Exec.{Exec, discard}

-- What is left of a call. `section` is a critical section or one external call: what it makes of
-- the shared state, and what follows on it; between two sections other goroutines may run.
pub data Steps {ℓ} (S A : Type ℓ) : Type ℓ where
  done : Result A → Steps S A
  section : (S → S) → (S → Steps S A) → Steps S A

module _ {ℓ} {S A : Type ℓ} where
  abbrev pub answer : A → Steps S A
  answer a = done (ok a)

  abbrev pub abort : Error → Steps S A
  abort e = done (err e)

  -- Under one lock, from its acquisition to its release.
  abbrev pub locked : Exec S A → Steps S A
  locked m = section (λ s. (m s).1) (λ s. done (m s).0)

  unfoldable pub wrapping : (Error → Error) → Steps S A → Steps S A
  wrapping f (done r) = done (map_err f r)
  wrapping f (section g k) = section g (λ s. wrapping f (k s))

  unfoldable pub recover : Steps S A → Steps S (Option A)
  recover (done r) = done (discard r)
  recover (section g k) = section g (λ s. recover (k s))

  -- The call with nobody else running.
  unfoldable pub run : Steps S A → Exec S A
  run (done r) s = (r, s)
  run (section g k) s = run (k s) (g s)

module _ {ℓ} {S A B : Type ℓ} where
  abbrev pub resume : Result A → (A → Steps S B) → Steps S B
  resume (ok a) f = f a
  resume (err e) f = done (err e)

  infixl 10 ◌>>=◌
  unfoldable pub ◌>>=◌ : Steps S A → (A → Steps S B) → Steps S B
  ◌>>=◌ (done r) f = resume r f
  ◌>>=◌ (section g k) f = section g (λ s. k s >>= f)

module _ {ℓ} {S B : Type ℓ} where
  infixl 10 ◌>>◌
  abbrev pub ◌>>◌ : Steps S (Unit {ℓ}) → Steps S B → Steps S B
  m >> n = m >>= λ _. n
