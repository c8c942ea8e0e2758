-- ===== src/Exec.antt =====
-- Methods that change an object and may return an error. What was written before the error stays
-- written, so the state comes back beside an error too.
pub mod Preserves
pub mod Implements
pub mod Yields
pub mod Leads
pub mod Inversion
use blitz.Base.{Option, none, some, Error, Result, ok, err, Reply, received, map_err}

abbrev pub Exec {ℓ} : Type ℓ → Type ℓ → Type ℓ
Exec S A = S → Result A × S

-- the value, or `none` where the caller looks at `err == nil` and drops the error
abbrev pub discard {ℓ} : {A : Type ℓ} → Result A → Result (Option A)
discard (ok a) = ok (some a)
discard (err e) = ok none

module _ {ℓ} {S A : Type ℓ} where
  unfoldable pub pure : A → Exec S A
  pure a s = (ok a, s)

  unfoldable pub raise : Error → Exec S A
  raise e s = (err e, s)

  unfoldable pub gets : (S → A) → Exec S A
  gets f s = (ok (f s), s)

  -- `m` with each error that it returns wrapped
  unfoldable pub wrapping : (Error → Error) → Exec S A → Exec S A
  wrapping f m s = let (r, s') = m s in (map_err f r, s')

  unfoldable pub recover : Exec S A → Exec S (Option A)
  recover m s = let (r, s') = m s in (discard r, s')

module _ {ℓ} {S : Type ℓ} where
  unfoldable pub modify : (S → S) → Exec S (Unit {ℓ})
  modify f s = (ok tt, f s)

module _ {ℓ} {S A B : Type ℓ} where
  abbrev pub continue : Result A → (A → Exec S B) → Exec S B
  continue (ok a) f s = f a s
  continue (err e) f s = (err e, s)

  infixl 10 ◌>>=◌
  unfoldable pub ◌>>=◌ : Exec S A → (A → Exec S B) → Exec S B
  ◌>>=◌ m f s = let (r, s') = m s in continue r f s'

module _ {ℓ} {S B : Type ℓ} where
  infixl 10 ◌>>◌
  abbrev pub ◌>>◌ : Exec S (Unit {ℓ}) → Exec S B → Exec S B
  m >> n = m >>= λ _. n

-- All that a test computes through.
unfoldable pub runs : Unit {0}
unfolding pure raise gets wrapping recover modify ◌>>=◌
runs = tt
