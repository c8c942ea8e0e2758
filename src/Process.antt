-- ===== src/Process.antt =====
-- Code that starts and ends a process: it returns a value or an error, it panics, or it leaves
-- the process by `log.Fatal`, behind which no deferred call runs.
pub mod Keeps
pub mod Inversion
pub mod Settles
pub mod Calm
pub mod Leads
use blitz.Base.{Option, none, some, Error, Result, ok, err, Reply, value, fails, client, received}
use blitz.Exec.{Exec}

pub data Outcome {ℓ} (A : Type ℓ) : Type ℓ where
  returned : A → Outcome A
  failed : Error → Outcome A
  panicked : Error → Outcome A
  exited : Error → Outcome A

abbrev pub Process {ℓ} : Type ℓ → Type ℓ → Type ℓ
Process S A = S → Outcome A × S

-- `(a, nil)` and `(nil, err)`
abbrev pub of_result {ℓ} : {A : Type ℓ} → Result A → Outcome A
of_result (ok a) = returned a
of_result (err e) = failed e

-- a computation the error of which is a panic
abbrev pub or_panic {ℓ} : {A : Type ℓ} → Result A → Outcome A
or_panic (ok a) = returned a
or_panic (err e) = panicked e

abbrev pub map_failed {ℓ} : {A : Type ℓ} → (Error → Error) → Outcome A → Outcome A
map_failed f (failed e) = failed (f e)
map_failed f (returned a) = returned a
map_failed f (panicked e) = panicked e
map_failed f (exited e) = exited e

abbrev pub fatal_failed {ℓ} : {A : Type ℓ} → (Error → Error) → Outcome A → Outcome A
fatal_failed f (failed e) = exited (f e)
fatal_failed f (returned a) = returned a
fatal_failed f (panicked e) = panicked e
fatal_failed f (exited e) = exited e

-- The value, or `none` where the caller logs the error and goes on.
abbrev pub discard_failed {ℓ} : {A : Type ℓ} → Outcome A → Outcome (Option A)
discard_failed (returned a) = returned (some a)
discard_failed (failed e) = returned none
discard_failed (panicked e) = panicked e
discard_failed (exited e) = exited e

-- The state behind the deferred call.
abbrev pub after {ℓ κ} : {A : Type ℓ} {S : Type κ} → (S → S) → Outcome A → S → S
after cleanup (returned a) s = cleanup s
after cleanup (failed e) s = cleanup s
after cleanup (panicked e) s = cleanup s
after cleanup (exited e) s = s

module _ {ℓ} {S A : Type ℓ} where
  unfoldable pub pure : A → Process S A
  pure a s = (returned a, s)

  unfoldable pub raise : Error → Process S A
  raise e s = (failed e, s)

  unfoldable pub panic : Error → Process S A
  panic e s = (panicked e, s)

  -- `log.Fatal`
  unfoldable pub exit : Error → Process S A
  exit e s = (exited e, s)

  unfoldable pub gets : (S → A) → Process S A
  gets f s = (returned (f s), s)

  unfoldable pub outcome : Outcome A → Process S A
  outcome o s = (o, s)

  -- `if err != nil { return nil, fmt.Errorf("…: %w", err) }`
  unfoldable pub wrapping : (Error → Error) → Process S A → Process S A
  wrapping f m s = let (o, s') = m s in (map_failed f o, s')

  unfoldable pub discarding : Process S A → Process S (Option A)
  discarding m s = let (o, s') = m s in (discard_failed o, s')

  -- `if err != nil { log.Fatalf("…", err) }`
  unfoldable pub or_exit : (Error → Error) → Process S A → Process S A
  or_exit f m s = let (o, s') = m s in (fatal_failed f o, s')

  -- `defer cleanup()` before `m`
  unfoldable pub deferring : (S → S) → Process S A → Process S A
  deferring cleanup m s = let (o, s') = m s in (o, after cleanup o s')

module _ {ℓ} {S : Type ℓ} where
  unfoldable pub modify : (S → S) → Process S (Unit {ℓ})
  modify f s = (returned tt, f s)

-- A process, and a method, on a part of the state.
module _ {S T A : Type 0} where
  unfoldable pub part : (S → T) → (S → T → S) → Process T A → Process S A
  part get put m s = let (o, t) = m (get s) in (o, put s t)

  unfoldable pub within : (S → T) → (S → T → S) → Exec T A → Process S A
  within get put m s = let (r, t) = m (get s) in (of_result r, put s t)

module _ {ℓ} {S A B : Type ℓ} where
  abbrev pub continue : Outcome A → (A → Process S B) → Process S B
  continue (returned a) f s = f a s
  continue (failed e) f s = (failed e, s)
  continue (panicked e) f s = (panicked e, s)
  continue (exited e) f s = (exited e, s)

  infixl 10 ◌>>=◌
  unfoldable pub ◌>>=◌ : Process S A → (A → Process S B) → Process S B
  ◌>>=◌ m f s = let (o, s') = m s in continue o f s'

module _ {ℓ} {S B : Type ℓ} where
  infixl 10 ◌>>◌
  abbrev pub ◌>>◌ : Process S (Unit {ℓ}) → Process S B → Process S B
  m >> n = m >>= λ _. n

-- All that a test computes through.
unfoldable pub runs : Unit {0}
unfolding pure raise panic exit gets outcome wrapping discarding or_exit deferring modify part
    within ◌>>=◌
runs = tt
