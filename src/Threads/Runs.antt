-- ===== src/Threads/Runs.antt =====
-- A call with nobody else running is the action of `Exec` that has the same parts.
use blitz.Base.{◌≡◌, refl, Bool, true, false, Error, Result, ok, err, if◌then◌else◌}
use blitz.Exec
use blitz.Exec.{Exec}
use blitz.Exec.Implements.{Implements}
use blitz.Threads.Guarded.{Guarded, Gives}
use blitz.Threads.{
  Steps, done, section, answer, locked, wrapping, recover, abort, run, resume, ◌>>=◌,
}

-- `p` alone does what `m` does.
pub record Runs {ℓ} {S A : Type ℓ} (p : Steps S A) (m : Exec S A) : Type ℓ where
  pub same : (s : S) → run p s ≡ m s

module _ {ℓ} {S A : Type ℓ} where
  pub Runs-answer : (a : A) → Runs {S = S} (answer a) (Exec.pure a)
  unfolding run Exec.pure
  Runs-answer a = record { same = λ s. refl }

  pub Runs-locked : (m : Exec S A) → Runs (locked m) m
  unfolding run
  Runs-locked m = record { same = λ s. refl }

  run-wrapping :
      (f : Error → Error) (p : Steps S A) (s : S) → run (wrapping f p) s ≡ Exec.wrapping f (run p) s
  unfolding run wrapping Exec.wrapping
  run-wrapping f (done r) s = refl
  run-wrapping f (section g k) s = run-wrapping f (k s) (g s)

  pub Runs-wrapping :
      (f : Error → Error) (p : Steps S A) (m : Exec S A)
      → Runs p m
      → Runs (wrapping f p) (Exec.wrapping f m)
  unfolding Exec.wrapping
  Runs-wrapping f p m h = record { same = λ s. rw (run-wrapping f p s, h.same s) refl }

  run-recover : (p : Steps S A) (s : S) → run (recover p) s ≡ Exec.recover (run p) s
  unfolding run recover Exec.recover
  run-recover (done r) s = refl
  run-recover (section g k) s = run-recover (k s) (g s)

  pub Runs-recover : (p : Steps S A) (m : Exec S A) → Runs p m → Runs (recover p) (Exec.recover m)
  unfolding Exec.recover
  Runs-recover p m h = record { same = λ s. rw (run-recover p s, h.same s) refl }

  pub Runs-abort : (e : Error) → Runs {S = S} {A = A} (abort e) (Exec.raise e)
  unfolding run Exec.raise
  Runs-abort e = record { same = λ s. refl }

  pub Runs-if :
      (b : Bool) (p q : Steps S A) (m n : Exec S A)
      → Runs p m
      → Runs q n
      → Runs (if b then p else q) (if b then m else n)
  Runs-if true p q m n hp hq = hp
  Runs-if false p q m n hp hq = hq

module _ {ℓ} {S A B : Type ℓ} where
  run-resume :
      (r : Result A) (f : A → Steps S B) (s : S)
      → run (resume r f) s ≡ Exec.continue r (λ a. run (f a)) s
  unfolding run
  run-resume (ok a) f s = refl
  run-resume (err e) f s = refl

  run-bind :
      (p : Steps S A) (f : A → Steps S B) (s : S)
      → run (p >>= f) s ≡ Exec.◌>>=◌ (run p) (λ a. run (f a)) s
  unfolding run ◌>>=◌ Exec.◌>>=◌
  run-bind (done r) f s = run-resume r f s
  run-bind (section g k) f s = run-bind (k s) f (g s)

  continue-Runs :
      (r : Result A) (f : A → Steps S B) (g : A → Exec S B)
      → ((a : A) → Runs (f a) (g a))
      → (s : S) → Exec.continue r (λ a. run (f a)) s ≡ Exec.continue r g s
  continue-Runs (ok a) f g h s = (h a).same s
  continue-Runs (err e) f g h s = refl

  pub Runs-bind :
      (p : Steps S A) (m : Exec S A) (f : A → Steps S B) (g : A → Exec S B)
      → Runs p m
      → ((a : A) → Runs (f a) (g a))
      → Runs (p >>= f) (Exec.◌>>=◌ m g)
  unfolding Exec.◌>>=◌
  Runs-bind p m f g hp hf = record {
    same = λ s. rw (run-bind p f s, hp.same s) (continue-Runs (m s).0 f g hf (m s).1);
  }

module _ {ℓ} {S A : Type ℓ} where
  run-Guarded :
      (P : S → Type ℓ) (p : Steps S A) (r : Result A) (s : S)
      → Guarded P (λ x. x ≡ r) p
      → P s
      → ((run p s).0 ≡ r) × P (run p s).1
  unfolding run Guarded
  run-Guarded P (done x) r s h p = (h, p)
  run-Guarded P (section g k) r s h p = run-Guarded P (k s) r (g s) (h s p).1 (h s p).0

  -- What a call returns among others it returns alone too.
  pub Runs-Implements :
      {P : S → Type ℓ} (p : Steps S A) (m : Exec S A) (r : Result A)
      → Runs p m
      → Gives P p r
      → Implements P m r
  Runs-Implements {P} p m r h g = record {
    returns = λ s q. rw (← h.same s) (run-Guarded P p r s g.sections q).0;
    keeps = λ s q. rw (← h.same s) (run-Guarded P p r s g.sections q).1;
  }
