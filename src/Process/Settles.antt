-- ===== src/Process/Settles.antt =====
-- What holds where a process ends other than by an exit.
use blitz.Base.{◌≡◌, ◌⊎◌, refl, inl, inr, Error}
use blitz.Process.{
  Outcome, returned, failed, panicked, exited, Process, modify, deferring, after, continue, ◌>>=◌,
  ◌>>◌,
}
use blitz.Process.Keeps.{Keeps}

-- `P` holds afterwards, or the process has exited.
pub record Settles {ℓ} {S A : Type ℓ} (P : S → Type 0) (m : Process S A) : Type ℓ where
  pub settled : (s : S) → P s → ((x : Error) × ((m s).0 ≡ exited x)) ⊎ P (m s).1

module _ {ℓ} {S A B : Type ℓ} (P : S → Type 0) where
  continue-settled :
      (o : Outcome A) (f : A → Process S B) (t : S)
      → ((a : A) → Settles P (f a))
      → P t
      → ((x : Error) × ((continue o f t).0 ≡ exited x)) ⊎ P (continue o f t).1
  continue-settled (returned a) f t k p = (k a).settled t p
  continue-settled (failed e) f t k p = inr p
  continue-settled (panicked e) f t k p = inr p
  continue-settled (exited e) f t k p = inr p

  pub Settles-bind :
      (X : Type 0) (m : Process S A) (f : A → Process S B)
      → Keeps X P m
      → ((a : A) → Settles P (f a))
      → Settles P (m >>= f)
  unfolding ◌>>=◌
  Settles-bind X m f h k = record {
    settled = λ s p. continue-settled (m s).0 f (m s).1 k (h.kept s p);
  }

-- A step, its deferred undoing, and what runs in between: `P` holds outside, and `Q` inside.
module _ {ℓ} {S A : Type ℓ} (X : Type 0) (P Q : S → Type 0) where
  behind :
      (cleanup : S → S) (o : Outcome A) (t : S)
      → ((s : S) → Q s → P (cleanup s))
      → Q t
      → ((x : Error) × (o ≡ exited x)) ⊎ P (after cleanup o t)
  behind cleanup (returned a) t back q = inr (back t q)
  behind cleanup (failed e) t back q = inr (back t q)
  behind cleanup (panicked e) t back q = inr (back t q)
  behind cleanup (exited e) t back q = inl (e, refl)

  pub Settles-bracket :
      (enter cleanup : S → S) (m : Process S A)
      → Keeps X Q m
      → ((s : S) → P s → Q (enter s))
      → ((s : S) → Q s → P (cleanup s))
      → Settles P (modify enter >> deferring cleanup m)
  unfolding deferring modify ◌>>=◌
  Settles-bracket enter cleanup m h into back = record {
    settled =
        λ s p. behind cleanup (m (enter s)).0 (m (enter s)).1 back (h.kept (enter s) (into s p));
  }
