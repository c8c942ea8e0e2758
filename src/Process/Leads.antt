-- ===== src/Process/Leads.antt =====
-- Where a process leads from a state, whichever way it ends.
use blitz.Base.{Error}
use blitz.Process.{
  Outcome, returned, failed, panicked, exited, Process, gets, wrapping, deferring, after, continue,
  ◌>>=◌,
}
use blitz.Process.Keeps.{Keeps}

-- From `P` to `Q`.
pub record Leads {ℓ} {S A : Type ℓ} (P Q : S → Type 0) (m : Process S A) : Type ℓ where
  pub led : (s : S) → P s → Q (m s).1

module _ {ℓ} {S A : Type ℓ} (P Q : S → Type 0) where
  pub Leads-deferring :
      (cleanup : S → S) (m : Process S A)
      → Leads P Q m
      → ((s : S) → Q s → Q (cleanup s))
      → Leads P Q (deferring cleanup m)
  unfolding deferring
  Leads-deferring cleanup m h k = record { led = λ s p. behind (m s).0 (m s).1 (h.led s p) }
    where
      behind : (o : Outcome A) (t : S) → Q t → Q (after cleanup o t)
      behind (returned a) t q = k t q
      behind (failed e) t q = k t q
      behind (panicked e) t q = k t q
      behind (exited e) t q = q

  pub Leads-wrapping :
      (f : Error → Error) (m : Process S A) → Leads P Q m → Leads P Q (wrapping f m)
  unfolding wrapping
  Leads-wrapping f m h = record { led = λ s p. h.led s p }

-- Up to the last step `P` is kept.
module _ {ℓ} {S A B : Type ℓ} (P Q : S → Type 0) where
  pub Leads-bind :
      (X : Type 0) (m : Process S A) (f : A → Process S B)
      → Keeps X P m
      → ((a : A) → Leads P Q (f a))
      → ((s : S) → P s → Q s)
      → Leads P Q (m >>= f)
  unfolding ◌>>=◌
  Leads-bind X m f h k early = record { led = λ s p. behind (m s).0 (m s).1 (h.kept s p) }
    where
      behind : (o : Outcome A) (t : S) → P t → Q (continue o f t).1
      behind (returned a) t p = (k a).led t p
      behind (failed e) t p = early t p
      behind (panicked e) t p = early t p
      behind (exited e) t p = early t p

  -- What is led to in the first step, the others keep.
  pub Leads-then :
      (X : Type 0) (m : Process S A) (f : A → Process S B)
      → Leads P Q m
      → ((a : A) → Keeps X Q (f a))
      → Leads P Q (m >>= f)
  unfolding ◌>>=◌
  Leads-then X m f h k = record { led = λ s p. behind (m s).0 (m s).1 (h.led s p) }
    where
      behind : (o : Outcome A) (t : S) → Q t → Q (continue o f t).1
      behind (returned a) t q = (k a).kept t q
      behind (failed e) t q = q
      behind (panicked e) t q = q
      behind (exited e) t q = q

  pub Leads-gets :
      (g : S → A) (f : A → Process S B)
      → ((s : S) → P s → Q (f (g s) s).1)
      → Leads P Q (gets g >>= f)
  unfolding gets ◌>>=◌
  Leads-gets g f h = record { led = h }
