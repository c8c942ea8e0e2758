-- ===== src/Exec/Leads.antt =====
-- Conditions before and after an action, with one condition for a value and one for an error.
use blitz.Base.{◌≡◌, refl, Bool, true, false, Error, Result, ok, err, map_err, if◌then◌else◌}
use mathlib.Core.Path.{subst}
use blitz.Exec.{Exec, pure, gets, modify, wrapping, recover, discard, continue, ◌>>=◌}

abbrev pub Outcome {ℓ} : {S A : Type ℓ} → (A → S → Type 0) → (S → Type 0) → Result A → S → Type 0
Outcome Q E (ok a) s = Q a s
Outcome Q E (err e) s = E s

-- From a state with `P`, a value comes with `Q`, and an error with `E`.
pub record Leads {ℓ} {S A : Type ℓ} (P : S → Type 0) (m : Exec S A) (Q : A → S → Type 0)
    (E : S → Type 0) : Type ℓ where
  pub to : (s : S) → P s → Outcome Q E (m s).0 (m s).1

Outcome-map_err {ℓ} :
    {S A : Type ℓ} (Q : A → S → Type 0) (E : S → Type 0) (f : Error → Error) (r : Result A) (s : S)
    → Outcome Q E r s
    → Outcome Q E (map_err f r) s
Outcome-map_err Q E f (ok a) s h = h
Outcome-map_err Q E f (err e) s h = h

pub Outcome-weaken {ℓ} :
    {S A : Type ℓ} (Q R : A → S → Type 0) (E : S → Type 0) (r : Result A) (s : S)
    → ((a : A) (u : S) → Q a u → R a u)
    → Outcome Q E r s
    → Outcome R E r s
Outcome-weaken Q R E (ok a) s k h = k a s h
Outcome-weaken Q R E (err e) s k h = h

Outcome-continue {ℓ} :
    {S A B : Type ℓ} (Q : A → S → Type 0) (R : B → S → Type 0) (E : S → Type 0) (r : Result A)
    (f : A → Exec S B) (s : S)
    → Outcome Q E r s
    → ((a : A) → Leads (Q a) (f a) R E)
    → Outcome R E (continue r f s).0 (continue r f s).1
Outcome-continue Q R E (ok a) f s q k = (k a).to s q
Outcome-continue Q R E (err e) f s q k = q

module _ {ℓ} {S A : Type ℓ} {P : S → Type 0} {E : S → Type 0} where
  pub Leads-pure : {Q : A → S → Type 0} (a : A) → ((s : S) → P s → Q a s) → Leads P (pure a) Q E
  unfolding pure
  Leads-pure a q = record { to = q }

  pub Leads-wrapping :
      {Q : A → S → Type 0} (f : Error → Error) (m : Exec S A)
      → Leads P m Q E
      → Leads P (wrapping f m) Q E
  unfolding wrapping
  Leads-wrapping {Q} f m k = record { to = λ s p. Outcome-map_err Q E f (m s).0 (m s).1 (k.to s p) }

  pub Leads-if :
      {Q : A → S → Type 0} (b : Bool) (m n : Exec S A)
      → (b ≡ true → Leads P m Q E)
      → (b ≡ false → Leads P n Q E)
      → Leads P (if b then m else n) Q E
  Leads-if true m n km kn = km refl
  Leads-if false m n km kn = kn refl

module _ {ℓ} {S : Type ℓ} {P : S → Type 0} {E : S → Type 0} where
  pub Leads-modify :
      {Q : Unit {ℓ} → S → Type 0} (f : S → S)
      → ((s : S) → P s → Q tt (f s))
      → Leads P (modify f) Q E
  unfolding modify
  Leads-modify f q = record { to = q }

module _ {ℓ} {S A B : Type ℓ} {P : S → Type 0} {E : S → Type 0} where
  pub Leads-bind :
      (Q : A → S → Type 0) {R : B → S → Type 0} (m : Exec S A) (f : A → Exec S B)
      → Leads P m Q E
      → ((a : A) → Leads (Q a) (f a) R E)
      → Leads P (m >>= f) R E
  unfolding ◌>>=◌
  Leads-bind Q {R} m f km kf = record {
    to = λ s p. Outcome-continue Q R E (m s).0 f (m s).1 (km.to s p) kf;
  }

  -- What is read is known from the state.
  pub Leads-gets :
      {R : B → S → Type 0} (g : S → A) (f : A → Exec S B) (a : A)
      → ((s : S) → P s → a ≡ g s)
      → Leads P (f a) R E
      → Leads P (gets g >>= f) R E
  unfolding ◌>>=◌ gets
  Leads-gets {R} g f a known k = record {
    to = λ s p. subst (λ x. Outcome R E (f x s).0 (f x s).1) (known s p) (k.to s p);
  }

module _ {ℓ} {S A B : Type ℓ} where
  continue-discard : (r : Result A) (k : Exec S B) (s : S) → continue (discard r) (λ _. k) s ≡ k s
  continue-discard (ok a) k s = refl
  continue-discard (err e) k s = refl

  -- An error that is dropped does not stop what follows.
  pub recover-bind : (m : Exec S A) (k : Exec S B) (s : S) → (recover m >>= λ _. k) s ≡ k (m s).1
  unfolding ◌>>=◌ recover
  recover-bind m k s = continue-discard (m s).0 k (m s).1

Outcome-both {ℓ} :
    {S A : Type ℓ} (Q E : S → Type 0) (r : Result A) (s : S)
    → Q s
    → (Q s → E s)
    → Outcome (λ _. Q) E r s
Outcome-both Q E (ok a) s h k = h
Outcome-both Q E (err e) s h k = k h

-- What holds of the state after the action, with a value or an error.
pub Leads-both {ℓ} :
    {S A : Type ℓ} {P : S → Type 0} (Q E : S → Type 0) (m : Exec S A)
    → ((s : S) → P s → Q (m s).1)
    → ((s : S) → Q s → E s)
    → Leads P m (λ _. Q) E
Leads-both Q E m after weaker = record {
  to = λ s p. Outcome-both Q E (m s).0 (m s).1 (after s p) (weaker (m s).1);
}

Outcome-end {ℓ} :
    {S A : Type ℓ} (E : S → Type 0) (r : Result A) (s : S) → Outcome (λ _. E) E r s → E s
Outcome-end E (ok a) s h = h
Outcome-end E (err e) s h = h

pub Leads-end {ℓ} :
    {S A : Type ℓ} {P : S → Type 0} (E : S → Type 0) (m : Exec S A) (s : S)
    → Leads P m (λ _. E) E
    → P s
    → E (m s).1
Leads-end E m s k p = Outcome-end E (m s).0 (m s).1 (k.to s p)
