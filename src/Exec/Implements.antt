-- ===== src/Exec/Implements.antt =====
-- Actions that return what a reference computation says, in every state that has an invariant.
use blitz.Base.{◌≡◌, refl, ap, arith, Bool, true, false, Error, Result, ok, err}
use blitz.Base.{map_err, and_then, if◌then◌else◌}
use blitz.Exec.{Exec, pure, raise, gets, wrapping, recover, discard, continue, ◌>>=◌}

-- From every state with `P` the action returns `r`, and `P` holds after it.
pub record Implements {ℓ} {S A : Type ℓ} (P : S → Type ℓ) (m : Exec S A) (r : Result A)
    : Type ℓ where
  pub returns : (s : S) → P s → (m s).0 ≡ r
  pub keeps : (s : S) → P s → P (m s).1

module _ {ℓ} {S A : Type ℓ} {P : S → Type ℓ} where
  pub Implements-pure : (a : A) → Implements P (pure a) (ok a)
  unfolding pure
  Implements-pure a = record { returns = λ s h. refl; keeps = λ s h. h }

  pub Implements-raise : (e : Error) → Implements P (raise {A = A} e) (err e)
  unfolding raise
  Implements-raise e = record { returns = λ s h. refl; keeps = λ s h. h }

  pub Implements-wrapping :
      (f : Error → Error) (m : Exec S A) (r : Result A)
      → Implements P m r
      → Implements P (wrapping f m) (map_err f r)
  unfolding wrapping
  Implements-wrapping f m r k = record {
    returns = λ s h. ap (map_err f) (k.returns s h);
    keeps = λ s h. k.keeps s h;
  }

  pub Implements-recover :
      (m : Exec S A) (r : Result A) → Implements P m r → Implements P (recover m) (discard r)
  unfolding recover
  Implements-recover m r k = record {
    returns = λ s h. ap discard (k.returns s h);
    keeps = λ s h. k.keeps s h;
  }

  pub Implements-if :
      (b : Bool) (m n : Exec S A) (r t : Result A)
      → Implements P m r
      → Implements P n t
      → Implements P (if b then m else n) (if b then r else t)
  Implements-if true m n r t km kn = km
  Implements-if false m n r t km kn = kn

module _ {ℓ} {S A B : Type ℓ} {P : S → Type ℓ} where
  continue-Implements :
      (r q : Result A) (f : A → Exec S B) (g : A → Result B)
      → q ≡ r
      → ((a : A) → r ≡ ok a → Implements P (f a) (g a))
      → (s : S) → P s
      → ((continue q f s).0 ≡ and_then r g) × P (continue q f s).1
  continue-Implements (ok a) (ok b) f g e k s h =
      let same : b ≡ a = ground arith in rw same ((k a refl).returns s h, (k a refl).keeps s h)
  continue-Implements (err x) (err y) f g e k s h = (cc, h)
  continue-Implements (ok a) (err y) f g e k s h = cc
  continue-Implements (err x) (ok b) f g e k s h = cc

  pub Implements-bind :
      (m : Exec S A) (r : Result A) (f : A → Exec S B) (g : A → Result B)
      → Implements P m r
      → ((a : A) → r ≡ ok a → Implements P (f a) (g a))
      → Implements P (m >>= f) (and_then r g)
  unfolding ◌>>=◌
  Implements-bind m r f g km kf = record {
    returns =
        λ s h. (continue-Implements r (m s).0 f g (km.returns s h) kf (m s).1 (km.keeps s h)).0;
    keeps = λ s h. (continue-Implements r (m s).0 f g (km.returns s h) kf (m s).1 (km.keeps s h)).1;
  }

module _ {ℓ} {S A B : Type ℓ} {P : S → Type ℓ} where
  -- The same where the first action returns a known value.
  pub Implements-then :
      (m : Exec S A) (a : A) (f : A → Exec S B) (r : Result B)
      → Implements P m (ok a)
      → Implements P (f a) r
      → Implements P (m >>= f) r
  Implements-then m a f r km kf =
      Implements-bind m (ok a) f (λ _. r) km (λ b e. let same : b ≡ a = ground arith in rw same kf)

  -- The rest of the block may use how the state that it read is.
  pub Implements-gets :
      (f : S → A) (k : A → Exec S B) (r : Result B)
      → ((s : S) → P s → Implements P (k (f s)) r)
      → Implements P (gets f >>= k) r
  unfolding ◌>>=◌ gets
  Implements-gets f k r h = record {
    returns = λ s p. (h s p).returns s p;
    keeps = λ s p. (h s p).keeps s p;
  }

abbrev pub Returns {ℓ} : {A : Type ℓ} → (A → Type 0) → Result A → Type 0
Returns Q (ok a) = Q a
Returns Q (err e) = ⊥

module _ {ℓ} {S A B : Type ℓ} {P : S → Type ℓ} where
  continue-through :
      (Q : A → Type 0) (q : Result A) (f : A → Exec S B) (r : Result B)
      → Returns Q q
      → ((a : A) → Q a → Implements P (f a) r)
      → (s : S) → P s
      → ((continue q f s).0 ≡ r) × P (continue q f s).1
  continue-through Q (ok a) f r h k s p = ((k a h).returns s p, (k a h).keeps s p)
  continue-through Q (err e) f r h k s p = absurd h

  -- The first action returns a value that is known only by a property.
  pub Implements-through :
      (Q : A → Type 0) (m : Exec S A) (f : A → Exec S B) (r : Result B)
      → ((s : S) → P s → Returns Q (m s).0 × P (m s).1)
      → ((a : A) → Q a → Implements P (f a) r)
      → Implements P (m >>= f) r
  unfolding ◌>>=◌
  Implements-through Q m f r km kf = record {
    returns = λ s p. (continue-through Q (m s).0 f r (km s p).0 kf (m s).1 (km s p).1).0;
    keeps = λ s p. (continue-through Q (m s).0 f r (km s p).0 kf (m s).1 (km s p).1).1;
  }
