-- ===== src/Threads/Guarded.antt =====
-- What a call returns whatever other goroutines do between its critical sections, as long as
-- these keep an invariant of the shared state.
use blitz.Base.{
  ◌≡◌, refl, ap, arith, Bool, true, false, Error, Result, ok, err, map_err, and_then, if◌then◌else◌,
}
use blitz.Exec.{Exec, gets, discard}
use blitz.Exec.Implements.{Implements, Returns}
use blitz.Threads.{Steps, done, section, answer, locked, wrapping, recover, resume, ◌>>=◌}

-- Each section keeps `P` from a state that has it, and the answer, in the end, has `Q`.
unfoldable pub Guarded {ℓ} :
    {S A : Type ℓ} → (S → Type ℓ) → (Result A → Type ℓ) → Steps S A → Type ℓ
Guarded P Q (done r) = Q r
Guarded {S = S} P Q (section g k) = (s : S) → P s → P (g s) × Guarded P Q (k s)

-- The call returns `r`.
pub record Gives {ℓ} {S A : Type ℓ} (P : S → Type ℓ) (p : Steps S A) (r : Result A) : Type ℓ where
  pub sections : Guarded P (λ x. x ≡ r) p

module _ {ℓ} {S A B : Type ℓ} (P : S → Type ℓ) (Q : Result A → Type ℓ) (R : Result B → Type ℓ) where
  -- A bind, by what is known of the first answer.
  resume-Guarded :
      (x : Result A) (f : A → Steps S B)
      → Q x
      → ((a : A) → Q (ok a) → Guarded P R (f a))
      → ((e : Error) → Q (err e) → R (err e))
      → Guarded P R (resume x f)
  unfolding Guarded
  resume-Guarded (ok a) f q good bad = good a q
  resume-Guarded (err e) f q good bad = bad e q

  pub Guarded-bind :
      (p : Steps S A) (f : A → Steps S B)
      → Guarded P Q p
      → ((a : A) → Q (ok a) → Guarded P R (f a))
      → ((e : Error) → Q (err e) → R (err e))
      → Guarded P R (p >>= f)
  unfolding Guarded ◌>>=◌
  Guarded-bind (done x) f h good bad = resume-Guarded x f h good bad
  Guarded-bind (section g k) f h good bad =
      λ s p. ((h s p).0, Guarded-bind (k s) f (h s p).1 good bad)

module _ {ℓ} {S A : Type ℓ} (P : S → Type ℓ) (Q R : Result A → Type ℓ) where
  pub Guarded-wrapping :
      (f : Error → Error) (p : Steps S A)
      → Guarded P Q p
      → ((x : Result A) → Q x → R (map_err f x))
      → Guarded P R (wrapping f p)
  unfolding Guarded wrapping
  Guarded-wrapping f (done x) h next = next x h
  Guarded-wrapping f (section g k) h next =
      λ s p. ((h s p).0, Guarded-wrapping f (k s) (h s p).1 next)

module _ {ℓ} {S A : Type ℓ} (P : S → Type ℓ) (Q R : Result A → Type ℓ) where
  pub Guarded-weaken :
      (p : Steps S A) → ((x : Result A) → Q x → R x) → Guarded P Q p → Guarded P R p
  unfolding Guarded
  Guarded-weaken (done x) le h = le x h
  Guarded-weaken (section g k) le h = λ s p. ((h s p).0, Guarded-weaken (k s) le (h s p).1)

module _ {ℓ} {S A : Type ℓ} (P : S → Type ℓ) where
  recover-Guarded :
      (r : Result A) (p : Steps S A)
      → Guarded P (λ x. x ≡ r) p
      → Guarded P (λ x. x ≡ discard r) (recover p)
  unfolding Guarded recover
  recover-Guarded r (done x) h = ap discard h
  recover-Guarded r (section g k) h = λ s p. ((h s p).0, recover-Guarded r (k s) (h s p).1)

module _ {ℓ} {S A : Type ℓ} {P : S → Type ℓ} where
  pub Gives-recover : (p : Steps S A) (r : Result A) → Gives P p r → Gives P (recover p) (discard r)
  Gives-recover p r h = record { sections = recover-Guarded P r p h.sections }

  pub Gives-answer : (a : A) → Gives P (answer a) (ok a)
  unfolding Guarded
  Gives-answer a = record { sections = refl }

  pub Gives-locked : (m : Exec S A) (r : Result A) → Implements P m r → Gives P (locked m) r
  unfolding Guarded
  Gives-locked m r h = record { sections = λ s p. (h.keeps s p, h.returns s p) }

  pub Gives-wrapping :
      (f : Error → Error) (p : Steps S A) (r : Result A)
      → Gives P p r
      → Gives P (wrapping f p) (map_err f r)
  Gives-wrapping f p r h = record {
    sections = Guarded-wrapping P _ _ f p h.sections (λ x e. ap (map_err f) e);
  }

  pub Gives-if :
      (b : Bool) (p q : Steps S A) (r t : Result A)
      → Gives P p r
      → Gives P q t
      → Gives P (if b then p else q) (if b then r else t)
  Gives-if true p q r t hp hq = hp
  Gives-if false p q r t hp hq = hq

module _ {ℓ} {A B : Type ℓ} where
  after_err : (r : Result A) (g : A → Result B) (e : Error) → err e ≡ r → err e ≡ and_then r g
  after_err (ok b) g e h = cc
  after_err (err x) g e h = ground arith

module _ {ℓ} {S A B : Type ℓ} {P : S → Type ℓ} where
  after_ok :
      (r : Result A) (f : A → Steps S B) (g : A → Result B)
      → ((a : A) → r ≡ ok a → Gives P (f a) (g a))
      → (a : A) → ok a ≡ r
      → Guarded P (λ x. x ≡ and_then r g) (f a)
  after_ok (ok b) f g h a e = let same : a ≡ b = ground arith in rw same (h b refl).sections
  after_ok (err x) f g h a e = cc

  pub Gives-bind :
      (p : Steps S A) (r : Result A) (f : A → Steps S B) (g : A → Result B)
      → Gives P p r
      → ((a : A) → r ≡ ok a → Gives P (f a) (g a))
      → Gives P (p >>= f) (and_then r g)
  Gives-bind p r f g hp hf = record {
    sections = Guarded-bind P _ _ p f hp.sections (after_ok r f g hf) (after_err r g);
  }

  pub Gives-then :
      (p : Steps S A) (a : A) (f : A → Steps S B) (r : Result B)
      → Gives P p (ok a)
      → Gives P (f a) r
      → Gives P (p >>= f) r
  Gives-then p a f r hp hf =
      Gives-bind p (ok a) f (λ _. r) hp (λ b e. let same : b ≡ a = ground arith in rw same hf)

  -- What follows a section that reads may use how the state was when it read it.
  pub Gives-gets :
      (f : S → A) (k : A → Steps S B) (r : Result B)
      → ((s : S) → P s → Gives P (k (f s)) r)
      → Gives P (locked (gets f) >>= k) r
  unfolding Guarded ◌>>=◌ gets
  Gives-gets f k r h = record { sections = λ s p. (p, (h s p).sections) }

  resume-through :
      (Q : A → Type 0) (x : Result A) (f : A → Steps S B) (r : Result B)
      → Returns Q x
      → ((a : A) → Q a → Gives P (f a) r)
      → Guarded P (λ y. y ≡ r) (resume x f)
  resume-through Q (ok a) f r q hf = (hf a q).sections
  resume-through Q (err e) f r q hf = absurd q

  -- A section the answer of which is known only by a property.
  pub Gives-through :
      (Q : A → Type 0) (m : Exec S A) (f : A → Steps S B) (r : Result B)
      → ((s : S) → P s → Returns Q (m s).0 × P (m s).1)
      → ((a : A) → Q a → Gives P (f a) r)
      → Gives P (locked m >>= f) r
  unfolding Guarded ◌>>=◌
  Gives-through Q m f r hm hf = record {
    sections = λ s p. ((hm s p).1, resume-through Q (m s).0 f r (hm s p).0 hf);
  }
