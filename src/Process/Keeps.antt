-- ===== src/Process/Keeps.antt =====
-- What a process keeps of its state, and whether it may leave without its deferred calls.
use blitz.Base.{◌≡◌, ◌≢◌, refl, Error, Result, ok, err, Bool, true, false, if◌then◌else◌, arith}
use blitz.Exec.{Exec}
use blitz.Process.{
  Outcome, returned, failed, panicked, exited, of_result, Process, pure, panic, exit, gets, outcome,
  map_failed, wrapping, or_exit, deferring, modify, part, within, after, continue, ◌>>=◌, ◌>>◌,
}

-- `P` is kept, whatever the process comes to, and it exits only if `X` holds.
pub record Keeps {ℓ} {S A : Type ℓ} (X : Type 0) (P : S → Type 0) (m : Process S A) : Type ℓ where
  pub kept : (s : S) → P s → P (m s).1
  pub exits : (s : S) (e : Error) → (m s).0 ≡ exited e → X

pub Keeps-weaken {ℓ} :
    {S A : Type ℓ} (X : Type 0) (P : S → Type 0) (m : Process S A) → Keeps ⊥ P m → Keeps X P m
Keeps-weaken X P m h = record { kept = h.kept; exits = λ s e q. elim (h.exits s e q) [ ] }

-- A value or an error is no exit.
pub of_result-stays {ℓ} : {A : Type ℓ} (r : Result A) (e : Error) → of_result r ≢ exited e
of_result-stays (ok a) e h = ground arith
of_result-stays (err x) e h = ground arith

map_failed-exited {ℓ} :
    {A : Type ℓ} (f : Error → Error) (o : Outcome A) (e : Error)
    → map_failed f o ≡ exited e
    → o ≡ exited e
map_failed-exited f (returned a) e h = ground arith
map_failed-exited f (failed x) e h = ground arith
map_failed-exited f (panicked x) e h = ground arith
map_failed-exited f (exited x) e h = h

module _ {ℓ} {S A : Type ℓ} (X : Type 0) (P : S → Type 0) where
  pub Keeps-pure : (a : A) → Keeps X P (pure {S = S} a)
  unfolding pure
  Keeps-pure a = record { kept = λ s h. h; exits = λ s e h. ground arith }

  pub Keeps-panic : (x : Error) → Keeps X P (panic {S = S} {A = A} x)
  unfolding panic
  Keeps-panic x = record { kept = λ s h. h; exits = λ s e h. ground arith }

  pub Keeps-gets : (f : S → A) → Keeps X P (gets f)
  unfolding gets
  Keeps-gets f = record { kept = λ s h. h; exits = λ s e h. ground arith }

  pub Keeps-outcome :
      (o : Outcome A) → ((e : Error) → o ≡ exited e → X) → Keeps X P (outcome {S = S} o)
  unfolding outcome
  Keeps-outcome o h = record { kept = λ s p. p; exits = λ s e q. h e q }

  pub Keeps-result : (r : Result A) → Keeps X P (outcome {S = S} (of_result r))
  Keeps-result r = Keeps-outcome (of_result r) (λ e h. elim (of_result-stays r e h) [ ])

  pub Keeps-wrapping :
      (f : Error → Error) (m : Process S A) → Keeps X P m → Keeps X P (wrapping f m)
  unfolding wrapping
  Keeps-wrapping f m h = record {
    kept = λ s p. h.kept s p;
    exits = λ s e q. h.exits s e (map_failed-exited f (m s).0 e q);
  }

  pub Keeps-if :
      (b : Bool) (m n : Process S A) → Keeps X P m → Keeps X P n → Keeps X P (if b then m else n)
  Keeps-if true m n h k = h
  Keeps-if false m n h k = k

module _ {ℓ} {S : Type ℓ} (X : Type 0) (P : S → Type 0) where
  pub Keeps-modify : (f : S → S) → ((s : S) → P s → P (f s)) → Keeps X P (modify f)
  unfolding modify
  Keeps-modify f h = record { kept = h; exits = λ s e q. ground arith }

-- A process that may exit, too.
module _ {ℓ} {S A : Type ℓ} (P : S → Type 0) where
  pub Keeps-or_exit :
      (f : Error → Error) (m : Process S A)
      → Keeps (Unit {0}) P m
      → Keeps (Unit {0}) P (or_exit f m)
  unfolding or_exit
  Keeps-or_exit f m h = record { kept = λ s p. h.kept s p; exits = λ s e q. tt }

  pub Keeps-exit : (x : Error) → Keeps (Unit {0}) P (exit {S = S} {A = A} x)
  unfolding exit
  Keeps-exit x = record { kept = λ s p. p; exits = λ s e q. tt }

module _ {ℓ} {S A B : Type ℓ} (X : Type 0) (P : S → Type 0) where
  continue-Keeps :
      (o : Outcome A) (f : A → Process S B) (s : S)
      → ((a : A) → Keeps X P (f a))
      → P s
      → P (continue o f s).1
  continue-Keeps (returned a) f s h p = (h a).kept s p
  continue-Keeps (failed e) f s h p = p
  continue-Keeps (panicked e) f s h p = p
  continue-Keeps (exited e) f s h p = p

  continue-exits :
      (o : Outcome A) (f : A → Process S B) (s : S) (e : Error)
      → ((a : A) → Keeps X P (f a))
      → ((x : Error) → o ≡ exited x → X)
      → (continue o f s).0 ≡ exited e
      → X
  continue-exits (returned a) f s e h k q = (h a).exits s e q
  continue-exits (failed x) f s e h k q = ground arith
  continue-exits (panicked x) f s e h k q = ground arith
  continue-exits (exited x) f s e h k q = k x refl

  pub Keeps-bind :
      (m : Process S A) (f : A → Process S B)
      → Keeps X P m
      → ((a : A) → Keeps X P (f a))
      → Keeps X P (m >>= f)
  unfolding ◌>>=◌
  Keeps-bind m f h k = record {
    kept = λ s p. continue-Keeps (m s).0 f (m s).1 k (h.kept s p);
    exits = λ s e q. continue-exits (m s).0 f (m s).1 e k (h.exits s) q;
  }

-- A step, its deferred undoing, and what runs in between: `P` holds outside, and `Q` inside.
module _ {ℓ} {S A : Type ℓ} (X : Type 0) (P Q : S → Type 0) where
  behind :
      (cleanup : S → S) (o : Outcome A) (t : S)
      → (X → (s : S) → Q s → P s)
      → ((s : S) → Q s → P (cleanup s))
      → ((e : Error) → o ≡ exited e → X)
      → Q t
      → P (after cleanup o t)
  behind cleanup (returned a) t leaves back x q = back t q
  behind cleanup (failed e) t leaves back x q = back t q
  behind cleanup (panicked e) t leaves back x q = back t q
  behind cleanup (exited e) t leaves back x q = leaves (x e refl) t q

  pub Keeps-bracket :
      (enter cleanup : S → S) (m : Process S A)
      → Keeps X Q m
      → ((s : S) → P s → Q (enter s))
      → (X → (s : S) → Q s → P s)
      → ((s : S) → Q s → P (cleanup s))
      → Keeps X P (modify enter >> deferring cleanup m)
  unfolding deferring modify ◌>>=◌
  Keeps-bracket enter cleanup m h into leaves back = record {
    kept = λ s p.
        behind cleanup (m (enter s)).0 (m (enter s)).1 leaves back (h.exits (enter s))
          (h.kept (enter s) (into s p));
    exits = λ s e q. h.exits (enter s) e q;
  }

module _ {S T A : Type 0} (X : Type 0) (P : S → Type 0) where
  pub Keeps-part :
      (get : S → T) (put : S → T → S) (Q : T → Type 0) (m : Process T A)
      → Keeps X Q m
      → ((s : S) → P s → Q (get s))
      → ((s : S) (t : T) → P s → Q t → P (put s t))
      → Keeps X P (part get put m)
  unfolding part
  Keeps-part get put Q m h into out = record {
    kept = λ s p. out s (m (get s)).1 p (h.kept (get s) (into s p));
    exits = λ s e q. h.exits (get s) e q;
  }

  pub Keeps-within :
      (get : S → T) (put : S → T → S) (m : Exec T A)
      → ((s : S) → P s → P (put s (m (get s)).1))
      → Keeps X P (within get put m)
  unfolding within
  Keeps-within get put m h = record {
    kept = λ s p. h s p;
    exits = λ s e q. elim (of_result-stays (m (get s)).0 e q) [ ];
  }
