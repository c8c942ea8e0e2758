-- ===== src/Threads/Sections.antt =====
-- How many sections a call has at most, and what holds of each of them by itself.
use blitz.Base.{
  ℕ, suc, ◌+◌, ◌≤◌, ◌<◌, arith, Bool, true, false, Error, Result, ok, err, if◌then◌else◌,
}
use blitz.Exec.{Exec}
use blitz.Threads.{Steps, done, section, answer, abort, locked, wrapping, recover, ◌>>=◌}
use blitz.Threads.Guarded.{Guarded, Gives}

unfoldable pub Each {ℓ} : {S A : Type ℓ} → ((S → S) → Type ℓ) → ℕ → Steps S A → Type ℓ
Each T n (done r) = Unit
Each {S = S} T n (section g k) = (m : ℕ) × (m < n) × T g × ((s : S) → Each T m (k s))

-- Whatever it reads, `p` has no more than `n` sections, and what each makes of the shared state
-- has `T`.
pub record Sections {ℓ} {S A : Type ℓ} (T : (S → S) → Type ℓ) (n : ℕ) (p : Steps S A) : Type ℓ where
  pub each : Each T n p

module _ {ℓ} {S A : Type ℓ} (T : (S → S) → Type ℓ) where
  pub more-Each : (m n : ℕ) (p : Steps S A) → m ≤ n → Each T m p → Each T n p
  unfolding Each
  more-Each m n (done r) le h = tt
  more-Each m n (section g k) le (l, lt, t, h) = (l, omega arith, t, h)

  wrapping-Each : (n : ℕ) (f : Error → Error) (p : Steps S A) → Each T n p → Each T n (wrapping f p)
  unfolding Each wrapping
  wrapping-Each n f (done r) h = tt
  wrapping-Each n f (section g k) (m, lt, t, h) = (m, lt, t, λ s. wrapping-Each m f (k s) (h s))

  recover-Each : (n : ℕ) (p : Steps S A) → Each T n p → Each T n (recover p)
  unfolding Each recover
  recover-Each n (done r) h = tt
  recover-Each n (section g k) (m, lt, t, h) = (m, lt, t, λ s. recover-Each m (k s) (h s))

  weaken-Each :
      (U : (S → S) → Type ℓ) (n : ℕ) (p : Steps S A)
      → ((g : S → S) → T g → U g)
      → Each T n p
      → Each U n p
  unfolding Each
  weaken-Each U n (done r) le h = tt
  weaken-Each U n (section g k) le (m, lt, t, h) =
      (m, lt, le g t, λ s. weaken-Each U m (k s) le (h s))

  -- An invariant that each section keeps holds beside those that the answer needs.
  pub Each-Guarded :
      (P R : S → Type ℓ) (Q : Result A → Type ℓ) (n : ℕ) (p : Steps S A)
      → ((g : S → S) → T g → (s : S) → R s → R (g s))
      → Guarded P Q p
      → Each T n p
      → Guarded (λ s. P s × R s) Q p
  unfolding Each Guarded
  Each-Guarded P R Q n (done r) le h e = h
  Each-Guarded P R Q n (section g k) le h (m, lt, t, e) =
      λ s (q, r). (((h s q).0, le g t s r), Each-Guarded P R Q m (k s) le (h s q).1 (e s))

  -- What each section keeps by itself.
  pub Each-Keeps :
      (P : S → Type ℓ) (n : ℕ) (p : Steps S A)
      → ((g : S → S) → T g → (s : S) → P s → P (g s))
      → Each T n p
      → Guarded P (λ x. Unit {ℓ}) p
  unfolding Each Guarded
  Each-Keeps P n (done r) le h = tt
  Each-Keeps P n (section g k) le (m, lt, t, h) =
      λ s kept. (le g t s kept, Each-Keeps P m (k s) le (h s))

module _ {ℓ} {S A : Type ℓ} {T : (S → S) → Type ℓ} where
  pub Sections-answer : {n : ℕ} (a : A) → Sections T n (answer a)
  unfolding Each
  Sections-answer a = record { each = tt }

  pub Sections-abort : {n : ℕ} (e : Error) → Sections T n (abort {A = A} e)
  unfolding Each
  Sections-abort e = record { each = tt }

  pub Sections-locked : {n : ℕ} (m : Exec S A) → T (λ s. (m s).1) → Sections T (suc n) (locked m)
  unfolding Each
  Sections-locked m h = record { each = (0, omega arith, h, λ s. tt) }

  pub Sections-if :
      {n : ℕ} (b : Bool) (p q : Steps S A)
      → Sections T n p
      → Sections T n q
      → Sections T n (if b then p else q)
  Sections-if true p q hp hq = hp
  Sections-if false p q hp hq = hq

  pub Sections-wrapping :
      {n : ℕ} (f : Error → Error) (p : Steps S A) → Sections T n p → Sections T n (wrapping f p)
  Sections-wrapping f p h = record { each = wrapping-Each T _ f p h.each }

  pub Sections-recover : {n : ℕ} (p : Steps S A) → Sections T n p → Sections T n (recover p)
  Sections-recover p h = record { each = recover-Each T _ p h.each }

  pub Sections-more : (m : ℕ) {n : ℕ} (p : Steps S A) → m ≤ n → Sections T m p → Sections T n p
  Sections-more m p le h = record { each = more-Each T m _ p le h.each }

  pub Sections-weaken :
      (U : (S → S) → Type ℓ) {n : ℕ} (p : Steps S A)
      → ((g : S → S) → T g → U g)
      → Sections T n p
      → Sections U n p
  Sections-weaken U p le h = record { each = weaken-Each T U _ p le h.each }

  pub Sections-Gives :
      (P R : S → Type ℓ) (n : ℕ) (p : Steps S A) (r : Result A)
      → ((g : S → S) → T g → (s : S) → R s → R (g s))
      → Gives P p r
      → Sections T n p
      → Gives (λ s. P s × R s) p r
  Sections-Gives P R n p r le h e = record {
    sections = Each-Guarded T P R _ n p le h.sections e.each;
  }

module _ {ℓ} {S A B : Type ℓ} (T : (S → S) → Type ℓ) where
  bind-Each :
      (m n : ℕ) (p : Steps S A) (f : A → Steps S B)
      → Each T m p
      → ((a : A) → Each T n (f a))
      → Each T (m + n) (p >>= f)
  unfolding Each ◌>>=◌
  bind-Each m n (done (ok a)) f hp hf = more-Each T n (m + n) (f a) (omega arith) (hf a)
  bind-Each m n (done (err e)) f hp hf = tt
  bind-Each m n (section g k) f (l, lt, t, hp) hf =
      (l + n, omega arith, t, λ s. bind-Each l n (k s) f (hp s) hf)

module _ {ℓ} {S A B : Type ℓ} {T : (S → S) → Type ℓ} where
  pub Sections-bind :
      (m n : ℕ) (p : Steps S A) (f : A → Steps S B)
      → Sections T m p
      → ((a : A) → Sections T n (f a))
      → Sections T (m + n) (p >>= f)
  Sections-bind m n p f hp hf = record { each = bind-Each T m n p f hp.each (λ a. (hf a).each) }
