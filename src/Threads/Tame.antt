-- ===== src/Threads/Tame.antt =====
-- Goroutines that keep an invariant of the shared state, and in which time goes on.
use blitz.Base.{ℕ, zero, suc, ◌-◌, ◌≤◌, ◌≡◌, refl, arith, List, [], ◌∷◌, Result, All}
use blitz.Threads.{Steps, done, section}
use blitz.Threads.Guarded.{Guarded}
use blitz.Threads.Sections.{Each, more-Each}
use blitz.Threads.System.{
  Goroutine, System, Event, arrives, runs, advance, go_on, add_last, happen, happens,
}

module _ {ℓ} {S A : Type ℓ} where
  pub advance-Guarded :
      (P : S → Type ℓ) (R : Result A → Type ℓ) (p : Steps S A) (s : S)
      → Guarded P R p
      → P s
      → Guarded P R (advance p s).0 × P (advance p s).1
  unfolding Guarded advance
  advance-Guarded P R (done r) s h p = (h, p)
  advance-Guarded P R (section g k) s h p = ((h s p).1, (h s p).0)

  pub advance-Each :
      (T : (S → S) → Type ℓ) (n : ℕ) (p : Steps S A) (s : S)
      → Each T n p
      → Each T (n - 1) (advance p s).0
  unfolding Each advance
  advance-Each T n (done r) s h = tt
  advance-Each T n (section g k) s (m, lt, t, h) = more-Each T m (n - 1) (k s) (omega arith) (h s)

  pub ended : (T : (S → S) → Type ℓ) (p : Steps S A) → Each T 0 p → (r : Result A) × (p ≡ done r)
  unfolding Each
  ended T (done r) h = (r, refl)
  ended T (section g k) (m, lt, t, h) = elim lt [ ]

module _ {S : Type 0} (time : S → ℕ) where
  -- The time goes on, if at all.
  abbrev pub Grows : (S → S) → Type 0
  Grows g = (s : S) → time s ≤ time (g s)

module _ {S A : Type 0} (P : S → Type 0) (time : S → ℕ) where
  -- The sections that are left keep `P`, and time goes on in them.
  pub record IsTame (p : Steps S A) : Type 0 where
    pub keeps : Guarded P (λ x. Unit {0}) p
    pub bound : ℕ
    pub grows : Each (Grows time) bound p

  advance_later :
      (n : ℕ) (p : Steps S A) (s : S) → Each (Grows time) n p → time s ≤ time (advance p s).1
  unfolding Each advance
  advance_later n (done r) s h = omega arith
  advance_later n (section g k) s (m, lt, t, h) = t s

  advance-IsTame :
      (p : Steps S A) (s : S)
      → IsTame p
      → P s
      → IsTame (advance p s).0 × P (advance p s).1 × (time s ≤ time (advance p s).1)
  advance-IsTame p s h kept =
      let (keeps, kept') = advance-Guarded P _ p s h.keeps kept in
      (
        record {
          keeps = keeps;
          bound = h.bound - 1;
          grows = advance-Each (Grows time) h.bound p s h.grows;
        },
        kept',
        advance_later h.bound p s h.grows,
      )

module _ {S Q A : Type 0} (P : S → Type 0) (time : S → ℕ) where
  abbrev pub AllTame : List (Goroutine S Q A) → Type 0
  AllTame ts = All (λ t. IsTame P time t.rest) ts

  pub go_on-AllTame :
      (i : ℕ) (ts : List (Goroutine S Q A)) (s : S)
      → AllTame ts
      → P s
      → AllTame (go_on i ts s).0 × P (go_on i ts s).1 × (time s ≤ time (go_on i ts s).1)
  unfolding go_on
  go_on-AllTame i [] s all p = (tt, p, omega arith)
  go_on-AllTame zero (t ∷ ts) s all p =
      let (one, kept, later) = advance-IsTame P time t.rest s all.0 p in ((one, all.1), kept, later)
  go_on-AllTame (suc i) (t ∷ ts) s all p =
      let (rest, kept, later) = go_on-AllTame i ts s all.1 p in ((all.0, rest), kept, later)

  pub add_last-AllTame :
      (t : Goroutine S Q A) (ts : List (Goroutine S Q A))
      → IsTame P time t.rest
      → AllTame ts
      → AllTame (add_last t ts)
  unfolding add_last
  add_last-AllTame t [] one all = (one, tt)
  add_last-AllTame t (u ∷ us) one all = (all.0, add_last-AllTame t us one all.1)

  module _ (program : Q → Steps S A) (tame : (q : Q) → IsTame P time (program q)) where
    pub happens-AllTame :
        (es : List (Event Q)) (y : System S Q A)
        → AllTame y.goroutines
        → P y.shared
        → AllTame (happens program es y).goroutines × P (happens program es y).shared
    unfolding happens happen
    happens-AllTame [] y all p = (all, p)
    happens-AllTame (arrives q ∷ es) y all p =
        happens-AllTame es (happen program (arrives q) y)
          (add_last-AllTame (record { asked = q; rest = program q }) y.goroutines (tame q) all) p
    happens-AllTame (runs i ∷ es) y all p =
        let (all', kept, later) = go_on-AllTame i y.goroutines y.shared all p in
        happens-AllTame es (happen program (runs i) y) all' kept

    pub happens_later :
        (es : List (Event Q)) (y : System S Q A)
        → AllTame y.goroutines
        → P y.shared
        → time y.shared ≤ time (happens program es y).shared
    unfolding happens happen
    happens_later [] y all p = omega arith
    happens_later (arrives q ∷ es) y all p =
        happens_later es (happen program (arrives q) y)
          (add_last-AllTame (record { asked = q; rest = program q }) y.goroutines (tame q) all) p
    happens_later (runs i ∷ es) y all p =
        let (all', kept, later) = go_on-AllTame i y.goroutines y.shared all p in
        let rest = happens_later es (happen program (runs i) y) all' kept in omega arith
