-- ===== src/Threads/Answers.antt =====
-- Every goroutine that is run often enough returns, and what it returns is as it should be,
-- whatever the others did in between.
use blitz.Base.{
  ℕ, ◌-◌, ◌≤◌, ◌≡◌, arith, ◌==◌, nat_eq, false, Bool-cases, inl, inr, some, List, [], ◌∷◌, Result,
  length,
}
use blitz.Threads.{Steps, done, section}
use blitz.Threads.Guarded.{Guarded}
use blitz.Threads.Sections.{Each, Sections, more-Each}
use blitz.Threads.System.{
  System, Event, arrives, runs, advance, get_elem?, happen, happens, runs_of,
}
use blitz.Threads.Places.{add_last_get, add_last_new, go_on_self, go_on_other}
use blitz.Threads.Tame.{
  Grows, IsTame, AllTame, advance-Guarded, advance-Each, ended, go_on-AllTame, add_last-AllTame,
  happens-AllTame,
}

module _ {S Q A : Type 0} where
  -- Goroutine `i` has returned `r` to the request `q`.
  abbrev pub Returned : System S Q A → ℕ → Q → Result A → Type 0
  Returned y i q r = get_elem? y.goroutines i ≡ some (record { asked = q; rest = done r })

module _ {S : Type 0} (P : S → Type 0) (time : S → ℕ) where
  -- The invariant, and that it is not before `t`.
  abbrev pub Since : ℕ → S → Type 0
  Since t s = P s × (t ≤ time s)

module _ {S A : Type 0} (P : S → Type 0) (time : S → ℕ) where
  forget :
      (R : Result A → Type 0) (p : Steps S A)
      → Guarded (Since P time 0) R p
      → Guarded P (λ x. Unit {0}) p
  unfolding Guarded
  forget R (done r) h = tt
  forget R (section g k) h = λ s p. let at = h s (p, omega arith) in (at.0.0, forget R (k s) at.1)

-- Goroutine `i` has `n` sections left at most, and its answer will have `R`.
record GoesWell {S Q A : Type 0} (P : S → Type 0) (time : S → ℕ) (i t : ℕ) (R : Result A → Type 0)
    (q : Q) (n : ℕ) (y : System S Q A) (p : Steps S A) : Type 0 where
  place : get_elem? y.goroutines i ≡ some (record { asked = q; rest = p })
  bounded : Each (Grows time) n p
  guarded : Guarded (Since P time t) R p
  others : AllTame P time y.goroutines
  kept : P y.shared
  later : t ≤ time y.shared

module _ {S Q A : Type 0} (P : S → Type 0) (time : S → ℕ) (program : Q → Steps S A)
    (tame : (q : Q) → IsTame P time (program q)) (i t : ℕ) (R : Result A → Type 0) (q : Q) where
  arrives-GoesWell :
      (x : Q) (n : ℕ) (y : System S Q A) (p : Steps S A)
      → GoesWell P time i t R q n y p
      → GoesWell P time i t R q n (happen program (arrives x) y) p
  unfolding happen
  arrives-GoesWell x n y p h = record {
    place = add_last_get _ _ y.goroutines i h.place;
    bounded = h.bounded;
    guarded = h.guarded;
    others = add_last-AllTame P time _ y.goroutines (tame x) h.others;
    kept = h.kept;
    later = h.later;
  }

  runs-GoesWell :
      (n : ℕ) (y : System S Q A) (p : Steps S A)
      → GoesWell P time i t R q n y p
      → GoesWell P time i t R q (n - 1) (happen program (runs i) y) (advance p y.shared).0
  unfolding happen
  runs-GoesWell n y p h =
      let (others, kept, later) = go_on-AllTame P time i y.goroutines y.shared h.others h.kept in
      record {
        place = go_on_self y.goroutines i _ y.shared h.place;
        bounded = advance-Each (Grows time) n p y.shared h.bounded;
        guarded = (advance-Guarded (Since P time t) R p y.shared h.guarded (h.kept, h.later)).0;
        others = others;
        kept = kept;
        later = omega (arith, later, h.later);
      }

  other-GoesWell :
      (j n : ℕ) (y : System S Q A) (p : Steps S A)
      → (i == j) ≡ false
      → GoesWell P time i t R q n y p
      → GoesWell P time i t R q n (happen program (runs j) y) p
  unfolding happen
  other-GoesWell j n y p differ h =
      let (others, kept, later) = go_on-AllTame P time j y.goroutines y.shared h.others h.kept in
      record {
        place = go_on_other y.goroutines i j _ y.shared differ h.place;
        bounded = h.bounded;
        guarded = h.guarded;
        others = others;
        kept = kept;
        later = omega (arith, later, h.later);
      }

  happens-Returned :
      (es : List (Event Q)) (n : ℕ) (y : System S Q A) (p : Steps S A)
      → GoesWell P time i t R q n y p
      → n ≤ runs_of i es
      → (r : Result A) × Returned (happens program es y) i q r
        × R r
        × P (happens program es y).shared
  unfolding happens runs_of Guarded
  happens-Returned [] n y p h often =
      let (r, e) = ended (Grows time) p (more-Each _ n 0 p often h.bounded) in
      (r, rw (← e) h.place, (rw e at h.guarded), h.kept)
  happens-Returned (arrives x ∷ es) n y p h often =
      happens-Returned es n (happen program (arrives x) y) p (arrives-GoesWell x n y p h) often
  happens-Returned (runs j ∷ es) n y p h often = elim (Bool-cases (i == j)) [
    | inl same ↦
        let e : j ≡ i = ground arith in
        happens-Returned es (n - 1) (happen program (runs j) y) (advance p y.shared).0
          (rw e (runs-GoesWell n y p h)) (ground arith)
    | inr differ ↦
        happens-Returned es n (happen program (runs j) y) p (other-GoesWell j n y p differ h)
          (ground arith)
  ]

-- Where the sections keep `P` and time goes on in them: after any events, a request comes in, and
-- after any further events in which its goroutine, of at most `n` sections, is run `n` times, it has
-- returned, as `Spec` says of a request that came in at that time, and `P` holds.
pub happens-answered :
    {S Q A : Type 0} (P : S → Type 0) (time : S → ℕ) (Spec : Q → ℕ → Result A → Type 0)
    (program : Q → Steps S A) (n : ℕ)
    → ((q : Q) → Sections (Grows time) n (program q))
    → ((q : Q) (t : ℕ) → Guarded (Since P time t) (Spec q t) (program q))
    → (s : S) → P s
    → (before after : List (Event Q)) (q : Q)
    → (let y = happens program before (record { shared = s; goroutines = [] }) in
        n ≤ runs_of (length y.goroutines) after
        → (r : Result A) × Returned
            (happens program after (happen program (arrives q) y))
            (length y.goroutines)
            q
            r
          × Spec q (time y.shared) r
          × P (happens program after (happen program (arrives q) y)).shared)
unfolding happen
happens-answered P time Spec program n grows sound s p before after q often =
    let tame : (x : _) → IsTame P time (program x) = λ x. record {
      keeps = forget P time (Spec x 0) (program x) (sound x 0);
      bound = n;
      grows = (grows x).each;
    } in
    let y = happens program before (record { shared = s; goroutines = [] }) in
    let (all, kept) =
      happens-AllTame P time program tame before (record { shared = s; goroutines = [] }) tt p in
    happens-Returned P time program tame (length y.goroutines) (time y.shared)
      (Spec q (time y.shared)) q after n (happen program (arrives q) y) (program q)
      (record {
        place = add_last_new _ y.goroutines;
        bounded = (grows q).each;
        guarded = sound q (time y.shared);
        others = add_last-AllTame P time _ y.goroutines (tame q) all;
        kept = kept;
        later = omega arith;
      })
      often
