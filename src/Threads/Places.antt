-- ===== src/Threads/Places.antt =====
-- Where a goroutine stands in the list of all.
use blitz.Base.{ℕ, zero, suc, ◌≡◌, refl, arith, ◌==◌, nat_eq, false, some, List, [], ◌∷◌, length}
use blitz.Threads.System.{Goroutine, advance, go_on, add_last, get_elem?}

module _ {S Q A : Type 0} where
  pub add_last_get :
      (t u : Goroutine S Q A) (ts : List (Goroutine S Q A)) (i : ℕ)
      → get_elem? ts i ≡ some u
      → get_elem? (add_last t ts) i ≡ some u
  unfolding add_last get_elem?
  add_last_get t u [] i e = cc
  add_last_get t u (x ∷ xs) zero e = e
  add_last_get t u (x ∷ xs) (suc i) e = add_last_get t u xs i e

  pub add_last_new :
      (t : Goroutine S Q A) (ts : List (Goroutine S Q A))
      → get_elem? (add_last t ts) (length ts) ≡ some t
  unfolding add_last get_elem?
  add_last_new t [] = refl
  add_last_new t (u ∷ us) = rw (← add_last_new t us) refl

  pub go_on_self :
      (ts : List (Goroutine S Q A)) (i : ℕ) (t : Goroutine S Q A) (s : S)
      → get_elem? ts i ≡ some t
      → get_elem? (go_on i ts s).0 i ≡ some (record t { rest = (advance t.rest s).0 })
  unfolding go_on get_elem?
  go_on_self [] i t s e = cc
  go_on_self (u ∷ us) zero t s e = let same : u ≡ t = ground arith in rw (← same) refl
  go_on_self (u ∷ us) (suc i) t s e = go_on_self us i t s e

  pub go_on_other :
      (ts : List (Goroutine S Q A)) (i j : ℕ) (t : Goroutine S Q A) (s : S)
      → (i == j) ≡ false
      → get_elem? ts i ≡ some t
      → get_elem? (go_on j ts s).0 i ≡ some t
  unfolding go_on get_elem?
  go_on_other [] i j t s differ e = cc
  go_on_other (u ∷ us) zero zero t s differ e = cc
  go_on_other (u ∷ us) zero (suc j) t s differ e = e
  go_on_other (u ∷ us) (suc i) zero t s differ e = e
  go_on_other (u ∷ us) (suc i) (suc j) t s differ e = go_on_other us i j t s (ground arith) e
