-- ===== src/Threads/System.antt =====
-- Goroutines that share one object, in whatever order the scheduler runs them.
use blitz.Base.{ℕ, zero, suc, ◌+◌, Option, none, some, List, [], ◌∷◌, ◌==◌, nat_eq, if◌then◌else◌}
use blitz.Threads.{Steps, done, section}

module _ {ℓ} (S Q A : Type ℓ) where
  -- What was asked, and what is left to do for it.
  pub record Goroutine : Type ℓ where
    pub asked : Q
    pub rest : Steps S A

  pub record System : Type ℓ where
    pub shared : S
    pub goroutines : List Goroutine

-- A new request comes in and gets a goroutine, or the scheduler lets one go on.
pub data Event {ℓ} (Q : Type ℓ) : Type ℓ where
  arrives : Q → Event Q
  runs : ℕ → Event Q

unfoldable pub advance {ℓ} : {S A : Type ℓ} → Steps S A → S → Steps S A × S
advance (done r) s = (done r, s)
advance (section g k) s = (k s, g s)

module _ {ℓ} {S Q A : Type ℓ} where
  -- The goroutine with this number goes on by one section. A number of none changes nothing.
  unfoldable pub go_on : ℕ → List (Goroutine S Q A) → S → List (Goroutine S Q A) × S
  go_on i [] s = ([], s)
  go_on zero (t ∷ ts) s = let (rest, s') = advance t.rest s in (record t { rest = rest } ∷ ts, s')
  go_on (suc i) (t ∷ ts) s = let (ts', s') = go_on i ts s in (t ∷ ts', s')

  unfoldable pub add_last : Goroutine S Q A → List (Goroutine S Q A) → List (Goroutine S Q A)
  add_last t [] = t ∷ []
  add_last t (u ∷ us) = u ∷ add_last t us

  unfoldable pub get_elem? : List (Goroutine S Q A) → ℕ → Option (Goroutine S Q A)
  get_elem? [] i = none
  get_elem? (t ∷ ts) zero = some t
  get_elem? (t ∷ ts) (suc i) = get_elem? ts i

  module _ (program : Q → Steps S A) where
    unfoldable pub happen : Event Q → System S Q A → System S Q A
    happen (arrives q) y = record y {
      goroutines = add_last (record { asked = q; rest = program q }) y.goroutines;
    }
    happen (runs i) y =
        let (ts, s) = go_on i y.goroutines y.shared in record { shared = s; goroutines = ts }

    unfoldable pub happens : List (Event Q) → System S Q A → System S Q A
    happens [] y = y
    happens (e ∷ es) y = happens es (happen e y)

-- How often the scheduler runs goroutine `i`.
unfoldable pub runs_of {ℓ} : {Q : Type ℓ} → ℕ → List (Event Q) → ℕ
runs_of i [] = 0
runs_of i (arrives q ∷ es) = runs_of i es
runs_of i (runs j ∷ es) = if i == j then 1 + runs_of i es else runs_of i es
