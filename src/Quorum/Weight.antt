-- ===== src/Quorum/Weight.antt =====
-- The tally without machine words: exact sums, and the weight of the voters counted entry by entry
-- of the table of powers.
use blitz.Base.{
  ℕ, ◌+◌, ◌≤◌, ◌<◌, ◌^◌, ◌≡◌, refl, String, Bool, false, Option, none, some, List, [], ◌∷◌, arith,
  ◌||◌, ◌==◌, string_eq, u64, if◌then◌else◌,
}
use blitz.Base.GoMap.{GoMap, lookup}
use blitz.Quorum.{total_power_from, total_power, add_voted, voted_power_from, voted_power}
use text.Mathlib.TextEquality.{eq_iff}

abbrev pub sum_powers : GoMap String ℕ → ℕ
sum_powers [] = 0
sum_powers ((_, power) ∷ rest) = power + sum_powers rest

abbrev pub contains : String → List String → Bool
contains x [] = false
contains x (y ∷ ys) = y == x || contains x ys

-- The entries whose key is among the voters, each once.
abbrev pub voters_weight : GoMap String ℕ → List String → ℕ
voters_weight [] voters = 0
voters_weight ((key, power) ∷ rest) voters =
    (if contains key voters then power else 0) + voters_weight rest voters

abbrev pub Distinct : List String → Type 0
Distinct [] = Unit
Distinct (x ∷ xs) = (contains x xs ≡ false) × Distinct xs

abbrev pub DistinctKeys : GoMap String ℕ → Type 0
DistinctKeys [] = Unit
DistinctKeys ((key, _) ∷ rest) = (lookup key rest ≡ none) × DistinctKeys rest

abbrev power_or_zero : Option ℕ → ℕ
power_or_zero none = 0
power_or_zero (some power) = power

abbrev sum_voted : GoMap String ℕ → List String → ℕ
sum_voted m [] = 0
sum_voted m (key ∷ keys) = power_or_zero (lookup key m) + sum_voted m keys

total_power_from-eq :
    (total : ℕ) (m : GoMap String ℕ)
    → total < 2 ^ 64
    → total_power_from total m ≡ u64 (total + sum_powers m)
unfolding total_power_from
total_power_from-eq total [] h = omega arith
total_power_from-eq total ((_, power) ∷ rest) h =
    omega (arith, total_power_from-eq (u64 (total + power)) rest (omega arith))

pub total_power-eq : (m : GoMap String ℕ) → total_power m ≡ u64 (sum_powers m)
unfolding total_power
total_power-eq m = omega (arith, total_power_from-eq 0 m (omega arith))

add_voted-eq :
    (voted : ℕ) (found : Option ℕ)
    → voted < 2 ^ 64
    → add_voted voted found ≡ u64 (voted + power_or_zero found)
unfolding add_voted
add_voted-eq voted none h = omega arith
add_voted-eq voted (some power) h = refl

voted_power_from-eq :
    (m : GoMap String ℕ) (voted : ℕ) (keys : List String)
    → voted < 2 ^ 64
    → voted_power_from m voted keys ≡ u64 (voted + sum_voted m keys)
unfolding voted_power_from
voted_power_from-eq m voted [] h = omega arith
voted_power_from-eq m voted (key ∷ keys) h =
    let added = add_voted-eq voted (lookup key m) h in
    omega (
      arith,
      added,
      voted_power_from-eq m (add_voted voted (lookup key m)) keys (omega (arith, added)),
    )

voters_weight-absent :
    (m : GoMap String ℕ) (key : String) (keys : List String)
    → lookup key m ≡ none
    → voters_weight m (key ∷ keys) ≡ voters_weight m keys
unfolding lookup
voters_weight-absent [] key keys h = refl
voters_weight-absent ((j, power) ∷ rest) key keys h =
    ground (arith, voters_weight-absent rest key keys, eq_iff j key, eq_iff key j)

voters_weight-cons :
    (m : GoMap String ℕ) (key : String) (keys : List String)
    → DistinctKeys m
    → contains key keys ≡ false
    → voters_weight m (key ∷ keys) ≡ power_or_zero (lookup key m) + voters_weight m keys
unfolding lookup
voters_weight-cons [] key keys d h = refl
voters_weight-cons ((j, power) ∷ rest) key keys d h = ground (
  arith,
  voters_weight-cons rest key keys d.1 h,
  voters_weight-absent rest key keys,
  eq_iff j key,
  eq_iff key j,
)

voters_weight-nil : (m : GoMap String ℕ) → voters_weight m [] ≡ 0
voters_weight-nil [] = refl
voters_weight-nil (e ∷ rest) = omega (arith, voters_weight-nil rest)

sum_voted-eq :
    (m : GoMap String ℕ) (keys : List String)
    → DistinctKeys m
    → Distinct keys
    → sum_voted m keys ≡ voters_weight m keys
sum_voted-eq m [] dm dk = omega (arith, voters_weight-nil m)
sum_voted-eq m (key ∷ keys) dm dk =
    omega (arith, sum_voted-eq m keys dm dk.1, voters_weight-cons m key keys dm dk.0)

-- The loop over the voters adds up, modulo 2^64, the powers of the table's entries whose key
-- voted, if no voter is listed twice and no key stands twice in the table.
pub voted_power-eq :
    (m : GoMap String ℕ) (keys : List String)
    → DistinctKeys m
    → Distinct keys
    → voted_power m keys ≡ u64 (voters_weight m keys)
unfolding voted_power
voted_power-eq m keys dm dk =
    omega (arith, voted_power_from-eq m 0 keys (omega arith), sum_voted-eq m keys dm dk)

pub voters_weight-le :
    (m : GoMap String ℕ) (keys : List String) → voters_weight m keys ≤ sum_powers m
voters_weight-le [] keys = omega arith
voters_weight-le ((key, power) ∷ rest) keys = ground (arith, voters_weight-le rest keys)
