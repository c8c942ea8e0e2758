-- ===== src/Quorum/Rule.antt =====
-- The rule of two thirds, over exact sums.
use blitz.Base.{ℕ, ◌*◌, ◌≤◌, ◌<◌, ◌^◌, ◌≡◌, ◌↔◌, String, true, some, List, [], ◌∷◌, arith}
use blitz.Base.GoMap.{GoMap}
use blitz.Quorum.{total_power, has_quorum}
use blitz.Quorum.Weight.{
  sum_powers, contains, voters_weight, Distinct, DistinctKeys, total_power-eq, voted_power-eq,
  voters_weight-le,
}

-- With at most 2^64 / 3 of power in all, no key twice in the table and no voter listed twice, the
-- test passes exactly when the voters hold at least two thirds of the power.
pub has_quorum_iff :
    (m : GoMap String ℕ) (keys : List String)
    → 3 * sum_powers m < 2 ^ 64
    → DistinctKeys m
    → Distinct keys
    → (has_quorum m (total_power m) (some keys) ≡ true)
      ↔ (2 * sum_powers m ≤ 3 * voters_weight m keys)
unfolding has_quorum
has_quorum_iff m keys small dm dk =
    ground (arith, total_power-eq m, voted_power-eq m keys dm dk, voters_weight-le m keys)

-- Voters in `more` that hold every voter of `keys`.
abbrev pub Includes : List String → List String → Type 0
Includes more keys = (x : String) → contains x keys ≡ true → contains x more ≡ true

voters_weight_mono :
    (m : GoMap String ℕ) (keys more : List String)
    → Includes more keys
    → voters_weight m keys ≤ voters_weight m more
voters_weight_mono [] keys more inc = omega arith
voters_weight_mono ((key, power) ∷ rest) keys more inc =
    ground (arith, voters_weight_mono rest keys more inc, inc key)

-- With no overflow and no key or voter twice, a list of voters that includes another one which is
-- a quorum is a quorum too.
pub has_quorum_mono :
    (m : GoMap String ℕ) (keys more : List String)
    → 3 * sum_powers m < 2 ^ 64
    → DistinctKeys m
    → Distinct keys
    → Distinct more
    → Includes more keys
    → has_quorum m (total_power m) (some keys) ≡ true
    → has_quorum m (total_power m) (some more) ≡ true
has_quorum_mono m keys more small dm dk dmore inc h =
    let reached = (has_quorum_iff m keys small dm dk).0 h in
    (has_quorum_iff m more small dm dmore).1 (omega (arith, voters_weight_mono m keys more inc))
