-- ===== src/Tests/Quorums.antt =====
-- The tally of finality-gadget/rpc/provider at a table of three powers.
use blitz.Base.{
  ℕ, ◌*◌, ◌≤◌, ◌≡◌, refl, ◌↔◌, String, true, some, List, [], ◌∷◌, u64, string_eq, arith,
}
use blitz.Base.GoMap.{GoMap, lookup}
use blitz.Quorum.{total_power, voted_power, has_quorum}
use blitz.Quorum.Weight.{sum_powers, voters_weight, DistinctKeys, voted_power-eq}
use blitz.Quorum.Order.{Reordered, swapped, has_quorum-Reordered}
use blitz.Quorum.Rule.{Includes, has_quorum_iff, has_quorum_mono}
use text.Mathlib.TextEquality.{eq_iff}

abbrev table : GoMap String ℕ
table = ("a", 3) ∷ ("b", 2) ∷ ("c", 1) ∷ []

abbrev two : List String
two = "a" ∷ "c" ∷ []

abbrev three : List String
three = "c" ∷ "b" ∷ "a" ∷ []

table-DistinctKeys : DistinctKeys table
unfolding lookup
table-DistinctKeys = (refl, (refl, (refl, tt)))

exactly_two_thirds : has_quorum table (total_power table) (some two) ≡ true
unfolding total_power voted_power has_quorum lookup
exactly_two_thirds = refl

three-Includes : Includes three two
three-Includes x h = ground (arith, eq_iff "a" x, eq_iff "c" x, eq_iff "b" x)

voted_power-eq_example : voted_power table two ≡ u64 (voters_weight table two)
voted_power-eq_example = voted_power-eq table two table-DistinctKeys (refl, (refl, tt))

has_quorum_iff_example :
    (has_quorum table (total_power table) (some two) ≡ true)
    ↔ (2 * sum_powers table ≤ 3 * voters_weight table two)
has_quorum_iff_example =
    has_quorum_iff table two (omega arith) table-DistinctKeys (refl, (refl, tt))

has_quorum_mono_example : has_quorum table (total_power table) (some three) ≡ true
has_quorum_mono_example =
    has_quorum_mono table two three (omega arith) table-DistinctKeys (refl, (refl, tt))
      (refl, (refl, (refl, tt))) three-Includes exactly_two_thirds

-- `table` in another order.
abbrev turned : GoMap String ℕ
turned = ("b", 2) ∷ ("a", 3) ∷ ("c", 1) ∷ []

table-turned : Reordered table turned
table-turned = swapped ("a", 3) ("b", 2) (("c", 1) ∷ [])

has_quorum-Reordered_example :
    (total_power table ≡ total_power turned)
    × (has_quorum table (total_power table) (some two)
        ≡ has_quorum turned (total_power turned) (some two))
has_quorum-Reordered_example =
    has_quorum-Reordered table turned (some two) table-DistinctKeys table-turned
