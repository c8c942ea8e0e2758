-- ===== src/Quorum.antt =====
-- The tally of `QueryIsBlockBabylonFinalizedFromBabylon`
-- (finality-gadget/rpc/provider/finality_state_provider.go): powers are added in `uint64`.
pub mod Weight
pub mod Rule
pub mod Order
use blitz.Base.{ℕ, ◌+◌, ◌*◌, String, Bool, true, false, Option, none, some, List, [], ◌∷◌}
use blitz.Base.{ltb, u64, string_eq, if◌then◌else◌}
use blitz.Base.GoMap.{GoMap, lookup}

-- `for _, power := range allFpPower { totalPower += power }`
total_power_from : ℕ → GoMap String ℕ → ℕ
total_power_from total [] = total
total_power_from total ((_, power) ∷ rest) = total_power_from (u64 (total + power)) rest

unfoldable pub total_power : GoMap String ℕ → ℕ
unfolding total_power_from
total_power all_fp_power = total_power_from 0 all_fp_power

-- `if power, exists := allFpPower[key]; exists { votedPower += power }`
add_voted : ℕ → Option ℕ → ℕ
add_voted voted none = voted
add_voted voted (some power) = u64 (voted + power)

-- `for _, key := range votedFpPks { … }`
voted_power_from : GoMap String ℕ → ℕ → List String → ℕ
voted_power_from all_fp_power voted [] = voted
voted_power_from all_fp_power voted (key ∷ keys) =
    voted_power_from all_fp_power (add_voted voted (lookup key all_fp_power)) keys

unfoldable pub voted_power : GoMap String ℕ → List String → ℕ
unfolding voted_power_from add_voted
voted_power all_fp_power voted_fp_pks = voted_power_from all_fp_power 0 voted_fp_pks

-- The test on the voters, after that on `totalPower == 0`; a nil list of voters is no quorum.
unfoldable pub has_quorum : GoMap String ℕ → ℕ → Option (List String) → Bool
has_quorum all_fp_power total none = false
has_quorum all_fp_power total (some voted_fp_pks) =
    if ltb (u64 (voted_power all_fp_power voted_fp_pks * 3)) (u64 (total * 2)) then false else true
