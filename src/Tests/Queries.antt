-- ===== src/Tests/Queries.antt =====
-- The queries of finality-gadget/rpc/provider on the small world.
use blitz.Base.{ℕ, ◌≡◌, refl, false, ok, leb, nat_eq, string_eq, arith}
use blitz.Base.GoMap.{lookup, insert}
use blitz.Base.GoText.{trim_prefix}
use blitz.Exec.{runs}
use blitz.Exec.Yields.{Good}
use blitz.Quorum.{total_power, voted_power, has_quorum}
use blitz.Provider.{
  get_last_finalized, set_last_finalized, ask, remember, remember_in, read_through, cached,
  block_by_number, current_time, fresh_fps, fetch_all_fp_btc_pub_keys, query_all_fp_btc_pub_keys,
  query_list_of_voted_finality_providers, get_block_height_by_timestamp, query_multi_fp_power,
  query_all_pk_power,
}
use blitz.Finality.{
  tally, query_is_block_babylon_finalized_from_babylon, store_finalized, check_finalized,
  query_finalized_block_in_babylon_by_number, search_between,
  query_finalized_block_in_babylon_from_to, check_newest, fast_forward, try_next, search_from,
  query_above, query_finalized_block_in_babylon,
}
use blitz.Finality.Range.{Between, from_to-ends, query_finalized_block-in_range}
use blitz.Finality.Newest.{IsNewest, NoGaps}
use blitz.Finality.Reference.{reference}
use blitz.Finality.Agreement.{Agrees}
use blitz.Finality.Soundness.{
  by_number-reference, new_finalized_state_provider-Agrees, query_finalized_block-IsNewest,
}
use blitz.Tests.Chain.{
  name, chain, clients, world, clients-IsStable, chain-DistinctHashes, reference-chain,
}

unfoldable pub program : Unit {0}
unfolding runs lookup insert trim_prefix total_power voted_power has_quorum get_last_finalized
    set_last_finalized ask remember remember_in read_through cached block_by_number current_time
    fresh_fps fetch_all_fp_btc_pub_keys query_all_fp_btc_pub_keys
    query_list_of_voted_finality_providers get_block_height_by_timestamp query_multi_fp_power
    query_all_pk_power tally query_is_block_babylon_finalized_from_babylon store_finalized
    check_finalized query_finalized_block_in_babylon_by_number search_between
    query_finalized_block_in_babylon_from_to check_newest fast_forward try_next search_from
    query_above query_finalized_block_in_babylon name
program = tt

newest_is_3 : (query_finalized_block_in_babylon clients world).0 ≡ ok 3
unfolding program
newest_is_3 = refl

last_finalized_after : (query_finalized_block_in_babylon clients world).1.last_finalized_height ≡ 3
unfolding program
last_finalized_after = refl

block_4_is_not : (query_finalized_block_in_babylon_by_number clients 4 world).0 ≡ ok false
unfolding program
block_4_is_not = refl

pub world-Agrees : Agrees chain world.provider
world-Agrees = new_finalized_state_provider-Agrees chain

from_to-ends_example :
    Good (Between 1 5) (query_finalized_block_in_babylon_from_to clients 3 1 5 world).0
from_to-ends_example =
    from_to-ends clients world 2 3 1 5 (omega arith) (omega arith) (omega arith) (omega arith)

query_finalized_block-in_range_example :
    Good (Between 0 5) (query_finalized_block_in_babylon clients world).0
query_finalized_block-in_range_example =
    query_finalized_block-in_range clients world 5 refl (omega arith) (omega arith) (omega arith)

by_number-reference_example :
    ((query_finalized_block_in_babylon_by_number clients 4 world).0 ≡ reference chain 4)
    × Agrees chain (query_finalized_block_in_babylon_by_number clients 4 world).1.provider
by_number-reference_example =
    by_number-reference clients chain world 4 clients-IsStable chain-DistinctHashes world-Agrees

pub no_gaps : NoGaps (λ h. leb h 3) 1 5
no_gaps h above below later = ground arith

query_finalized_block-IsNewest_example :
    (r : ℕ) × ((query_finalized_block_in_babylon clients world).0 ≡ ok r)
    × IsNewest (λ h. leb h 3) 1 5 r
    × Agrees chain (query_finalized_block_in_babylon clients world).1.provider
query_finalized_block-IsNewest_example =
    query_finalized_block-IsNewest clients chain world 5 (λ h. leb h 3) clients-IsStable
      chain-DistinctHashes world-Agrees refl (omega arith) (omega arith) reference-chain refl
      no_gaps
