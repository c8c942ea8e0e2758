-- ===== src/Concurrent.antt =====
-- The queries of finality-gadget/rpc/provider/finality_state_provider.go as several goroutines run
-- them at once: cut at `mu`, at `cacheMu` and at the calls of the clients.
pub mod Alone
pub mod CacheReads
pub mod Transparent
pub mod Search
pub mod SearchAlone
pub mod Turn
pub mod Newest
pub mod Listing
pub mod Quiet
pub mod Right
pub mod Latest
pub mod Requests
pub mod Bounded
pub mod Searching
pub mod Decisions
pub mod Found
pub mod Served
pub mod Growth
use blitz.Base.{
  ℕ, zero, suc, ◌+◌, ◌-◌, ◌/◌, String, Bool, true, false, ◌&&◌, Option, none, some, List, Error,
  Reply, new, wrap, wrapf, out_of_fuel, int64, u64, ltb, ◌==◌, Comparable, nat_eq, string_eq,
  if◌then◌else◌,
}
use blitz.Base.GoMap.{GoMap, lookup}
use blitz.Base.GoText.{join}
use blitz.Exec
use blitz.Exec.{Exec, gets, modify}
use blitz.Clients.{EthBlock, Block, Clients}
use blitz.Quorum.{total_power, has_quorum}
use blitz.Provider.{
  World, CacheField, ask, remember_in, l2_blocks, finalized_blocks, voters, btc_heights, powers,
  current_time, fresh_fps, with_fps, get_last_finalized, set_last_finalized,
}
use blitz.Finality.{query_block, trimmed, fast_check_number_count, search_fuel, sub64}
use blitz.Threads.{Steps, answer, abort, locked, wrapping, ◌>>=◌, ◌>>◌}

module _ {K V : Type 0} ⦃e : Comparable K⦄ (field : CacheField K V) where
  unfoldable pub read_through_steps : K → (Error → Error) → (ℕ → Reply V) → Option V → Steps World V
  read_through_steps k wrapper call (some c) = answer c
  read_through_steps k wrapper call none = do
    v ← locked (ask wrapper call)
    locked (remember_in field k v)
    answer v

  -- A read under `RLock`, the call of the client under no lock, and a write under `Lock`.
  unfoldable pub cached_steps : K → (Error → Error) → (ℕ → Reply V) → Steps World V
  cached_steps k wrapper call = do
    hit ← locked (gets (λ w. lookup k (field.read w.provider)))
    read_through_steps k wrapper call hit

module _ (c : Clients) where
  -- `len(p.allFpsCache) > 0 && isTimeNotGreaterThan(p.allFpsCacheLastTime)`, under one `RLock`
  unfoldable pub read_fps : Exec World (Option (List String))
  read_fps w = fresh_fps c w.all_fps_cache w

  -- `p.allFpsCache = allFpPks; p.allFpsCacheLastTime = time.Now()`, under one `Lock`
  unfoldable pub write_fps : List String → Exec World (Unit {0})
  write_fps all_fp_pks =
      Exec.◌>>=◌ (current_time c) (λ current. modify (with_fps all_fp_pks current))

  unfoldable pub fetch_all_fp_btc_pub_keys_steps : Option (List String) → Steps World (List String)
  fetch_all_fp_btc_pub_keys_steps (some pks) = answer pks
  fetch_all_fp_btc_pub_keys_steps none = do
    consumer_id ← locked (ask (λ e. e) c.query_consumer_id)
    all_fp_pks ← locked (ask (λ e. e) (λ t. c.query_all_fp_btc_pub_keys t consumer_id))
    locked (write_fps all_fp_pks)
    answer all_fp_pks

  unfoldable pub query_all_fp_btc_pub_keys_steps : Steps World (List String)
  query_all_fp_btc_pub_keys_steps = do
    fresh ← locked read_fps
    fetch_all_fp_btc_pub_keys_steps fresh

  unfoldable pub block_by_number_steps : ℕ → Steps World EthBlock
  block_by_number_steps number =
      cached_steps l2_blocks number (wrapf "QueryBlock failed: %v" number)
        (λ t. c.block_by_number t (int64 number))

  unfoldable pub voted_steps : Block → Steps World (Option (List String))
  voted_steps query_params =
      cached_steps voters query_params.block_hash (λ e. e)
        (λ t. c.query_list_of_voted_finality_providers t query_params)

  unfoldable pub btc_height_steps : Block → Steps World ℕ
  btc_height_steps block =
      cached_steps btc_heights block.block_hash (wrap "GetBlockHeightByTimestamp")
        (λ t. c.get_block_height_by_timestamp t block.block_timestamp)

  unfoldable pub multi_fp_power_steps : List String → ℕ → Steps World (GoMap String ℕ)
  multi_fp_power_steps fp_pubkey_hex_list btc_height =
      cached_steps powers btc_height (wrap "QueryMultiFpPower")
        (λ t. c.query_multi_fp_power t fp_pubkey_hex_list btc_height)

  unfoldable pub query_all_pk_power_steps : Block → Steps World (GoMap String ℕ)
  query_all_pk_power_steps block = do
    all_fp_pks ← wrapping (wrap "queryAllFpBtcPubKeys") query_all_fp_btc_pub_keys_steps
    btcblock_height ← wrapping (wrap "GetBlockHeightByTimestamp") (btc_height_steps block)
    wrapping (wrap "QueryMultiFpPower") (multi_fp_power_steps all_fp_pks btcblock_height)

  unfoldable pub tally_steps : Block → GoMap String ℕ → Steps World Bool
  tally_steps block all_fp_power = if total_power all_fp_power == 0 then answer true else do
    voted_fp_pks ← wrapping (wrap "QueryListOfVotedFinalityProviders") (voted_steps block)
    answer (has_quorum all_fp_power (total_power all_fp_power) voted_fp_pks)

  unfoldable pub is_block_finalized_steps : Block → Steps World Bool
  is_block_finalized_steps block = do
    all_fp_power ← wrapping (wrap "QueryMultiFpPower") (query_all_pk_power_steps (trimmed block))
    tally_steps (trimmed block) all_fp_power

  unfoldable pub store_finalized_steps : ℕ → Bool → Steps World Bool
  store_finalized_steps height true = do
    locked (remember_in finalized_blocks height true)
    answer true
  store_finalized_steps height false = answer false

  unfoldable pub check_finalized_steps : ℕ → Option Bool → Steps World Bool
  check_finalized_steps height (some _) = answer true
  check_finalized_steps height none = do
    blk ← wrapping (wrapf "QueryBlock failed: %v" height) (block_by_number_steps height)
    is_finalized ←
        wrapping (wrapf "QueryIsBlockBabylonFinalizedFromBabylon failed: %v" height)
          (is_block_finalized_steps (query_block blk))
    store_finalized_steps height is_finalized

  unfoldable pub by_number_steps : ℕ → Steps World Bool
  by_number_steps height = do
    hit ← locked (gets (λ w. lookup height w.finalized_cache))
    check_finalized_steps height hit
