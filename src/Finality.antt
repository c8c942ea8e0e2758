-- ===== src/Finality.antt =====
-- Which L2 blocks Babylon has finalized, and the search for the newest of them
-- (finality-gadget/rpc/provider/finality_state_provider.go).
pub mod Invariant
pub mod Growth
pub mod Range
pub mod Newest
pub mod Reference
pub mod Agreement
pub mod Stores
pub mod Soundness
pub mod Interleaving
use blitz.Base.{
  ℕ, zero, suc, ◌+◌, ◌-◌, ◌/◌, ◌^◌, Bool, true, false, ◌&&◌, Option, none, some, new, wrap, wrapf,
  out_of_fuel, ltb, ◌==◌, nat_eq, string_eq, u64, if◌then◌else◌,
}
use blitz.Base.GoMap.{GoMap, lookup}
use blitz.Base.GoText.{trim_prefix}
use blitz.Exec.{Exec, pure, raise, gets, wrapping, recover, ◌>>=◌, ◌>>◌}
use blitz.Clients.{EthBlock, Block, Clients}
use blitz.Quorum.{total_power, has_quorum}
use blitz.Provider.{
  World, get_last_finalized, set_last_finalized, ask, finalized_blocks, remember_in,
  block_by_number, query_list_of_voted_finality_providers, query_all_pk_power,
}
use Prim.Native.String.{String}

abbrev pub fast_check_number_count : ℕ
fast_check_number_count = 256

-- An interval of `uint64` numbers is halved at most 64 times.
abbrev pub search_fuel : ℕ
search_fuel = 65

-- `a - b` in `uint64`
abbrev pub sub64 : ℕ → ℕ → ℕ
sub64 a b = u64 (a + 2 ^ 64 - b)

-- The fields that `queryFinalizedBlockInBabylonByNumber` reads of the block.
abbrev pub query_block : EthBlock → Block
query_block blk = record {
  block_hash = blk.hash;
  block_timestamp = blk.time;
  block_height = blk.number;
}

-- `block.BlockHash = strings.TrimPrefix(block.BlockHash, "0x")`
abbrev pub trimmed : Block → Block
trimmed block = record block { block_hash = trim_prefix block.block_hash "0x" }

-- `err == nil && isFinalized`
abbrev pub is_true : Option Bool → Bool
is_true (some is_finalized) = is_finalized
is_true none = false

module _ (c : Clients) where
  -- What follows on the powers of all finality providers.
  unfoldable pub tally : Block → GoMap String ℕ → Exec World Bool
  tally block all_fp_power = if total_power all_fp_power == 0 then pure true else do
    voted_fp_pks ←
        wrapping (wrap "QueryListOfVotedFinalityProviders")
          (query_list_of_voted_finality_providers c block)
    pure (has_quorum all_fp_power (total_power all_fp_power) voted_fp_pks)

  -- A nil pointer is `none`.
  unfoldable pub query_is_block_babylon_finalized_from_babylon : Option Block → Exec World Bool
  query_is_block_babylon_finalized_from_babylon none = raise (new "block is nil")
  query_is_block_babylon_finalized_from_babylon (some block) = do
    all_fp_power ← wrapping (wrap "QueryMultiFpPower") (query_all_pk_power c (trimmed block))
    tally (trimmed block) all_fp_power

  unfoldable pub store_finalized : ℕ → Bool → Exec World Bool
  store_finalized height true = do remember_in finalized_blocks height true; pure true
  store_finalized height false = pure false

  -- `if useCache { return true, nil }`: an entry of the cache counts, whatever its value.
  unfoldable pub check_finalized : ℕ → Option Bool → Exec World Bool
  check_finalized height (some _) = pure true
  check_finalized height none = do
    blk ← wrapping (wrapf "QueryBlock failed: %v" height) (block_by_number c height)
    is_finalized ←
        wrapping (wrapf "QueryIsBlockBabylonFinalizedFromBabylon failed: %v" height)
          (query_is_block_babylon_finalized_from_babylon (some (query_block blk)))
    store_finalized height is_finalized

  unfoldable pub query_finalized_block_in_babylon_by_number : ℕ → Exec World Bool
  query_finalized_block_in_babylon_by_number height = do
    hit ← gets (λ w. lookup height w.finalized_cache)
    check_finalized height hit

  abbrev pub checked_by_number : ℕ → Exec World Bool
  checked_by_number height =
      wrapping (wrapf "queryFinalizedBlockInBabylonByNumber failed: %v" height)
        (query_finalized_block_in_babylon_by_number height)

  -- The search proper, on `from <= to`; `again` is the recursive call.
  unfoldable pub search_between : (ℕ → ℕ → Exec World ℕ) → ℕ → ℕ → Exec World ℕ
  search_between again from to =
      if from == to
      then pure to
      else if u64 (from + 1) == to
      then pure from
      else let check = u64 (from + to + 1) / 2 in
        do
          is_finalized ← checked_by_number check
          if is_finalized
              then (do set_last_finalized (sub64 check 1); again check to)
              else again from check

  unfoldable pub query_finalized_block_in_babylon_from_to : ℕ → ℕ → ℕ → Exec World ℕ
  query_finalized_block_in_babylon_from_to zero from to = raise out_of_fuel
  query_finalized_block_in_babylon_from_to (suc fuel) from to =
      let again = query_finalized_block_in_babylon_from_to fuel in
      if ltb to from then search_between again to from else search_between again from to

  -- `currentNumber - 1`, if it is known to be finalized; an error of this check is dropped.
  unfoldable pub check_newest : ℕ → Exec World Bool
  check_newest current_number =
      if ltb 1 current_number
      then (do
        res ← recover (query_finalized_block_in_babylon_by_number (current_number - 1))
        pure (is_true res))
      else pure false

  -- A later start of the search, 256 blocks behind the head, if that block is finalized.
  unfoldable pub fast_forward : ℕ → ℕ → Exec World ℕ
  fast_forward current_number from_block_height =
      let check_number = current_number - fast_check_number_count in
      if ltb fast_check_number_count current_number && ltb from_block_height check_number
      then (do
        is_finalized ← checked_by_number check_number
        pure (if is_finalized then check_number else from_block_height))
      else pure from_block_height

  unfoldable pub try_next : ℕ → ℕ → Exec World ℕ
  try_next current_number from_block_height =
      let try_end_block_height = u64 (from_block_height + 1) in
      if ltb try_end_block_height current_number
      then (do
        is_finalized ← checked_by_number try_end_block_height
        pure (if is_finalized then try_end_block_height else from_block_height))
      else pure from_block_height

  unfoldable pub search_from : ℕ → ℕ → Exec World ℕ
  search_from current_number from_block_height =
      if u64 (from_block_height + 1) == current_number
      then (do
        is_finalized ← checked_by_number current_number
        pure (if is_finalized then current_number else from_block_height))
      else (do
        from ← try_next current_number from_block_height
        res ← query_finalized_block_in_babylon_from_to search_fuel from current_number
        set_last_finalized res
        pure res)

  unfoldable pub query_above : ℕ → ℕ → Exec World ℕ
  query_above current_number from_block_height =
      if current_number == from_block_height then pure current_number else (do
        newest ← check_newest current_number
        if newest then pure (current_number - 1) else (do
          from ← fast_forward current_number from_block_height
          search_from current_number from))

  unfoldable pub query_finalized_block_in_babylon : Exec World ℕ
  query_finalized_block_in_babylon = do
    current_number ← ask (wrap "failed to got blockNumber") c.block_number
    last ← get_last_finalized
    query_above current_number (if last == 0 then 1 else last)
