-- ===== src/Finality/Reference.antt =====
-- The decision on a block without caches and without time: what
-- `queryFinalizedBlockInBabylonByNumber` promises on chains whose answers do not change.
use blitz.Base.{
  ℕ, ◌≡◌, String, Bool, true, Option, List, Result, ok, wrap, wrapf, Reply, value, received,
  map_err, and_then, ℤ, int64, ◌==◌, nat_eq, if◌then◌else◌,
}
use blitz.Base.GoMap.{GoMap}
use blitz.Clients.{EthBlock, Block, Clients}
use blitz.Quorum.{total_power, has_quorum}
use blitz.Finality.{query_block, trimmed}

-- One answer to each question.
pub record Snapshot : Type 0 where
  pub block_by_number : ℤ → Reply EthBlock
  pub btc_height : ℕ → Reply ℕ
  pub consumer_id : Reply String
  pub fp_pks : String → Reply (List String)
  pub powers : List String → ℕ → Reply (GoMap String ℕ)
  pub voted : Block → Reply (Option (List String))

-- The clients give these answers at every instant. The head of L2 may move.
pub record IsStable (c : Clients) (s : Snapshot) : Type 0 where
  pub block_by_number : (t : ℕ) (n : ℤ) → c.block_by_number t n ≡ s.block_by_number n
  pub btc_height : (t n : ℕ) → c.get_block_height_by_timestamp t n ≡ s.btc_height n
  pub consumer_id : (t : ℕ) → c.query_consumer_id t ≡ s.consumer_id
  pub fp_pks : (t : ℕ) (id : String) → c.query_all_fp_btc_pub_keys t id ≡ s.fp_pks id
  pub powers : (t : ℕ) (pks : List String) (h : ℕ) → c.query_multi_fp_power t pks h ≡ s.powers pks h
  pub voted : (t : ℕ) (b : Block) → c.query_list_of_voted_finality_providers t b ≡ s.voted b

module _ (s : Snapshot) where
  -- No two blocks of the chain have the same hash.
  abbrev pub DistinctHashes : Type 0
  DistinctHashes =
      (n m : ℕ) (a b : EthBlock)
      → s.block_by_number (int64 n) ≡ value a
      → s.block_by_number (int64 m) ≡ value b
      → (trimmed (query_block a)).block_hash ≡ (trimmed (query_block b)).block_hash
      → a ≡ b

  abbrev pub reference_fps : Result (List String)
  reference_fps = and_then (received s.consumer_id) (λ id. received (s.fp_pks id))

  abbrev pub reference_powers : Block → Result (GoMap String ℕ)
  reference_powers b = and_then (map_err (wrap "queryAllFpBtcPubKeys") reference_fps) λ pks.
      and_then
        (map_err (wrap "GetBlockHeightByTimestamp")
          (map_err (wrap "GetBlockHeightByTimestamp") (received (s.btc_height b.block_timestamp))))
        λ h.
          map_err (wrap "QueryMultiFpPower")
            (map_err (wrap "QueryMultiFpPower") (received (s.powers pks h)))

  abbrev pub reference_tally : Block → GoMap String ℕ → Result Bool
  reference_tally b m =
      if total_power m == 0
      then ok true
      else and_then
          (map_err (wrap "QueryListOfVotedFinalityProviders")
            (map_err (λ e. e) (received (s.voted b))))
          λ v. ok (has_quorum m (total_power m) v)

  abbrev pub reference_block : Block → Result Bool
  reference_block b =
      and_then (map_err (wrap "QueryMultiFpPower") (reference_powers (trimmed b)))
        (reference_tally (trimmed b))

  unfoldable pub reference : ℕ → Result Bool
  reference height =
      and_then
        (map_err (wrapf "QueryBlock failed: %v" height) (
          map_err (wrapf "QueryBlock failed: %v" height)
            (received (s.block_by_number (int64 height)))))
        λ blk.
          map_err (wrapf "QueryIsBlockBabylonFinalizedFromBabylon failed: %v" height)
            (reference_block (query_block blk))
