-- ===== src/Clients.antt =====
-- What finality-gadget/rpc/provider calls and does not implement: the L2 node, the Bitcoin and
-- Babylon clients, the CosmWasm contract, and the clock of the machine.
use blitz.Base.{ℕ, String, Option, List, Reply, ℤ}
use blitz.Base.GoMap.{GoMap}

-- What the program reads of an `ethTypes.Block`: `Hash().Hex()`, `Time()` and `NumberU64()`.
pub record EthBlock : Type 0 where
  pub hash : String
  pub time : ℕ
  pub number : ℕ

-- `types.Block` of github.com/babylonlabs-io/finality-gadget
pub record Block : Type 0 where
  pub block_hash : String
  pub block_height : ℕ
  pub block_timestamp : ℕ

-- The first argument is the instant of a call: two calls at two instants may be answered
-- differently. A slice that may be nil is an `Option`, and `now` counts nanoseconds.
pub record Clients : Type 0 where
  pub block_number : ℕ → Reply ℕ
  pub block_by_number : ℕ → ℤ → Reply EthBlock
  pub get_block_height_by_timestamp : ℕ → ℕ → Reply ℕ
  pub query_consumer_id : ℕ → Reply String
  pub query_all_fp_btc_pub_keys : ℕ → String → Reply (List String)
  pub query_multi_fp_power : ℕ → List String → ℕ → Reply (GoMap String ℕ)
  pub query_earliest_active_del_btc_height : ℕ → List String → Reply ℕ
  pub query_list_of_voted_finality_providers : ℕ → Block → Reply (Option (List String))
  pub now : ℕ → ℕ
