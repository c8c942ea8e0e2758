-- ===== src/Provider.antt =====
-- The state of `FinalizedStateProvider` and its cached reads
-- (finality-gadget/rpc/provider/finality_state_provider.go).
pub mod Invariant
pub mod Bounds
pub mod Steps
pub mod Repeats
use blitz.Base.{
  ℕ, ◌-◌, ◌+◌, ◌*◌, String, Bool, false, Option, none, some, List, [], ◌∷◌, Error, Result, wrap,
  wrapf, Reply, received, map_err, length, ltb, leb, Comparable, nat_eq, string_eq, int64,
  if◌then◌else◌,
}
use blitz.Base.GoMap.{GoMap, lookup, insert}
use blitz.Base.GoText.{join}
use blitz.Exec.{Exec, pure, gets, modify, wrapping, ◌>>=◌, ◌>>◌}
use blitz.Clients.{EthBlock, Block, Clients}

abbrev pub cache_map_count : ℕ
cache_map_count = 4096

-- The mutable fields; `none` is the zero `time.Time`.
pub record FinalizedStateProvider : Type 0 where
  pub last_finalized_height : ℕ
  pub all_fps_cache : List String
  pub all_fps_cache_last_time : Option ℕ
  pub voted_fp_pks_cache : GoMap String (Option (List String))
  pub finalized_cache : GoMap ℕ Bool
  pub btcblock_height_cache : GoMap String ℕ
  pub earliest_active_del_btc_height_cache : GoMap String ℕ
  pub multi_fp_power_cache : GoMap ℕ (GoMap String ℕ)
  pub l2_block_cache : GoMap ℕ EthBlock

-- The provider, and the instant of the next external call.
pub record World : Type 0 where
  pub provider : FinalizedStateProvider
  pub open provider use *
  pub instant : ℕ

abbrev pub new_finalized_state_provider : FinalizedStateProvider
new_finalized_state_provider = record {
  last_finalized_height = 0;
  all_fps_cache = [];
  all_fps_cache_last_time = none;
  voted_fp_pks_cache = [];
  finalized_cache = [];
  btcblock_height_cache = [];
  earliest_active_del_btc_height_cache = [];
  multi_fp_power_cache = [];
  l2_block_cache = [];
}

unfoldable pub get_last_finalized : Exec World ℕ
unfolding gets
get_last_finalized = gets (λ w. w.last_finalized_height)

abbrev pub raise_last_finalized : ℕ → FinalizedStateProvider → FinalizedStateProvider
raise_last_finalized height p =
    if ltb p.last_finalized_height height then record p { last_finalized_height = height } else p

unfoldable pub set_last_finalized : ℕ → Exec World (Unit {0})
unfolding modify
set_last_finalized height =
    modify (λ w. record w { provider = raise_last_finalized height w.provider })

-- An external call: the error is wrapped, and the next call is made at a later instant.
unfoldable pub ask : {A : Type 0} → (Error → Error) → (ℕ → Reply A) → Exec World A
ask wrapper call w =
    (map_err wrapper (received (call w.instant)), record w { instant = w.instant + 1 })

-- One of the maps of the provider.
pub record CacheField (K V : Type 0) : Type 0 where
  pub read : FinalizedStateProvider → GoMap K V
  pub write : FinalizedStateProvider → GoMap K V → FinalizedStateProvider

-- `if len(m) > CacheMapCount { m = make(…) }; m[k] = v`
unfoldable pub remember : {K V : Type 0} ⦃e : Comparable K⦄ → K → V → GoMap K V → GoMap K V
remember k v m = insert k v (if ltb cache_map_count (length m) then [] else m)

module _ {K V : Type 0} ⦃e : Comparable K⦄ (field : CacheField K V) where
  unfoldable pub remember_in : K → V → Exec World (Unit {0})
  unfolding modify
  remember_in k v =
      modify
        (λ w. record w { provider = field.write w.provider (remember k v (field.read w.provider)) })

  unfoldable pub read_through : K → (Error → Error) → (ℕ → Reply V) → Option V → Exec World V
  read_through k wrapper call (some c) = pure c
  read_through k wrapper call none = do v ← ask wrapper call; remember_in k v; pure v

  -- The cached value if there is one; otherwise the external call, and a success is stored.
  unfoldable pub cached : K → (Error → Error) → (ℕ → Reply V) → Exec World V
  cached k wrapper call = do
    hit ← gets (λ w. lookup k (field.read w.provider))
    read_through k wrapper call hit

abbrev pub l2_blocks : CacheField ℕ EthBlock
l2_blocks = record { read = λ p. p.l2_block_cache; write = λ p m. record p { l2_block_cache = m } }

abbrev pub finalized_blocks : CacheField ℕ Bool
finalized_blocks = record {
  read = λ p. p.finalized_cache;
  write = λ p m. record p { finalized_cache = m };
}

abbrev pub voters : CacheField String (Option (List String))
voters = record {
  read = λ p. p.voted_fp_pks_cache;
  write = λ p m. record p { voted_fp_pks_cache = m };
}

abbrev pub btc_heights : CacheField String ℕ
btc_heights = record {
  read = λ p. p.btcblock_height_cache;
  write = λ p m. record p { btcblock_height_cache = m };
}

abbrev pub earliest_heights : CacheField String ℕ
earliest_heights = record {
  read = λ p. p.earliest_active_del_btc_height_cache;
  write = λ p m. record p { earliest_active_del_btc_height_cache = m };
}

abbrev pub powers : CacheField ℕ (GoMap String ℕ)
powers = record {
  read = λ p. p.multi_fp_power_cache;
  write = λ p m. record p { multi_fp_power_cache = m };
}

-- `duration <= 240*time.Second`, in nanoseconds; a time in the future gives a negative duration.
abbrev pub is_time_not_greater_than : ℕ → Option ℕ → Bool
is_time_not_greater_than current none = false
is_time_not_greater_than current (some input_time) =
    leb (current - input_time) (240 * 1_000_000_000)

-- `p.allFpsCache = allFpPks; p.allFpsCacheLastTime = time.Now()`
abbrev pub with_fps : List String → ℕ → World → World
with_fps all_fp_pks current w = record w {
  provider = record w.provider {
    all_fps_cache = all_fp_pks;
    all_fps_cache_last_time = some current;
  };
}

module _ (c : Clients) where
  unfoldable pub block_by_number : ℕ → Exec World EthBlock
  block_by_number number =
      cached l2_blocks number (wrapf "QueryBlock failed: %v" number)
        (λ t. c.block_by_number t (int64 number))

  -- `time.Now()`
  unfoldable pub current_time : Exec World ℕ
  current_time w = (Result.ok (c.now w.instant), record w { instant = w.instant + 1 })

  -- `len(p.allFpsCache) > 0 && isTimeNotGreaterThan(p.allFpsCacheLastTime)`
  unfoldable pub fresh_fps : List String → Exec World (Option (List String))
  fresh_fps [] = pure none
  fresh_fps (pk ∷ pks) = do
    last ← gets (λ w. w.all_fps_cache_last_time)
    current ← current_time
    pure (if is_time_not_greater_than current last then some (pk ∷ pks) else none)

  unfoldable pub fetch_all_fp_btc_pub_keys : Option (List String) → Exec World (List String)
  fetch_all_fp_btc_pub_keys (some pks) = pure pks
  fetch_all_fp_btc_pub_keys none = do
    consumer_id ← ask (λ e. e) c.query_consumer_id
    all_fp_pks ← ask (λ e. e) (λ t. c.query_all_fp_btc_pub_keys t consumer_id)
    current ← current_time
    modify (with_fps all_fp_pks current)
    pure all_fp_pks

  unfoldable pub query_all_fp_btc_pub_keys : Exec World (List String)
  query_all_fp_btc_pub_keys = do
    pks ← gets (λ w. w.all_fps_cache)
    fresh ← fresh_fps pks
    fetch_all_fp_btc_pub_keys fresh

  unfoldable pub query_list_of_voted_finality_providers : Block → Exec World (Option (List String))
  query_list_of_voted_finality_providers query_params =
      cached voters query_params.block_hash (λ e. e)
        (λ t. c.query_list_of_voted_finality_providers t query_params)

  unfoldable pub get_block_height_by_timestamp : Block → Exec World ℕ
  get_block_height_by_timestamp block =
      cached btc_heights block.block_hash (wrap "GetBlockHeightByTimestamp")
        (λ t. c.get_block_height_by_timestamp t block.block_timestamp)

  unfoldable pub query_earliest_active_del_btc_height : List String → Exec World ℕ
  query_earliest_active_del_btc_height fp_pubkey_hex_list =
      cached earliest_heights (join fp_pubkey_hex_list ",") (wrap "QueryEarliestActiveDelBtcHeight")
        (λ t. c.query_earliest_active_del_btc_height t fp_pubkey_hex_list)

  unfoldable pub query_multi_fp_power : List String → ℕ → Exec World (GoMap String ℕ)
  query_multi_fp_power fp_pubkey_hex_list btc_height =
      cached powers btc_height (wrap "QueryMultiFpPower")
        (λ t. c.query_multi_fp_power t fp_pubkey_hex_list btc_height)

  unfoldable pub query_all_pk_power : Block → Exec World (GoMap String ℕ)
  query_all_pk_power block = do
    all_fp_pks ← wrapping (wrap "queryAllFpBtcPubKeys") query_all_fp_btc_pub_keys
    btcblock_height ←
        wrapping (wrap "GetBlockHeightByTimestamp") (get_block_height_by_timestamp block)
    wrapping (wrap "QueryMultiFpPower") (query_multi_fp_power all_fp_pks btcblock_height)
