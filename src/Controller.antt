-- ===== src/Controller.antt =====
-- `OrbitConsumerController` (finality-gadget/operator/fp/controllers/controller.go): submissions to
-- Babylon, each of which starts a goroutine that measures the balance of the provider.
pub mod Balances
use blitz.Base.{
  ℕ, ◌+◌, ◌-◌, String, Bool, true, false, Option, none, some, List, [], ◌∷◌, ◌++◌, Error, new, wrap,
  Result, ok, err, Reply, value, received, map_err, u64, string_eq, if◌then◌else◌,
}
use blitz.Base.GoMap.{GoMap, insert}
use blitz.Process.{
  Process, Outcome, returned, panicked, of_result, outcome, pure, panic, modify, discarding, ◌>>=◌,
  ◌>>◌,
}

-- What is external, each asked at an instant: the Babylon client, the codec of its requests, the
-- embedded `RollupBSNController`, and the division by 10^6 in floating point.
pub record ControllerEnv : Type 1 where
  pub Request : Type 0
  pub TxResponse : Type 0
  pub Bytes : Type 0
  pub Float : Type 0
  pub no_balance : Float
  pub in_millions : ℕ → Float
  pub get_addr : ℕ → Reply String
  pub marshal : String → String → Reply Bytes
  pub abci_query : ℕ → String → Bytes → Reply Bytes
  pub unmarshal : Bytes → Reply (Option ℕ)
  pub commit_pub_rand_list : ℕ → Request → Reply TxResponse
  pub submit_batch_finality_sigs : ℕ → Request → Reply TxResponse
  pub is_running : ℕ → Bool
  pub stop : ℕ → Reply (Unit {0})
  pub close : ℕ → Reply (Unit {0})

-- The instant of the next external call, the gauges of `blitzMetrics` by address, and how many
-- goroutines of `recordFpBalance` have not begun.
pub record ControllerWorld (Float : Type 0) : Type 0 where
  pub instant : ℕ
  pub balances : GoMap String Float
  pub waiting : ℕ

module _ (e : ControllerEnv) where
  unfoldable pub ask :
      {A : Type 0} → (Error → Error) → (ℕ → Reply A) → Process (ControllerWorld e.Float) A
  ask wrapper call w = (
    of_result (map_err wrapper (received (call w.instant))),
    record w { instant = w.instant + 1 },
  )

  -- `GetBalance().Amount.BigInt()`, which panics on an answer without a balance.
  abbrev pub amount : Option ℕ → Outcome ℕ
  amount none = panicked (new "invalid memory address or nil pointer dereference")
  amount (some balance_ubbn) = returned balance_ubbn

  unfoldable pub query_balance : String → String → Process (ControllerWorld e.Float) e.Float
  query_balance address denom = do
    data_sent ← ask (wrap "failed to marshal request") (λ t. e.marshal address denom)
    result ←
        ask (wrap "failed to query balance")
          (λ t. e.abci_query t "/cosmos.bank.v1beta1.Query/Balance" data_sent)
    balance ← ask (wrap "failed to unmarshal balance response") (λ t. e.unmarshal result)
    balance_ubbn ← outcome (amount balance)
    pure (e.in_millions (u64 balance_ubbn))

  -- The balance, and 0 beside an error: the caller logs the error and goes on.
  abbrev pub balance_or_zero : Option e.Float → e.Float
  balance_or_zero none = e.no_balance
  balance_or_zero (some balance) = balance

  -- `RecordFpBalance`
  unfoldable pub record_balance : String → e.Float → Process (ControllerWorld e.Float) (Unit {0})
  record_balance address balance =
      modify (λ w. record w { balances = insert address balance w.balances })

  unfoldable pub measure : Option String → Process (ControllerWorld e.Float) (Unit {0})
  measure none = pure tt
  measure (some address) = do
    balance ← discarding (query_balance address "ubbn")
    record_balance address (balance_or_zero balance)

  -- The goroutine of `recordFpBalance`; the mutex lets one run after the other.
  unfoldable pub measurement : Process (ControllerWorld e.Float) (Unit {0})
  measurement = do
    modify (λ w. record w { waiting = w.waiting - 1 })
    address ← discarding (ask (λ x. x) e.get_addr)
    measure address

  -- `go func() { … }()`: the caller goes on.
  unfoldable pub record_fp_balance : Process (ControllerWorld e.Float) (Unit {0})
  record_fp_balance = modify (λ w. record w { waiting = w.waiting + 1 })

  unfoldable pub commit_pub_rand_list : e.Request → Process (ControllerWorld e.Float) e.TxResponse
  commit_pub_rand_list req = do
    resp ← ask (λ x. x) (λ t. e.commit_pub_rand_list t req)
    record_fp_balance
    pure resp

  unfoldable pub submit_batch_finality_sigs :
      e.Request → Process (ControllerWorld e.Float) e.TxResponse
  submit_batch_finality_sigs req = do
    resp ← ask (λ x. x) (λ t. e.submit_batch_finality_sigs t req)
    record_fp_balance
    pure resp

-- What the constructor sets of its own: `l2Client` is not among it, and stays nil.
pub record OrbitConsumerController : Type 0 where
  pub has_l2_client : Bool
  pub back_height_count : ℕ

abbrev pub new_orbit_consumer_controller : ℕ → OrbitConsumerController
new_orbit_consumer_controller back_height_count = record {
  has_l2_client = false;
  back_height_count = back_height_count;
}

module _ (e : ControllerEnv) where
  -- `wc.l2Client.Close()`, which panics on a nil pointer
  unfoldable pub close_l2_client :
      OrbitConsumerController → Process (ControllerWorld e.Float) (Unit {0})
  close_l2_client wc =
      if wc.has_l2_client
      then modify (λ w. record w { instant = w.instant + 1 })
      else panic (new "invalid memory address or nil pointer dereference")

  unfoldable pub stop_if_running : Bool → Process (ControllerWorld e.Float) (Unit {0})
  stop_if_running running =
      if running then ask e (wrap "failed to stop Babylon client") e.stop else pure tt

  unfoldable pub close : OrbitConsumerController → Process (ControllerWorld e.Float) (Unit {0})
  close wc = do
    close_l2_client wc
    running ← ask e (λ x. x) (λ t. value (e.is_running t))
    stop_if_running running
    ask e (λ x. x) e.close
