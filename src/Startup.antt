-- ===== src/Startup.antt =====
-- What the processes of the finality gadget build before they serve: the constructors of
-- finality-gadget/rpc and finality-gadget/operator/fp, and the commands that call them.
pub mod Servers
pub mod Apps
pub mod Commands
pub mod OperatorCommands
pub mod RpcCommand
pub mod Mains
pub mod Programs
pub mod Cleanup
pub mod NamedChain
pub mod Gadget
pub mod Pieces
pub mod Closes
pub mod Closing
pub mod Panics
pub mod SameChain
pub mod Restored
pub mod Provided
use blitz.Base.{
  ℕ, ◌+◌, ◌-◌, String, Bool, true, false, Error, new, wrap, Result, ok, err, Reply, received,
  map_err, List, if◌then◌else◌,
}
use blitz.Exec.{Exec}
use blitz.Process.{
  Process, pure, panic, gets, outcome, of_result, map_failed, modify, within, ◌>>=◌, ◌>>◌,
}
use blitz.Config.{L2Config, Dialer, new_l2_eth_client}
use blitz.Config.Operator.{OperatorConfig}

-- `btcclient.BTCConfig`, with the fields that the program sets
pub record BtcConfig : Type 0 where
  pub rpc_host : String
  pub rpc_user : String
  pub rpc_pass : String
  pub disable_tls : Bool

-- What is external: the constructors of the other libraries, each asked at an instant.
pub record Libraries : Type 1 where
  pub BbnClient : Type 0
  pub BtcClient : Type 0
  pub CwClient : Type 0
  pub L2Client : Type 0
  pub EotsClient : Type 0
  pub BabylonController : Type 0
  pub RollupController : Type 0
  pub FpConfig : Type 0
  pub Backend : Type 0
  pub PubRandStore : Type 0
  pub FpStore : Type 0
  pub new_bbn_client : ℕ → String → String → Reply BbnClient
  pub default_btc_config : BtcConfig
  pub new_bitcoin_client : ℕ → BtcConfig → Reply BtcClient
  pub new_mock_bitcoin_client : ℕ → BtcConfig → Reply BtcClient
  pub new_cosm_wasm_client : BbnClient → String → CwClient
  pub dial : ℕ → String → Reply L2Client
  pub chain_id : ℕ → L2Client → Reply ℕ
  pub new_eots_manager_client : ℕ → String → Reply EotsClient
  pub new_babylon_controller : ℕ → FpConfig → Reply BabylonController
  pub start_babylon_controller : ℕ → BabylonController → Reply (Unit {0})
  pub new_consumer_controller : ℕ → FpConfig → Reply (Unit {0})
  pub new_rollup_controller : ℕ → FpConfig → Reply RollupController
  pub validate_babylon_config : FpConfig → Reply (Unit {0})
  pub new_controller_bbn_client : ℕ → FpConfig → Reply BbnClient
  pub open_db : ℕ → String → Reply (Unit {0})
  pub create_initial_schema : ℕ → Reply (Unit {0})
  pub load_config : ℕ → String → Reply FpConfig
  pub get_db_backend : ℕ → FpConfig → Reply Backend
  pub new_pub_rand_proof_store : ℕ → Backend → Reply PubRandStore
  pub new_fp_app : ℕ → FpConfig → Backend → Reply (Unit {0})
  pub new_finality_provider_store : ℕ → Backend → Reply FpStore

-- The process: its configuration, the instant of the next external call, the handlers of the local
-- database that are not closed, the metrics servers that are not stopped, the goroutines of the
-- controller, and whether the collectors were made and registered.
pub record World : Type 0 where
  pub config : OperatorConfig
  pub instant : ℕ
  pub open_dbs : ℕ
  pub metrics_servers : ℕ
  pub balance_loops : ℕ
  pub fp_metrics_once : Bool
  pub registered : Bool

-- The L2 client is built from `&cfg.Layer2`, which it may change.
abbrev pub put_layer2 : World → L2Config → World
put_layer2 w l = record w { config = record w.config { layer2 = l }; instant = w.instant + 1 }

module _ (e : Libraries) where
  -- The L2 node at an instant.
  abbrev pub node : ℕ → Dialer
  node t = record { Client = e.L2Client; dial = e.dial t; chain_id = e.chain_id t }

  -- An external call, the error of which is wrapped.
  unfoldable pub ask : {A : Type 0} → (Error → Error) → (ℕ → Reply A) → Process World A
  ask wrapper call w = (
    of_result (map_err wrapper (received (call w.instant))),
    record w { instant = w.instant + 1 },
  )

  unfoldable pub l2_client : Process World e.L2Client
  l2_client w = within (λ u. u.config.layer2) put_layer2 (new_l2_eth_client (node w.instant)) w
