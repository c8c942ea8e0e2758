-- ===== src/Startup/Apps.antt =====
-- The constructors of finality-gadget/operator/fp: the consumer controller, the app of the finality
-- provider, and the provider of the `fps` commands; and the collectors of finality-gadget/metrics.
use blitz.Base.{
  ◌+◌, ◌-◌, String, true, new, wrap, Option, none, some, ◌==◌, string_eq, if◌then◌else◌,
}
use mathlib.Core.Bool.{not}
use blitz.Process.{Process, pure, panic, gets, modify, wrapping, deferring, ◌>>=◌, ◌>>◌}
use blitz.Config.Operator.{EotsConfig}
use blitz.Controller.{OrbitConsumerController, new_orbit_consumer_controller}
use blitz.Startup.{Libraries, World, ask}
use blitz.Startup.Servers.{JsonRpcServer, new_json_rpc_server}

-- `prometheus.MustRegister`, which panics on a collector that is registered
unfoldable pub must_register : Process World (Unit {0})
must_register = do
  registered ← gets (λ w. w.registered)
  if registered
      then panic (new "duplicate metrics collector registration attempted")
      else modify (λ w. record w { registered = true })

-- `fpMetricsRegisterOnce.Do(…)`
unfoldable pub new_fp_metrics : Process World (Unit {0})
new_fp_metrics = do
  once ← gets (λ w. w.fp_metrics_once)
  if once then pure tt else (do modify (λ w. record w { fp_metrics_once = true }); must_register)

-- A handler of `db.NewBBoltHandler`, which is open.
abbrev pub open_handler : World → World
open_handler w = record w { open_dbs = w.open_dbs + 1 }

-- The deferred `db.Close()`, whose error is only logged.
abbrev pub close_handler : World → World
close_handler w = record w { open_dbs = w.open_dbs - 1; instant = w.instant + 1 }

module _ (e : Libraries) where
  -- Behind the opening of the database, up to the goroutine that measures the balance.
  unfoldable pub with_handler : Process World OrbitConsumerController
  with_handler = do
    ask e (wrap "create initial buckets error") e.create_initial_schema
    layer2 ← gets (λ w. w.config.layer2)
    modify (λ w. record w { balance_loops = w.balance_loops + 1 })
    pure (new_orbit_consumer_controller layer2.back_height_count)

  unfoldable pub new_orbit_consumer_controller_from :
      e.FpConfig → Process World OrbitConsumerController
  new_orbit_consumer_controller_from fp_config = do
    consumer_con ←
        ask e (wrap "failed to create rpc client for the consumer chain rollup")
          (λ t. e.new_rollup_controller t fp_config)
    ask e (wrap "invalid config for Babylon client") (λ t. e.validate_babylon_config fp_config)
    bc ←
        ask e (wrap "failed to create Babylon client")
          (λ t. e.new_controller_bbn_client t fp_config)
    babylon ← gets (λ w. w.config.babylon)
    ask e (wrap "failed to create DB handler") (λ t. e.open_db t babylon.db_file_path)
    modify open_handler
    deferring close_handler with_handler

  -- What an app holds of its own: the RPC server, if there is one, and the address of it.
  pub record FinalityProviderApp : Type 0 where
    pub rpc : Option (JsonRpcServer e)
    pub json_rpc_server_ip_port_addr : String
    pub consumer_con : OrbitConsumerController

  unfoldable pub new_finality_provider_app :
      e.FpConfig
      → OrbitConsumerController
      → e.Backend
      → Option (JsonRpcServer e)
      → String
      → Process World FinalityProviderApp
  new_finality_provider_app config consumer_con db rpc addr = do
    pub_rand_store ←
        ask e (wrap "failed to initiate public randomness store")
          (λ t. e.new_pub_rand_proof_store t db)
    ask e (wrap "failed to create finality-provider manager") (λ t. e.new_fp_app t config db)
    pure (record { rpc = rpc; json_rpc_server_ip_port_addr = addr; consumer_con = consumer_con })

  -- The RPC server is built only if it has an address.
  unfoldable pub rpc_server : String → Process World (Option (JsonRpcServer e))
  rpc_server addr =
      if not (addr == "")
      then (do
        server ← wrapping (wrap "failed to create NewJsonRpcServer") (new_json_rpc_server e)
        pure (some server))
      else pure none

  unfoldable pub new_eots_manager_client : EotsConfig → Process World e.EotsClient
  new_eots_manager_client cfg =
      ask e (wrap "create eotsmanager client failed")
        (λ t. e.new_eots_manager_client t cfg.remote_addr)

  unfoldable pub new_finality_provider_app_from_config :
      e.FpConfig → e.Backend → Process World FinalityProviderApp
  new_finality_provider_app_from_config fp_cfg db = do
    new_fp_metrics
    cfg ← gets (λ w. w.config)
    em ←
        wrapping (wrap "NewEOTSManagerClient failed")
          (new_eots_manager_client cfg.eots_manager_config)
    cc ← ask e (wrap "NewBabylonController failed") (λ t. e.new_babylon_controller t fp_cfg)
    consumer_con ←
        wrapping (wrap "NewOrbitConsumerController failed")
          (new_orbit_consumer_controller_from fp_cfg)
    rpc ← rpc_server cfg.common.rpc_server_ip_port_address
    new_finality_provider_app fp_cfg consumer_con db rpc cfg.common.rpc_server_ip_port_address

  -- `NewFpsCmdProvider`, of which the store is kept.
  unfoldable pub new_fps_cmd_provider : e.FpConfig → e.Backend → Process World e.FpStore
  new_fps_cmd_provider cfg db = do
    cc ←
        ask e (wrap "failed to create rpc client for the Babylon chain")
          (λ t. e.new_babylon_controller t cfg)
    ask e (wrap "failed to start rpc client for the Babylon chain")
        (λ t. e.start_babylon_controller t cc)
    ask e (wrap "failed to create rpc client for the consumer chain babylon")
        (λ t. e.new_consumer_controller t cfg)
    ask e (wrap "failed to initiate finality provider store")
        (λ t. e.new_finality_provider_store t db)
