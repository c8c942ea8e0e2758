-- ===== src/Tests/Startups.antt =====
-- The commands of finality-gadget/operator and finality-gadget/rpc on a machine.
use blitz.Base.{
  int64, arith, ◌≡◌, ◌≢◌, ◌↔◌, refl, String, Error, true, [], client, wrap, fails, string_eq, value,
  negsuc, ◌∷◌,
}
use blitz.Base.Decimal.{itoa, print_digits, atoi, magnitude, scan}
use blitz.Exec
use blitz.Process
use blitz.Process.{returned, failed, panicked, exited}
use blitz.Logging.{zap_config, new_zap_logger, new_zap_logger_inner}
use blitz.Config.{
  lookup_env_str, lookup_env_uint64, common_with_env, babylon_with_env, l2_with_env, check_chain_id,
  reply, new_l2_eth_client,
}
use blitz.Config.Metrics.{metrics_with_env, validate, address}
use blitz.Config.Operator.{operator_with_env, zero_operator_config}
use blitz.Config.Files.{read_yaml_config, read_config}
use blitz.Startup.{Libraries, World, ask, l2_client}
use blitz.Startup.Closing.{constructed-close}
use blitz.Controller.{new_orbit_consumer_controller, close}
use blitz.Tests.Controllers.{chain, start}
use blitz.Startup.Servers.{
  JsonRpcServer, babylon_client, bitcoin_client, provider_by, new_finalized_state_provider_from,
  new_json_rpc_server,
}
use blitz.Startup.Apps.{
  must_register, new_fp_metrics, with_handler, new_orbit_consumer_controller_from,
  new_finality_provider_app, rpc_server, new_eots_manager_client,
  new_finality_provider_app_from_config, new_fps_cmd_provider,
}
use blitz.Startup.Commands.{
  configure, logger_inner, logger, load_fp_config, new_app_params, new_app, new_rpc_app,
  metrics_address,
}
use blitz.Startup.OperatorCommands.{
  start_app, provide, finality_provider, fps_provider, fps_restore,
}
use blitz.Startup.Closes.{IsBalanced, UnlessExited, commands-IsBalanced}
use blitz.Startup.Provided.{IsChosen, finality_provider-IsChosen}
use blitz.Startup.Restored.{RestoresBy, fps_restore_iff}
use blitz.Startup.NamedChain.{Names, fps_restore-named}
use blitz.Fps.Outcomes.{Restores}
use blitz.Startup.SameChain.{SharesChain, new_json_rpc_server-SharesChain}
use blitz.Startup.Panics.{new_finalized_state_provider-panics_iff}
use blitz.Rpc.Serving.{HttpStack, ServerWorld}
use blitz.Startup.RpcCommand.{rpc_service}
use blitz.Tests.Chain.{clients, world as gadget}
use blitz.Tests.Servers.{node}
use blitz.Tests.Machines.{libraries, machine, world, from_file}
use blitz.Tests.Apps.{services, fresh}
use blitz.Tests.Fps.{restores, local, babylon, no_power, created}

program : Unit {0}
unfolding Exec.runs Process.runs zap_config new_zap_logger new_zap_logger_inner lookup_env_str
    lookup_env_uint64 common_with_env babylon_with_env l2_with_env check_chain_id reply
    new_l2_eth_client metrics_with_env validate address operator_with_env read_yaml_config
    read_config print_digits itoa atoi magnitude scan ask l2_client babylon_client bitcoin_client
    provider_by new_finalized_state_provider_from new_json_rpc_server must_register new_fp_metrics
    with_handler new_orbit_consumer_controller_from new_finality_provider_app rpc_server
    new_eots_manager_client new_finality_provider_app_from_config new_fps_cmd_provider configure
    logger_inner logger load_fp_config new_app_params new_app new_rpc_app metrics_address start_app
    provide finality_provider fps_provider fps_restore
program = tt

-- The schema of the local database cannot be made: the command fails, and nothing stays open.
schema_fails :
    (finality_provider machine services (world, fresh)).0
    ≡ failed (
        wrap "failed to create NewFinalityProviderAppFromConfig for app" (
          wrap "failed to create NewFinalityProviderAppFromConfig for app" (
            wrap "NewOrbitConsumerController failed"
              (wrap "create initial buckets error" (client "read only")))))
unfolding program
schema_fails = refl

abbrev pub served : JsonRpcServer libraries
served = record {
  vhosts = [];
  cors = [];
  eth_client = "";
  finalized_state_provider = record {
    bbn_client = "http";
    btc_client = "";
    cw_client = "";
    l2_client = "";
  };
}

abbrev pinned : World
pinned = record world {
  config = record from_file { layer2 = record from_file.layer2 { chain_id = 42 } };
  instant = 4;
}

is_built : new_json_rpc_server libraries world ≡ (returned served, pinned)
unfolding program
is_built = refl

abbrev pub restored_world : World
restored_world = record pinned { instant = 6 }

restores_by_command :
    fps_restore machine local babylon no_power "name" "key" (world, [])
    ≡ (returned tt, (restored_world, created))
unfolding program restores
restores_by_command = refl

abbrev pub stack : HttpStack
stack = record { register_apis = value tt; start_http_endpoint = λ addr. value addr }

abbrev pub server : ServerWorld
server = record { gadget = gadget; endpoints = 0; wg = 0; id = 0 }

commands-IsBalanced_example :
    UnlessExited (IsBalanced world) (finality_provider machine services (world, fresh))
    × UnlessExited (IsBalanced world) (
        rpc_service machine
          (λ p. clients)
          (λ l. node)
          stack
          ((negsuc 2, true) ∷ [])
          (world, server))
commands-IsBalanced_example =
    commands-IsBalanced machine services (λ p. clients) (λ l. node) stack ((negsuc 2, true) ∷ [])
      world fresh server

finality_provider-IsChosen_example :
    IsChosen machine services (finality_provider machine services (world, fresh)).1
finality_provider-IsChosen_example = finality_provider-IsChosen machine services world fresh refl

new_json_rpc_server-SharesChain_example : SharesChain libraries world served pinned
new_json_rpc_server-SharesChain_example =
    new_json_rpc_server-SharesChain libraries world pinned served is_built

restored_by_command :
    (fps_restore machine local babylon no_power "name" "key" (world, [])
      ≡ (returned tt, (restored_world, created)))
    ↔ RestoresBy machine local babylon no_power "key" world restored_world [] created
restored_by_command =
    fps_restore_iff machine local babylon no_power "name" "key" world restored_world [] created

-- Without an address there is no Babylon client.
abbrev unset : World
unset = record world { config = zero_operator_config }

new_finalized_state_provider-panics_iff_example :
    (((x : Error) × ((new_finalized_state_provider_from libraries unset).0 ≡ panicked x))
      ↔ ((message : String) × (libraries.new_bbn_client 0 "" "" ≡ fails message)))
    × ((x : Error) → (new_finalized_state_provider_from libraries unset).0 ≢ exited x)
new_finalized_state_provider-panics_iff_example =
    new_finalized_state_provider-panics_iff libraries unset

machine-Names : Names machine.env 42
unfolding program
machine-Names = refl

fps_restore-named_example : Restores local babylon no_power (itoa (int64 42)) "key" [] created
fps_restore-named_example =
    fps_restore-named machine local babylon no_power "name" "key" 42 world restored_world [] created
      (omega arith) machine-Names restores_by_command

-- A machine on which the local database can be made.
abbrev writable : Libraries
writable = record libraries { create_initial_schema = λ t. value tt }

built :
    new_orbit_consumer_controller_from writable "config" world
    ≡ (returned (new_orbit_consumer_controller 0), record world { instant = 6; balance_loops = 1 })
unfolding program
built = refl

constructed-close_example :
    (x : Error) × (close chain (new_orbit_consumer_controller 0) start ≡ (panicked x, start))
constructed-close_example =
    constructed-close writable "config" world (record world { instant = 6; balance_loops = 1 })
      (new_orbit_consumer_controller 0) chain start built
