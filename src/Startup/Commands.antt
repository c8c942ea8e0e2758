-- ===== src/Startup/Commands.antt =====
-- The commands of finality-gadget/operator/finality-gadget-operator (service.go and fps.go) and of
-- finality-gadget/rpc/finality-gadget-rpc-services.
use blitz.Base.{◌+◌, ◌-◌, String, Bool, true, false, wrap, Option, none, some}
use blitz.Process.{
  part, Process, pure, gets, modify, outcome, of_result, or_panic, wrapping, or_exit, ◌>>=◌,
}
use blitz.Logging.{Zap, new_log_level, new_zap_logger, new_zap_logger_inner}
use blitz.Config.{Environment}
use blitz.Config.Metrics.{address}
use blitz.Config.Operator.{OperatorConfig, operator_with_env, zero_operator_config}
use blitz.Config.Files.{Files, read_config}
use blitz.Startup.{Libraries, World, ask}
use blitz.Startup.Servers.{JsonRpcServer, new_json_rpc_server}
use blitz.Startup.Apps.{FinalityProviderApp, new_finality_provider_app_from_config}

-- What the process finds: the libraries, the loggers, the file, the environment, the flag of the
-- command line, and `net.ParseIP`.
pub record Machine : Type 1 where
  pub libraries : Libraries
  pub zap : Zap
  pub files : Files OperatorConfig
  pub env : Environment
  pub config_flag : String
  pub parses_ip : String → Bool

-- The address of the app and whether it has an RPC server, as `Start` reads them.
abbrev pub is_some : {A : Type 0} → Option A → Bool
is_some none = false
is_some (some a) = true

-- The process beside the state of what it serves.
module _ {S A : Type 0} where
  abbrev pub in_process : Process World A → Process (World × S) A
  in_process p = part (λ s. s.0) (λ s w. (w, s.1)) p

-- `metrics.Start(promAddr, zaplogger)`: a server that listens
abbrev pub start_metrics : String → World → World
start_metrics addr w = record w { metrics_servers = w.metrics_servers + 1 }

-- `metricsServer.Stop(…)`, whose error is only logged
abbrev pub stop_metrics : World → World
stop_metrics w = record w { metrics_servers = w.metrics_servers - 1 }

module _ (m : Machine) where
  -- `ReadConfig`, whose error ends the process, and `WithEnv`, which may panic.
  unfoldable pub configure : String → Process World (Unit {0})
  configure default_path = do
    read ←
        or_exit (wrap "read config failed by")
          (read_config m.files m.config_flag default_path zero_operator_config)
    config ← outcome (or_panic (operator_with_env m.env read))
    modify (λ w. record w { config = config })

  unfoldable pub logger_inner : Process World m.zap.Logger
  logger_inner = do
    config ← gets (λ w. w.config)
    new_zap_logger_inner m.zap (new_log_level config.common.production)

  unfoldable pub logger : Process World m.zap.Logger
  logger = do
    config ← gets (λ w. w.config)
    new_zap_logger m.zap (new_log_level config.common.production)

  unfoldable pub load_fp_config : Process World m.libraries.FpConfig
  load_fp_config = do
    home ← gets (λ w. w.config.finality_provider_home_path)
    ask m.libraries (wrap "failed to load configuration") (λ t. m.libraries.load_config t home)

  unfoldable pub new_app_params : Process World (m.libraries.FpConfig × m.libraries.Backend)
  new_app_params = do
    fp_config ← load_fp_config
    backend ←
        ask m.libraries (wrap "failed to create db backend")
          (λ t. m.libraries.get_db_backend t fp_config)
    pure (fp_config, backend)

  unfoldable pub new_app : Process World (FinalityProviderApp m.libraries)
  new_app = do
    zaplogger ← logger_inner
    params ← wrapping (wrap "failed to create params for app") new_app_params
    wrapping (wrap "failed to create NewFinalityProviderAppFromConfig for app")
        (new_finality_provider_app_from_config m.libraries params.0 params.1)

  -- `newApp` of the RPC services
  unfoldable pub new_rpc_app : Process World (JsonRpcServer m.libraries)
  new_rpc_app = do
    fp_config ← load_fp_config
    zaplogger ← logger_inner
    wrapping (wrap "failed to create NewJsonRpcServer") (new_json_rpc_server m.libraries)

  -- Both loggers, and the address of the metrics server.
  unfoldable pub metrics_address : Process World String
  metrics_address = do
    first ← logger
    zaplogger ← logger_inner
    metrics_config ← gets (λ w. w.config.metrics_config)
    wrapping (wrap "failed to get prometheus address")
        (outcome (of_result (address m.parses_ip metrics_config)))
