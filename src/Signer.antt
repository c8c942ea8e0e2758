-- ===== src/Signer.antt =====
-- The signer (finality-gadget/signer): a service that watches its ticks until it is told to stop.
pub mod Ends
pub mod Named
use blitz.Cli.{CliApp, Cli, run_route}
use blitz.Base.{ℕ, zero, suc, ◌+◌, ◌-◌, String, false, List, [], Error, wrap, Reply}
use blitz.Process.{
  Process, pure, gets, modify, outcome, or_panic, wrapping, or_exit, deferring, within, ◌>>=◌, ◌>>◌,
}
use blitz.Logging.{Zap, new_log_level, new_zap_logger}
use blitz.Config.{Environment, Dialer, L2Config, new_l2_eth_client}
use blitz.Config.Operator.{SignerConfig, signer_with_env}
use blitz.Config.Files.{Files, read_config}

-- The configuration, which the L2 client changes, the counter of `wg`, and how many ticks were seen.
pub record SignerWorld : Type 0 where
  pub config : SignerConfig
  pub wg : ℕ
  pub ticks : ℕ

-- What the process finds: the L2 node, the loggers, the file, the environment, the flag of the
-- command line.
pub record SignerMachine : Type 1 where
  pub node : Dialer
  pub zap : Zap
  pub files : Files SignerConfig
  pub env : Environment
  pub config_flag : String

-- `var config configs.SignerConfig`
abbrev pub zero_signer_config : SignerConfig
zero_signer_config = record {
  common = record {
    name = "";
    production = false;
    rpc_server_ip_port_address = "";
    rpc_vhosts = [];
    rpc_cors = [];
  };
  layer2 = record { eth_rpc_url = ""; chain_id = 0; back_height_count = 0 };
}

pub data SignerAction : Type 0 where
  signer_action : SignerAction

abbrev pub signer_app : CliApp SignerAction
signer_app = record {
  name = "finality-gadget-signer";
  usage = "The finality-gadget signer";
  description = "Service that sign the finality-gadget commit by FPs to babylon's contract";
  action = SignerAction.signer_action;
  commands = [];
}

-- The ticks that come before the context is done.
unfoldable pub loop : ℕ → Process SignerWorld (Unit {0})
loop zero = pure tt
loop (suc more) = do modify (λ w. record w { ticks = w.ticks + 1 }); loop more

-- `defer func() { …; s.wg.Done() }()`
abbrev pub done : SignerWorld → SignerWorld
done w = record w { wg = w.wg - 1 }

unfoldable pub start : ℕ → Process SignerWorld (Unit {0})
start ticks = do modify (λ w. record w { wg = w.wg + 1 }); deferring done (loop ticks)

-- `s.wg.Wait()`, behind which the counter is 0
unfoldable pub wait : Process SignerWorld (Unit {0})
wait = modify (λ w. record w { wg = 0 })

-- What the command does with its service.
unfoldable pub start_and_wait : ℕ → Process SignerWorld (Unit {0})
start_and_wait ticks = do wrapping (wrap "start Finality gadget signer failed") (start ticks); wait

module _ (m : SignerMachine) where
  unfoldable pub new_signer_service : Process SignerWorld m.node.Client
  new_signer_service = wrapping (wrap "failed to create l2 eth client") (
      within (λ w. w.config.layer2) (λ w l. record w { config = record w.config { layer2 = l } })
        (new_l2_eth_client m.node))

  unfoldable pub configure : Process SignerWorld (Unit {0})
  configure = do
    read ←
        or_exit (wrap "read config failed by")
          (read_config m.files m.config_flag "./finality-gadget-signer.yaml" zero_signer_config)
    config ← outcome (or_panic (signer_with_env m.env read))
    modify (λ w. record w { config = config })

  -- Up to the service; an error of the service ends the process.
  unfoldable pub signer_service : Process SignerWorld m.node.Client
  signer_service = do
    configure
    config ← gets (λ w. w.config)
    logger ← new_zap_logger m.zap (new_log_level config.common.production)
    or_exit (wrap "Finality gadget signer new failed") new_signer_service

  unfoldable pub signer_main : ℕ → Process SignerWorld (Unit {0})
  signer_main ticks = do service ← signer_service; start_and_wait ticks

  -- The whole program, on the words of the command line.
  unfoldable pub main_signer : Cli → ℕ → List String → Process SignerWorld (Unit {0})
  main_signer cli ticks args =
      or_exit (wrap "Application failed.")
        (run_route (λ action words. signer_main ticks) (cli.route SignerAction signer_app args))
