-- ===== src/Startup/Mains.antt =====
-- The `main` of finality-gadget/operator/finality-gadget-operator and that of
-- finality-gadget/rpc/finality-gadget-rpc-services: their tables of commands, and the actions.
use blitz.Base.{ℕ, String, Bool, Option, List, [], ◌∷◌, wrap, Reply, ℤ}
use blitz.Process.{Process, pure, or_exit, part, ◌>>=◌}
use blitz.Cli.{Subcommand, Command, CliApp, Cli, run_route}
use blitz.App.{AppEnv, AppWorld}
use blitz.Fps.{FpEnv, FinalityProviderResponse}
use blitz.Clients.{Clients}
use blitz.Rpc.{EthRpc}
use blitz.Rpc.Serving.{HttpStack, ServerWorld}
use blitz.Startup.{World}
use blitz.Startup.Servers.{ProviderParts}
use blitz.Startup.RpcCommand.{rpc_service}
use blitz.Startup.Commands.{Machine}
use blitz.Startup.OperatorCommands.{finality_provider, fps_restore, fps_show}

pub data OperatorAction : Type 0 where
  provider_action restore_action show_action : OperatorAction

abbrev pub restore_command : Subcommand OperatorAction
restore_command = record {
  name = "restore";
  usage = "restore a fp as submitter";
  action = OperatorAction.restore_action;
}

abbrev pub show_command : Subcommand OperatorAction
show_command = record {
  name = "show";
  usage = "show address for key";
  action = OperatorAction.show_action;
}

abbrev pub fps_command : Command OperatorAction
fps_command = record {
  name = "fps";
  aliases = "k" ∷ [];
  usage = "subcommand for finality provider manage";
  subcommands = restore_command ∷ show_command ∷ [];
}

abbrev pub operator_app : CliApp OperatorAction
operator_app = record {
  name = "finality-gadget-operator";
  usage = "The finality-gadget operator";
  description = "Service that send the finality-gadget by FPs to babylon's contract";
  action = OperatorAction.provider_action;
  commands = fps_command ∷ [];
}

module _ (cli : Cli) (m : Machine) (service : AppEnv) (e : FpEnv)
    (query_finality_provider : e.Pk → Reply (Option (FinalityProviderResponse e.Pk)))
    (query_has_power : e.Pk → ℕ → Reply Bool) where
  -- The process, the app and the store.
  abbrev pub OperatorState : Type 0
  OperatorState = World × AppWorld service.Pk × e.Store

  abbrev pub on_app :
      {A : Type 0} → Process (World × AppWorld service.Pk) A → Process OperatorState A
  on_app = part (λ s. (s.0, s.1)) (λ s t. (t.0, t.1, s.2))

  abbrev pub on_store : {A : Type 0} → Process (World × e.Store) A → Process OperatorState A
  on_store = part (λ s. (s.0, s.2)) (λ s t. (t.0, s.1, t.1))

  unfoldable pub perform : OperatorAction → List String → Process OperatorState (Unit {0})
  perform OperatorAction.provider_action words = on_app (finality_provider m service)
  perform OperatorAction.restore_action words =
      on_store (
        fps_restore m e query_finality_provider query_has_power (cli.get words 0) (cli.get words 1))
  perform OperatorAction.show_action words = do
    infos ← on_store (fps_show m e query_finality_provider query_has_power)
    pure tt

  unfoldable pub operator_main : List String → Process OperatorState (Unit {0})
  operator_main args =
      or_exit (wrap "Application failed.")
        (run_route perform (cli.route OperatorAction operator_app args))

-- The only action of a program without commands.
pub data SingleAction : Type 0 where
  single_action : SingleAction

abbrev pub rpc_app : CliApp SingleAction
rpc_app = record {
  name = "finality-gadget-rpc-services";
  usage = "The finality-gadget rpc services";
  description = "";
  action = SingleAction.single_action;
  commands = [];
}

module _ (cli : Cli) (m : Machine) (clients : ProviderParts m.libraries → Clients)
    (eth : m.libraries.L2Client → EthRpc) (stack : HttpStack) (requests : List (ℤ × Bool)) where
  unfoldable pub rpc_main : List String → Process (World × ServerWorld) (Unit {0})
  rpc_main args = or_exit (wrap "Application failed.") (
      run_route (λ action words. rpc_service m clients eth stack requests)
        (cli.route SingleAction rpc_app args))
