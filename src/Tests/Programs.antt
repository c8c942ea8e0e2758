-- ===== src/Tests/Programs.antt =====
-- The programs of finality-gadget, run with words of a command line.
use blitz.Base.{
  ℕ, zero, suc, ◌≡◌, ◌↔◌, refl, inr, String, Option, none, some, List, [], ◌∷◌, negsuc, string_eq,
  true, if◌then◌else◌, ◌==◌, arith,
}
use blitz.Process.{returned}
use blitz.Finality.{query_finalized_block_in_babylon_by_number}
use blitz.Finality.Reference.{reference}
use blitz.Finality.Agreement.{Agrees}
use blitz.Cli.{
  Cli, CliApp, Command, Subcommand, Route, calls, prints, IsDocumented, find_command,
  find_subcommand, run_route,
}
use blitz.Startup.Restored.{RestoresBy}
use blitz.Startup.Mains.{rpc_main, operator_main}
use blitz.Startup.Gadget.{rpc_main-reference}
use blitz.Startup.Programs.{operator_main_iff}
use blitz.Exec
use blitz.Process
use blitz.Base.Decimal.{itoa, print_digits, atoi, magnitude, scan}
use blitz.Logging.{zap_config, new_zap_logger}
use blitz.Config.{
  lookup_env_str, lookup_env_uint64, common_with_env, l2_with_env, check_chain_id, reply,
  new_l2_eth_client,
}
use blitz.Config.Operator.{signer_with_env}
use blitz.Config.Files.{read_yaml_config, read_config}
use blitz.Startup.NamedChain.{Names}
use blitz.Signer.Named.{IsNamed, main_signer-IsNamed}
use blitz.Signer.{
  SignerMachine, main_signer, signer_main, signer_service, new_signer_service, configure,
  start_and_wait, start, wait, loop,
}
use blitz.Signer.Ends.{IsServed, main_signer_iff}
use blitz.Tests.Queries.{world-Agrees}
use blitz.Tests.Chain.{chain, clients, clients-IsStable, chain-DistinctHashes}
use blitz.Tests.Servers.{node}
use blitz.Tests.Machines.{machine, world}
use blitz.Tests.Apps.{services, fresh}
use blitz.Tests.Fps.{local, babylon, no_power, created}
use blitz.Tests.Startups.{server, stack, served, restored_world}
use blitz.Tests.Signers.{machine as signer_machine, before, behind}

-- A library that only knows commands and subcommands.
abbrev sub_route : {H : Type 0} → Option (Subcommand H) → List String → Route H
sub_route none rest = prints
sub_route (some s) rest = calls s.action rest

abbrev command_route : {H : Type 0} → Option (Command H) → String → List String → Route H
command_route none sub rest = prints
command_route (some c) sub rest = sub_route (find_subcommand sub c.subcommands) rest

abbrev route_by : (H : Type 0) → CliApp H → List String → Route H
route_by H app [] = prints
route_by H app (program ∷ []) = calls app.action []
route_by H app (program ∷ word ∷ []) = prints
route_by H app (program ∷ word ∷ sub ∷ rest) =
    command_route (find_command word app.commands) sub rest

abbrev word_at : List String → ℕ → String
word_at [] n = ""
word_at (word ∷ words) zero = word
word_at (word ∷ words) (suc n) = word_at words n

abbrev cli : Cli
cli = record { route = route_by; get = word_at }

cli-IsDocumented : IsDocumented cli
cli-IsDocumented = record {
  chooses =
      λ H app program word sub rest c s command subcommand plain. rw (command, subcommand) refl;
  alone = λ H app program. refl;
  first = λ a rest. refl;
  second = λ a b rest. refl;
}

operator_main_iff_example :
    (operator_main cli machine services local babylon no_power
        ("operator" ∷ "k" ∷ "restore" ∷ "name" ∷ "key" ∷ [])
        (world, fresh, [])
      ≡ (returned tt, (restored_world, fresh, created)))
    ↔ (RestoresBy machine local babylon no_power "key" world restored_world [] created
        × (fresh ≡ fresh))
operator_main_iff_example =
    operator_main_iff cli cli-IsDocumented machine services local babylon no_power "operator" "k"
      "name" "key" world restored_world fresh fresh [] created (inr refl) refl refl

rpc_main-reference_example :
    Agrees chain
      (rpc_main cli machine
        (λ p. clients)
        (λ l. node)
        stack
        ((negsuc 2, true) ∷ [])
        ("rpc" ∷ [])
        (world, server)).1.1.gadget.provider
    × ((query_finalized_block_in_babylon_by_number clients 4
          (rpc_main cli machine
            (λ p. clients)
            (λ l. node)
            stack
            ((negsuc 2, true) ∷ [])
            ("rpc" ∷ [])
            (world, server)).1.1.gadget).0
        ≡ reference chain 4)
rpc_main-reference_example =
    rpc_main-reference chain cli machine (λ p. clients) (λ l. node) stack ((negsuc 2, true) ∷ [])
      ("rpc" ∷ []) world server served.finalized_state_provider 4 chain-DistinctHashes
      (λ p. clients-IsStable) world-Agrees

signer_serves :
    (main_signer signer_machine cli 3 ("signer" ∷ []) before ≡ (returned tt, behind))
    ↔ IsServed signer_machine 3 before behind
signer_serves = main_signer_iff signer_machine 3 before behind cli cli-IsDocumented "signer"

-- The environment names the chain.
abbrev named_machine : SignerMachine
named_machine = record signer_machine {
  env = λ name. if name == "FINALITY_GADGET_LAYER2_CHAIN_ID" then some "42" else none;
}

named_machine-Names : Names named_machine.env 42
unfolding itoa print_digits
named_machine-Names = refl

signer_returns : main_signer named_machine cli 3 ("signer" ∷ []) before ≡ (returned tt, behind)
unfolding Process.runs Exec.runs main_signer signer_main signer_service new_signer_service configure
    start_and_wait start wait loop run_route signer_with_env common_with_env l2_with_env
    lookup_env_str lookup_env_uint64 read_config read_yaml_config new_zap_logger zap_config
    new_l2_eth_client reply check_chain_id atoi magnitude scan itoa print_digits
signer_returns = refl

main_signer-IsNamed_example : IsNamed named_machine 42 before behind
main_signer-IsNamed_example =
    main_signer-IsNamed named_machine 42 cli 3 "signer" before behind cli-IsDocumented (omega arith)
      named_machine-Names signer_returns
