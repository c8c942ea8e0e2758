-- ===== src/Tests/Signers.antt =====
-- The signer of finality-gadget/signer on a machine.
use blitz.Base.{◌≡◌, ◌↔◌, String, false, none, value}
use blitz.Process.{returned}
use blitz.Config.{Dialer}
use blitz.Config.Files.{Files}
use blitz.Config.Operator.{SignerConfig}
use blitz.Signer.{SignerWorld, SignerMachine, zero_signer_config, signer_main}
use blitz.Signer.Ends.{IsServed, signer_main_iff}
use blitz.Tests.Machines.{zap}

abbrev node : Dialer
node = record { Client = String; dial = λ url. value url; chain_id = λ cli. value 42 }

abbrev files : Files SignerConfig
files = record {
  Bytes = String;
  is_missing = λ path. false;
  read_file = λ path. value path;
  unmarshal = λ b o. value o;
}

abbrev pub machine : SignerMachine
machine = record {
  node = node;
  zap = zap;
  files = files;
  env = λ name. none;
  config_flag = "signer.yaml";
}

abbrev pub before : SignerWorld
before = record { config = zero_signer_config; wg = 0; ticks = 0 }

abbrev pub behind : SignerWorld
behind = record {
  config = record zero_signer_config {
    layer2 = record zero_signer_config.layer2 { chain_id = 42 };
  };
  wg = 0;
  ticks = 3;
}

served_by_command :
    (signer_main machine 3 before ≡ (returned tt, behind)) ↔ IsServed machine 3 before behind
served_by_command = signer_main_iff machine 3 before behind
