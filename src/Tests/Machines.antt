-- ===== src/Tests/Machines.antt =====
-- A machine on which the commands of finality-gadget/operator run: every library answers.
use blitz.Base.{String, true, false, none, some, value, fails, ◌==◌, string_eq, if◌then◌else◌}
use blitz.Logging.{Zap, LevelEncoder, TimeEncoder}
use blitz.Config.{Environment}
use blitz.Config.Metrics.{default_fp_config}
use blitz.Config.Operator.{OperatorConfig, zero_operator_config}
use blitz.Config.Files.{Files}
use blitz.Startup.{Libraries, World}
use blitz.Startup.Commands.{Machine}

abbrev pub libraries : Libraries
libraries = record {
  BbnClient = String;
  BtcClient = String;
  CwClient = String;
  L2Client = String;
  EotsClient = String;
  BabylonController = String;
  RollupController = String;
  FpConfig = String;
  Backend = String;
  PubRandStore = String;
  FpStore = String;
  new_bbn_client = λ t addr chain_id. if addr == "" then fails "no address" else value addr;
  default_btc_config = record {
    rpc_host = "btc";
    rpc_user = "";
    rpc_pass = "";
    disable_tls = false;
  };
  new_bitcoin_client = λ t cfg. value cfg.rpc_host;
  new_mock_bitcoin_client = λ t cfg. value "mock";
  new_cosm_wasm_client = λ bbn addr. addr;
  dial = λ t url. value url;
  chain_id = λ t cli. value 42;
  new_eots_manager_client = λ t addr. value addr;
  new_babylon_controller = λ t cfg. value cfg;
  start_babylon_controller = λ t cc. value tt;
  new_consumer_controller = λ t cfg. value tt;
  new_rollup_controller = λ t cfg. value cfg;
  validate_babylon_config = λ cfg. value tt;
  new_controller_bbn_client = λ t cfg. value cfg;
  open_db = λ t path. value tt;
  create_initial_schema = λ t. fails "read only";
  load_config = λ t home. value home;
  get_db_backend = λ t cfg. value "backend";
  new_pub_rand_proof_store = λ t db. value db;
  new_fp_app = λ t cfg db. value tt;
  new_finality_provider_store = λ t db. value db;
}

abbrev pub zap : Zap
zap = record {
  Rest = Unit {0};
  Logger = String;
  production_config = record {
    disable_stacktrace = false;
    encoding = "json";
    encode_time = TimeEncoder.other;
    encode_level = LevelEncoder.other;
    rest = tt;
  };
  development_config = record {
    disable_stacktrace = false;
    encoding = "console";
    encode_time = TimeEncoder.other;
    encode_level = LevelEncoder.other;
    rest = tt;
  };
  build = λ config skip. value config.encoding;
}

abbrev pub from_file : OperatorConfig
from_file = record zero_operator_config {
  babylon = record zero_operator_config.babylon { bbn_rpc_address = "http" };
  metrics_config = default_fp_config;
  btc_pk = "key";
}

abbrev pub files : Files OperatorConfig
files = record {
  Bytes = String;
  is_missing = λ path. path == "nowhere";
  read_file = λ path. value path;
  unmarshal = λ b o. value from_file;
}

abbrev pub env : Environment
env name = if name == "FINALITY_GADGET_LAYER2_CHAIN_ID" then some "42" else none

abbrev pub machine : Machine
machine = record {
  libraries = libraries;
  zap = zap;
  files = files;
  env = env;
  config_flag = "";
  parses_ip = λ host. true;
}

abbrev pub world : World
world = record {
  config = from_file;
  instant = 0;
  open_dbs = 0;
  metrics_servers = 0;
  balance_loops = 0;
  fp_metrics_once = false;
  registered = false;
}
