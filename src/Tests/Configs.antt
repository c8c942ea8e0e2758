-- ===== src/Tests/Configs.antt =====
-- The configuration of finality-gadget/core and finality-gadget/client under one environment.
use blitz.Base.{
  ◌≡◌, ◌↔◌, refl, String, true, false, [], none, some, ok, value, ◌==◌, string_eq, if◌then◌else◌,
}
use blitz.Exec.{runs}
use blitz.Config.{
  Environment, lookup_env_str, CommonConfig, BabylonConfig, common_with_env, babylon_with_env,
  L2Config, Dialer, check_chain_id, reply, new_l2_eth_client,
}
use blitz.Config.ChainId.{Accepts, new_l2_eth_client_iff}

program : Unit {0}
unfolding runs lookup_env_str common_with_env babylon_with_env check_chain_id reply
    new_l2_eth_client
program = tt

abbrev env : Environment
env name = if name == "FINALITY_GADGET_NAME" then some "gadget" else none

abbrev common : CommonConfig
common = record {
  name = "default";
  production = true;
  rpc_server_ip_port_address = ":8080";
  rpc_vhosts = [];
  rpc_cors = [];
}

abbrev babylon : BabylonConfig
babylon = record {
  bbn_chain_id = "bbn";
  bbn_rpc_address = "rpc";
  db_file_path = "db";
  bitcoin_rpc_host = "mock-btc-client";
  bitcoin_rpc_user = "";
  bitcoin_rpc_pass = "";
  bitcoin_disable_tls = false;
  fg_contract_address = "bbn1";
}

abbrev node : Dialer
node = record { Client = String; dial = λ url. value url; chain_id = λ cli. value 42 }

abbrev unpinned : L2Config
unpinned = record { eth_rpc_url = "http"; chain_id = 0; back_height_count = 0 }

abbrev pinned : L2Config
pinned = record { eth_rpc_url = "http"; chain_id = 42; back_height_count = 0 }

name_is_set : common_with_env env common ≡ record common { name = "gadget" }
unfolding program
name_is_set = refl

takes_over : new_l2_eth_client node unpinned ≡ (ok "http", pinned)
unfolding program
takes_over = refl

new_l2_eth_client_iff_example :
    (new_l2_eth_client node unpinned ≡ (ok "http", pinned)) ↔ Accepts node unpinned "http" pinned
new_l2_eth_client_iff_example = new_l2_eth_client_iff node unpinned "http" pinned
