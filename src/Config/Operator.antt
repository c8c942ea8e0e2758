-- ===== src/Config/Operator.antt =====
-- The configurations of the operator, of the EOTS manager and of the signer:
-- finality-gadget/operator/configs, client/eotsmanager and signer/configs.
pub mod Rereading
pub mod Panics
use blitz.Base.{String, false, [], Result, ok, and_then, pos}
use blitz.Config.{
  Environment, lookup_env_str, CommonConfig, BabylonConfig, L2Config, common_with_env,
  babylon_with_env, l2_with_env,
}
use blitz.Config.Metrics.{MetricsConfig, metrics_with_env}

pub record EotsConfig : Type 0 where
  pub remote_addr : String

-- It reads nothing: the source has a note to do so.
abbrev pub eots_with_env : Environment → EotsConfig → EotsConfig
eots_with_env env c = c

pub record OperatorConfig : Type 0 where
  pub common : CommonConfig
  pub layer2 : L2Config
  pub babylon : BabylonConfig
  pub eots_manager_config : EotsConfig
  pub metrics_config : MetricsConfig
  pub finality_provider_home_path : String
  pub btc_pk : String

-- The texts that `OperatorConfig` reads itself.
abbrev pub operator_texts : Environment → OperatorConfig → OperatorConfig
operator_texts env c = record c {
  finality_provider_home_path =
      lookup_env_str env "FINALITY_PROVIDER_HOME_PATH" c.finality_provider_home_path;
  btc_pk = lookup_env_str env "FINALITY_PROVIDER_BTC_PK" c.btc_pk;
}

unfoldable pub operator_with_env : Environment → OperatorConfig → Result OperatorConfig
operator_with_env env c =
    let common' = common_with_env env c.common in
    and_then (l2_with_env env c.layer2) (λ layer2'.
      let babylon' = babylon_with_env env c.babylon in
      let eots' = eots_with_env env c.eots_manager_config in
      and_then (metrics_with_env env c.metrics_config) (λ metrics'. ok (
        operator_texts env (record c {
          common = common';
          layer2 = layer2';
          babylon = babylon';
          eots_manager_config = eots';
          metrics_config = metrics';
        }))))

pub record SignerConfig : Type 0 where
  pub common : CommonConfig
  pub layer2 : L2Config

unfoldable pub signer_with_env : Environment → SignerConfig → Result SignerConfig
signer_with_env env c =
    let common' = common_with_env env c.common in
    and_then (l2_with_env env c.layer2)
      (λ layer2'. ok (record { common = common'; layer2 = layer2' }))

-- `var config OperatorConfig`
abbrev pub zero_operator_config : OperatorConfig
zero_operator_config = record {
  common = record {
    name = "";
    production = false;
    rpc_server_ip_port_address = "";
    rpc_vhosts = [];
    rpc_cors = [];
  };
  layer2 = record { eth_rpc_url = ""; chain_id = 0; back_height_count = 0 };
  babylon = record {
    bbn_chain_id = "";
    bbn_rpc_address = "";
    db_file_path = "";
    bitcoin_rpc_host = "";
    bitcoin_rpc_user = "";
    bitcoin_rpc_pass = "";
    bitcoin_disable_tls = false;
    fg_contract_address = "";
  };
  eots_manager_config = record { remote_addr = "" };
  metrics_config = record { host = ""; port = pos 0; update_interval = pos 0 };
  finality_provider_home_path = "";
  btc_pk = "";
}
