-- ===== src/Config.antt =====
-- The configuration that the environment overrides (finality-gadget/core), and the L2 client that
-- is built from it (finality-gadget/client/l2eth/l2client.go).
pub mod Overrides
pub mod ChainId
pub mod Numbers
pub mod Metrics
pub mod Operator
pub mod Files
use Prim.Native.String.{◌++◌}
use blitz.Base.{
  ℕ, String, Bool, Option, none, some, List, new, wrap, Result, ok, err, and_then, Reply, received,
  map_err, ℤ, u64, to_u64, ◌==◌, nat_eq, string_eq, if◌then◌else◌,
}
use blitz.Base.Decimal.{atoi}
use blitz.Exec.{Exec, pure, raise, gets, modify, ◌>>=◌, ◌>>◌}

-- `os.LookupEnv`
abbrev pub Environment : Type 0
Environment = String → Option String

-- `v` if it is set and not empty, and the default otherwise
abbrev pub set_or : Option String → String → String
set_or none default_value = default_value
set_or (some v) default_value = if v == "" then default_value else v

unfoldable pub lookup_env_str : Environment → String → String → String
lookup_env_str env name default_value = set_or (env name) default_value

-- A panic is the error with its message.
abbrev pub parsed : String → Option ℤ → Result ℕ
parsed message none = err (new message)
parsed message (some z) = ok (to_u64 z)

abbrev pub number_or : String → Option String → ℕ → Result ℕ
number_or message none default_value = ok default_value
number_or message (some v) default_value =
    if v == "" then ok default_value else parsed message (atoi v)

unfoldable pub lookup_env_uint64 : Environment → String → ℕ → Result ℕ
lookup_env_uint64 env name default_value =
    number_or ("parse " ++ name ++ " to uint64 error") (env name) default_value

pub record CommonConfig : Type 0 where
  pub name : String
  pub production : Bool
  pub rpc_server_ip_port_address : String
  pub rpc_vhosts : List String
  pub rpc_cors : List String

-- The fields of `Config` (finality_gadget.go), the only field of `BabylonConfig`.
pub record BabylonConfig : Type 0 where
  pub bbn_chain_id : String
  pub bbn_rpc_address : String
  pub db_file_path : String
  pub bitcoin_rpc_host : String
  pub bitcoin_rpc_user : String
  pub bitcoin_rpc_pass : String
  pub bitcoin_disable_tls : Bool
  pub fg_contract_address : String

-- `production == "true"` if it is set and not empty
abbrev pub production_or : Option String → Bool → Bool
production_or none production = production
production_or (some v) production = if v == "" then production else (v == "true")

unfoldable pub common_with_env : Environment → CommonConfig → CommonConfig
common_with_env env c = record c {
  name = set_or (env "FINALITY_GADGET_NAME") c.name;
  production = production_or (env "FINALITY_GADGET_PRODUCTION") c.production;
}

unfoldable pub babylon_with_env : Environment → BabylonConfig → BabylonConfig
babylon_with_env env c = record c {
  db_file_path = lookup_env_str env "FINALITY_GADGET_DB_FILE_PATH" c.db_file_path;
  bbn_chain_id = lookup_env_str env "FINALITY_GADGET_BABYLON_CHAINID" c.bbn_chain_id;
  bbn_rpc_address = lookup_env_str env "FINALITY_GADGET_BABYLON_RPC_ADDR" c.bbn_rpc_address;
}

-- `l2eth.Config`; the constructor writes the chain id into it.
pub record L2Config : Type 0 where
  pub eth_rpc_url : String
  pub chain_id : ℕ
  pub back_height_count : ℕ

unfoldable pub l2_with_env : Environment → L2Config → Result L2Config
l2_with_env env c =
    and_then
      (number_or "FINALITY_GADGET_LAYER2_CHAIN_ID parse error"
        (env "FINALITY_GADGET_LAYER2_CHAIN_ID") c.chain_id)
      (λ n. ok (record c {
        eth_rpc_url = set_or (env "FINALITY_GADGET_LAYER2_ETH_RPC_URL") c.eth_rpc_url;
        chain_id = n;
      }))

-- What `NewL2EthClient` asks of go-ethereum: a connection to a URL, and its chain id.
pub record Dialer : Type 1 where
  pub Client : Type 0
  pub dial : String → Reply Client
  pub chain_id : Client → Reply ℕ

module _ (d : Dialer) where
  -- The expected chain id has to be that of the node; 0 takes the id of the node over.
  unfoldable pub check_chain_id : ℕ → Exec L2Config (Unit {0})
  check_chain_id actual = do
    expected ← gets (λ c. c.chain_id)
    if expected == 0
        then modify (λ c. record c { chain_id = u64 actual })
        else if expected == u64 actual
        then pure tt
        else raise (new "the chain id from the node is not the expected one")

  unfoldable pub reply : {A : Type 0} → String → Reply A → Exec L2Config A
  reply message r c = (map_err (wrap message) (received r), c)

  unfoldable pub new_l2_eth_client : Exec L2Config d.Client
  new_l2_eth_client = do
    url ← gets (λ c. c.eth_rpc_url)
    cli ← reply "failed to create L2 eth client" (d.dial url)
    chain_id ← reply "failed to got chain id" (d.chain_id cli)
    check_chain_id chain_id
    pure cli
