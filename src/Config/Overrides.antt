-- ===== src/Config/Overrides.antt =====
-- What the environment overrides in finality-gadget/core.
use blitz.Base.{◌≡◌, ◌≢◌, ◌↔◌, ◌⊎◌, String, Bool, Option, none, some, string_eq, arith}
use blitz.Config.{
  Environment, set_or, lookup_env_str, CommonConfig, BabylonConfig, production_or, common_with_env,
  babylon_with_env,
}

set_or_iff :
    (o : Option String) (default_value v : String)
    → (set_or o default_value ≡ v)
      ↔ (((o ≡ some v) × (v ≢ "")) ⊎ (((o ≡ none) ⊎ (o ≡ some "")) × (v ≡ default_value)))
set_or_iff none default_value v = ground arith
set_or_iff (some x) default_value v = ground (arith, string_eq.same_iff x "")

-- A value of the environment wins if it is set and not empty; otherwise the default stays.
pub lookup_env_str_iff :
    (env : Environment) (name default_value v : String)
    → (lookup_env_str env name default_value ≡ v) ↔ (
        ((env name ≡ some v) × (v ≢ ""))
        ⊎ (((env name ≡ none) ⊎ (env name ≡ some "")) × (v ≡ default_value)))
unfolding lookup_env_str
lookup_env_str_iff env name default_value v = set_or_iff (env name) default_value v

pub set_or-idempotent : (o : Option String) (d : String) → set_or o (set_or o d) ≡ set_or o d
set_or-idempotent o d = ground arith

production_or-idempotent :
    (o : Option String) (b : Bool) → production_or o (production_or o b) ≡ production_or o b
production_or-idempotent o b = ground arith

-- Reading the environment twice is the same as once, for the common and the Babylon configuration.
pub with_env-idempotent :
    (env : Environment) (c : CommonConfig) (b : BabylonConfig)
    → (common_with_env env (common_with_env env c) ≡ common_with_env env c)
      × (babylon_with_env env (babylon_with_env env b) ≡ babylon_with_env env b)
unfolding common_with_env babylon_with_env lookup_env_str
with_env-idempotent env c b = (
  λ i. record c {
    name = set_or-idempotent (env "FINALITY_GADGET_NAME") c.name i;
    production = production_or-idempotent (env "FINALITY_GADGET_PRODUCTION") c.production i;
  },
  λ i. record b {
    db_file_path = set_or-idempotent (env "FINALITY_GADGET_DB_FILE_PATH") b.db_file_path i;
    bbn_chain_id = set_or-idempotent (env "FINALITY_GADGET_BABYLON_CHAINID") b.bbn_chain_id i;
    bbn_rpc_address =
        set_or-idempotent (env "FINALITY_GADGET_BABYLON_RPC_ADDR") b.bbn_rpc_address i;
  },
)
