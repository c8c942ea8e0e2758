-- ===== src/Config/Operator/Rereading.antt =====
-- What the environment does to the whole configuration of the operator.
use Prim.Native.String.{◌++◌}
use blitz.Base.{ℕ, ◌≡◌, refl, String, ok, and_then-Both, int64, to_u64, to_u64-int64}
use blitz.Config.{
  Environment, set_or, lookup_env_str, lookup_env_uint64, number_or, common_with_env,
  babylon_with_env, L2Config, l2_with_env,
}
use blitz.Config.Overrides.{set_or-idempotent, with_env-idempotent}
use blitz.Config.Numbers.{number_or-idempotent, number_or-bound, to_u64-bound}
use blitz.Config.Metrics.{MetricsConfig, metrics_with_env}
use blitz.Config.Operator.{OperatorConfig, operator_texts, operator_with_env}

abbrev put_layer2 : Environment → L2Config → ℕ → L2Config
put_layer2 env c n = record c {
  eth_rpc_url = set_or (env "FINALITY_GADGET_LAYER2_ETH_RPC_URL") c.eth_rpc_url;
  chain_id = n;
}

l2_with_env-idempotent :
    (env : Environment) (c d : L2Config) → l2_with_env env c ≡ ok d → l2_with_env env d ≡ ok d
unfolding l2_with_env
l2_with_env-idempotent env c d h =
    let chain_id = env "FINALITY_GADGET_LAYER2_CHAIN_ID" in
    let message : String = "FINALITY_GADGET_LAYER2_CHAIN_ID parse error" in
    let b =
      and_then-Both (number_or message chain_id c.chain_id) (λ n. ok (put_layer2 env c n)) d h in
    let e : put_layer2 env c b.value ≡ d = let r = b.rest in cc in
    rw (← e) (
      rw
        (
          number_or-idempotent message chain_id c.chain_id b.value b.first,
          set_or-idempotent (env "FINALITY_GADGET_LAYER2_ETH_RPC_URL") c.eth_rpc_url,
        )
        refl)

abbrev put_metrics : Environment → MetricsConfig → ℕ → MetricsConfig
put_metrics env c n = record c {
  host = lookup_env_str env "FINALITY_GADGET_METRICS_HOST" c.host;
  port = int64 n;
}

metrics_with_env-idempotent :
    (env : Environment) (c d : MetricsConfig)
    → metrics_with_env env c ≡ ok d
    → metrics_with_env env d ≡ ok d
unfolding metrics_with_env lookup_env_uint64 lookup_env_str
metrics_with_env-idempotent env c d h =
    let port = env "FINALITY_GADGET_METRICS_PORT" in
    let message : String = "parse " ++ "FINALITY_GADGET_METRICS_PORT" ++ " to uint64 error" in
    let b =
      and_then-Both (number_or message port (to_u64 c.port)) (λ n. ok (put_metrics env c n)) d h in
    let e : put_metrics env c b.value ≡ d = let r = b.rest in cc in
    let small =
      number_or-bound message port (to_u64 c.port) b.value (to_u64-bound c.port) b.first in
    rw (← e) (
      rw
        (
          to_u64-int64 b.value small,
          number_or-idempotent message port (to_u64 c.port) b.value b.first,
          set_or-idempotent (env "FINALITY_GADGET_METRICS_HOST") c.host,
        )
        refl)

abbrev merged : Environment → OperatorConfig → L2Config → MetricsConfig → OperatorConfig
merged env c layer2' metrics' = operator_texts env (record c {
  common = common_with_env env c.common;
  layer2 = layer2';
  babylon = babylon_with_env env c.babylon;
  metrics_config = metrics';
})

-- Where the environment is read without a panic, reading it again changes nothing in the
-- configuration of the operator.
pub operator_with_env-idempotent :
    (env : Environment) (c d : OperatorConfig)
    → operator_with_env env c ≡ ok d
    → operator_with_env env d ≡ ok d
unfolding operator_with_env lookup_env_str
operator_with_env-idempotent env c d h =
    let a = and_then-Both (l2_with_env env c.layer2) _ d h in
    let b = and_then-Both (metrics_with_env env c.metrics_config) _ d a.rest in
    let e : merged env c a.value b.value ≡ d = let r = b.rest in cc in
    let pure_parts = with_env-idempotent env c.common c.babylon in
    rw (← e) (
      rw
        (
          l2_with_env-idempotent env c.layer2 a.value a.first,
          metrics_with_env-idempotent env c.metrics_config b.value b.first,
          pure_parts.0,
          pure_parts.1,
          set_or-idempotent (env "FINALITY_PROVIDER_HOME_PATH") c.finality_provider_home_path,
          set_or-idempotent (env "FINALITY_PROVIDER_BTC_PK") c.btc_pk,
        )
        refl)
