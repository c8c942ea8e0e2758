-- ===== src/Config/Metrics.antt =====
-- The configuration of the metrics server (finality-gadget/metrics/config.go).
pub mod Address
use Prim.Native.String.{◌++◌}
use blitz.Base.{
  ℕ, ◌*◌, ◌^◌, String, Bool, true, false, ◌||◌, new, Result, ok, err, and_then, ℤ, pos, negsuc,
  int64, to_u64, ltb, if◌then◌else◌,
}
use mathlib.Core.Bool.{not}
use blitz.Base.Decimal.{itoa}
use blitz.Config.{Environment, lookup_env_str, lookup_env_uint64}

-- `update_interval` counts nanoseconds.
pub record MetricsConfig : Type 0 where
  pub host : String
  pub port : ℤ
  pub update_interval : ℤ

unfoldable pub metrics_with_env : Environment → MetricsConfig → Result MetricsConfig
metrics_with_env env c =
    let host' = lookup_env_str env "FINALITY_GADGET_METRICS_HOST" c.host in
    and_then (lookup_env_uint64 env "FINALITY_GADGET_METRICS_PORT" (to_u64 c.port))
      (λ n. ok (record c { host = host'; port = int64 n }))

-- `port < 0 || port > 65535`
abbrev pub is_invalid_port : ℤ → Bool
is_invalid_port (negsuc n) = true
is_invalid_port (pos n) = ltb 65535 n

-- `net.ParseIP(host) != nil`, which is not under the repository's control
module _ (parses_ip : String → Bool) where
  unfoldable pub validate : MetricsConfig → Result (Unit {0})
  validate cfg =
      if is_invalid_port cfg.port
      then err (new "invalid port")
      else if not (parses_ip cfg.host)
      then err (new "invalid host")
      else ok tt

  unfoldable pub address : MetricsConfig → Result String
  address cfg = and_then (validate cfg) (λ u. ok (cfg.host ++ ":" ++ itoa cfg.port))

abbrev pub default_fp_config : MetricsConfig
default_fp_config = record {
  port = pos 2112;
  host = "127.0.0.1";
  update_interval = pos (100 * 10 ^ 6);
}
