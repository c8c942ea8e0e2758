-- ===== src/Tests/Settings.antt =====
-- The numbers and the whole configuration that finality-gadget/operator reads.
use blitz.Base.{
  ◌≡◌, ◌↔◌, refl, String, Bool, true, none, some, ok, int64, arith, string_eq, ◌==◌, if◌then◌else◌,
}
use blitz.Base.Decimal.{itoa, print_digits, atoi, magnitude, scan}
use blitz.Config.{
  Environment, lookup_env_str, lookup_env_uint64, common_with_env, babylon_with_env, L2Config,
  l2_with_env,
}
use blitz.Config.Numbers.{l2_with_env-itoa}
use blitz.Config.Metrics.{metrics_with_env, validate, address, default_fp_config}
use blitz.Config.Metrics.Address.{Listens, address_iff}
use blitz.Config.Operator.{OperatorConfig, operator_with_env}
use blitz.Config.Operator.Rereading.{operator_with_env-idempotent}
use blitz.Config.Operator.Panics.{IsReadable, Returns, operator_with_env_iff}
use blitz.Tests.Machines.{env, from_file}

program : Unit {0}
unfolding lookup_env_str lookup_env_uint64 common_with_env babylon_with_env l2_with_env
    metrics_with_env validate address operator_with_env itoa print_digits atoi magnitude scan
program = tt

-- The largest id is printed as -1.
printed : itoa (int64 18446744073709551615) ≡ "-1"
unfolding program
printed = refl

too_large : atoi "9223372036854775808" ≡ none
unfolding program
too_large = refl

abbrev largest : Environment
largest name =
    if name == "FINALITY_GADGET_LAYER2_CHAIN_ID"
    then some (itoa (int64 18446744073709551615))
    else none

abbrev layer2 : L2Config
layer2 = record { eth_rpc_url = "http"; chain_id = 0; back_height_count = 7 }

l2_with_env-itoa_example :
    l2_with_env largest layer2
    ≡ ok (record layer2 { eth_rpc_url = "http"; chain_id = 18446744073709551615 })
l2_with_env-itoa_example = l2_with_env-itoa largest layer2 18446744073709551615 (omega arith) refl

abbrev every_ip : String → Bool
every_ip host = true

default_address : address every_ip default_fp_config ≡ ok "127.0.0.1:2112"
unfolding program
default_address = refl

abbrev local_address : String
local_address = "127.0.0.1:2112"

address_iff_example :
    (address every_ip default_fp_config ≡ ok local_address)
    ↔ Listens every_ip default_fp_config local_address
address_iff_example = address_iff every_ip default_fp_config local_address

abbrev read : OperatorConfig
read = record from_file { layer2 = record from_file.layer2 { chain_id = 42 } }

is_read : operator_with_env env from_file ≡ ok read
unfolding program
is_read = refl

read_again : operator_with_env env read ≡ ok read
read_again = operator_with_env-idempotent env from_file read is_read

operator_with_env_iff_example : Returns (operator_with_env env from_file) ↔ (
    IsReadable (env "FINALITY_GADGET_LAYER2_CHAIN_ID")
    × IsReadable (env "FINALITY_GADGET_METRICS_PORT"))
operator_with_env_iff_example = operator_with_env_iff env from_file
