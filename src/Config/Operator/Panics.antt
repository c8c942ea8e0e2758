-- ===== src/Config/Operator/Panics.antt =====
-- When the environment makes the start of the operator panic.
use blitz.Base.{
  ℕ, ◌≡◌, ◌≢◌, ◌↔◌, refl, inl, inr, String, Option, none, some, Result, ok, and_then-Both, ℤ,
  to_u64, ◌==◌, string_eq, Bool-cases, Option-cases, arith,
}
use Prim.Native.String.{◌++◌}
use blitz.Base.Decimal.{atoi}
use blitz.Config.{Environment, lookup_env_uint64, number_or, l2_with_env}
use blitz.Config.Metrics.{metrics_with_env}
use blitz.Config.Operator.{OperatorConfig, operator_with_env}

-- Where the variable is set and not empty, it holds a decimal 64-bit `int`.
abbrev pub IsReadable : Option String → Type 0
IsReadable o = (v : String) → o ≡ some v → v ≢ "" → (z : ℤ) × (atoi v ≡ some z)

abbrev pub Returns : {A : Type 0} → Result A → Type 0
Returns {A} r = (a : A) × (r ≡ ok a)

number_or-Returns :
    (message : String) (o : Option String) (d : ℕ) → IsReadable o → Returns (number_or message o d)
number_or-Returns message none d h = (d, refl)
number_or-Returns message (some v) d h = elim (Bool-cases (v == "")) [
  | inl same ↦ (d, rw same refl)
  | inr other ↦
      let (z, q) = h v refl (λ e. let same = (string_eq.same_iff v "").1 e in cc) in
      (to_u64 z, rw (other, q) refl)
]

number_or-IsReadable :
    (message : String) (o : Option String) (d n : ℕ) → number_or message o d ≡ ok n → IsReadable o
number_or-IsReadable message none d n h v set given = ground arith
number_or-IsReadable message (some u) d n h v set given = elim (Option-cases (atoi v)) [
  | inr found ↦ found
  | inl unreadable ↦ elim (Bool-cases (v == "")) [
    | inl same ↦ elim (given ((string_eq.same_iff v "").0 same)) [ ]
    | inr other ↦ let same : u ≡ v = cc in let r = rw (same, other, unreadable) at h in ground arith
  ]
]

-- The operator starts with a configuration, and does not panic over the environment, exactly if
-- the chain id and the port of the metrics server are each unset, empty, or a decimal 64-bit
-- `int`.
pub operator_with_env_iff :
    (env : Environment) (c : OperatorConfig)
    → Returns (operator_with_env env c) ↔ (
        IsReadable (env "FINALITY_GADGET_LAYER2_CHAIN_ID")
        × IsReadable (env "FINALITY_GADGET_METRICS_PORT"))
unfolding operator_with_env l2_with_env metrics_with_env lookup_env_uint64
operator_with_env_iff env c = (
  λ h.
      let a = and_then-Both _ _ h.0 h.1 in
      let l =
        and_then-Both (number_or _ (env "FINALITY_GADGET_LAYER2_CHAIN_ID") c.layer2.chain_id) _ _
          a.first in
      let b = and_then-Both _ _ h.0 a.rest in
      let m = and_then-Both (number_or _ (env "FINALITY_GADGET_METRICS_PORT") _) _ _ b.first in
      (number_or-IsReadable _ _ _ _ l.first, number_or-IsReadable _ _ _ _ m.first),
  λ h.
      let (n, q) =
        number_or-Returns "FINALITY_GADGET_LAYER2_CHAIN_ID parse error"
          (env "FINALITY_GADGET_LAYER2_CHAIN_ID") c.layer2.chain_id h.0 in
      let (k, r) =
        number_or-Returns ("parse " ++ "FINALITY_GADGET_METRICS_PORT" ++ " to uint64 error")
          (env "FINALITY_GADGET_METRICS_PORT") (to_u64 c.metrics_config.port) h.1 in
      rw (q, r) (_, refl),
)
