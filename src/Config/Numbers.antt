-- ===== src/Config/Numbers.antt =====
-- The numbers that finality-gadget/core and finality-gadget/client/l2eth read from the environment.
use blitz.Base.{
  ℕ, ◌<◌, ◌^◌, ◌≡◌, ◌≢◌, refl, sym, ap, ◌∙◌, inl, inr, String, false, Option, none, some, ok, ℤ,
  pos, negsuc, int64, int64-IsInt, to_u64, to_u64-int64, ◌==◌, string_eq, Bool-cases, arith,
}
use blitz.Base.Decimal.{itoa, atoi}
use blitz.Base.Decimal.RoundTrip.{atoi-itoa}
use blitz.Config.{Environment, set_or, parsed, number_or, L2Config, l2_with_env}

nothing_read : (z : ℤ) → atoi "" ≢ some z
unfolding atoi
nothing_read z h = ground arith

itoa-nonempty : (n : ℕ) → n < 2 ^ 64 → (itoa (int64 n) == "") ≡ false
itoa-nonempty n h = elim (Bool-cases (itoa (int64 n) == "")) [
  | inl same ↦
      let empty = (string_eq.same_iff (itoa (int64 n)) "").0 same in
      elim (nothing_read (int64 n)
        (ap atoi (sym empty) ∙ atoi-itoa (int64 n) (int64-IsInt n h))) [ ]
  | inr other ↦ other
]

-- A number below 2^64, printed as an `int` and put into the environment, is read back.
pub number_or-itoa :
    (message : String) (n default_value : ℕ)
    → n < 2 ^ 64
    → number_or message (some (itoa (int64 n))) default_value ≡ ok n
number_or-itoa message n d h =
    rw (itoa-nonempty n h, atoi-itoa (int64 n) (int64-IsInt n h), to_u64-int64 n h) refl

pub to_u64-bound : (z : ℤ) → to_u64 z < 2 ^ 64
to_u64-bound (pos n) = omega arith
to_u64-bound (negsuc n) = omega arith

parsed-bound : (message : String) (o : Option ℤ) (n : ℕ) → parsed message o ≡ ok n → n < 2 ^ 64
parsed-bound message none n h = ground arith
parsed-bound message (some z) n h =
    let b = to_u64-bound z in let e : to_u64 z ≡ n = cc in rw (sym e) b

-- `uint64` of an `int` is below 2^64, and what the environment gives is such a number or the
-- default.
pub number_or-bound :
    (message : String) (o : Option String) (d n : ℕ)
    → d < 2 ^ 64
    → number_or message o d ≡ ok n
    → n < 2 ^ 64
number_or-bound message none d n small h = ground arith
number_or-bound message (some v) d n small h = elim (Bool-cases (v == "")) [
  | inl unset ↦ let same : ok d ≡ ok n = sym (rw unset refl) ∙ h in ground arith
  | inr given ↦ parsed-bound message (atoi v) n (sym (rw given refl) ∙ h)
]

-- What is given is a number on its own, so the second reading gives it, too.
pub number_or-idempotent :
    (message : String) (o : Option String) (d n : ℕ)
    → number_or message o d ≡ ok n
    → number_or message o n ≡ ok n
number_or-idempotent message none d n h = refl
number_or-idempotent message (some v) d n h = elim (Bool-cases (v == "")) [
  | inl unset ↦ rw unset refl
  | inr given ↦ rw given (sym (rw given refl) ∙ h)
]

-- If the variable of the chain id holds `Itoa(int(id))` of an id below 2^64, the configuration of
-- L2 is read without a panic, and has that id, whatever it had before.
pub l2_with_env-itoa :
    (env : Environment) (c : L2Config) (id : ℕ)
    → id < 2 ^ 64
    → env "FINALITY_GADGET_LAYER2_CHAIN_ID" ≡ some (itoa (int64 id))
    → l2_with_env env c
      ≡ ok (record c {
        eth_rpc_url = set_or (env "FINALITY_GADGET_LAYER2_ETH_RPC_URL") c.eth_rpc_url;
        chain_id = id;
      })
unfolding l2_with_env
l2_with_env-itoa env c id h q = rw (q, number_or-itoa _ id c.chain_id h) refl
