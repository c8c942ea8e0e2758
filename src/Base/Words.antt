-- ===== src/Base/Words.antt =====
-- Go's unsigned words, and the conversion from `uint64` to `int64`.
use Prim.Native.Nat.{ℕ, ◌-◌, ◌%◌, ◌^◌, ◌<◌}
use mathlib.Core.Path.{◌≡◌}
use mathlib.Core.Logic.{◌↔◌, inl, inr}
use mathlib.Core.Bool.{Bool, true, false}
use native.Mathlib.Omega.{arith}
use blitz.Base.Tests.{ltb, Bool-cases, if◌then◌else◌, Comparable, ◌==◌, nat_eq}

abbrev pub u64 : ℕ → ℕ
u64 n = n % 2 ^ 64

-- `negsuc n` is -(n + 1).
pub data ℤ : Type 0 where
  pos : ℕ → ℤ
  negsuc : ℕ → ℤ

-- `int64(n)` of a `uint64`
abbrev pub int64 : ℕ → ℤ
int64 n = if ltb n (2 ^ 63) then pos n else negsuc (2 ^ 64 - n - 1)

abbrev same_integer : ℤ → ℤ → Bool
same_integer (pos n) (pos m) = n == m
same_integer (negsuc n) (negsuc m) = n == m
same_integer (pos n) (negsuc m) = false
same_integer (negsuc n) (pos m) = false

pub same_integer_iff : (a b : ℤ) → (same_integer a b ≡ true) ↔ (a ≡ b)
same_integer_iff (pos n) (pos m) = ground arith
same_integer_iff (negsuc n) (negsuc m) = ground arith
same_integer_iff (pos n) (negsuc m) = ground arith
same_integer_iff (negsuc n) (pos m) = ground arith

instance abbrev pub integer_eq : Comparable ℤ
integer_eq = record { same = same_integer; same_iff = same_integer_iff }

-- `uint64(z)` of an `int`, and `int(n)` back, which is `int64`
abbrev pub to_u64 : ℤ → ℕ
to_u64 (pos n) = n % 2 ^ 64
to_u64 (negsuc n) = (2 ^ 64 - 1 - n) % 2 ^ 64

pub to_u64-int64 : (n : ℕ) → n < 2 ^ 64 → to_u64 (int64 n) ≡ n
to_u64-int64 n h = ground arith

-- The values of a 64-bit `int`.
abbrev pub IsInt : ℤ → Type 0
IsInt (pos n) = n < 2 ^ 63
IsInt (negsuc n) = n < 2 ^ 63

pub int64-IsInt : (n : ℕ) → n < 2 ^ 64 → IsInt (int64 n)
int64-IsInt n h = elim (Bool-cases (ltb n (2 ^ 63))) [
  | inl e ↦ rw e (ground arith)
  | inr e ↦ rw e (ground arith)
]

pub int64-to_u64 : (z : ℤ) → IsInt z → int64 (to_u64 z) ≡ z
int64-to_u64 (pos n) h = ground arith
int64-to_u64 (negsuc n) h = ground arith
