-- ===== src/Base/Decimal.antt =====
-- `strconv.Itoa` and `strconv.Atoi` of Go's standard library, for 64-bit `int`.
pub mod RoundTrip
use Prim.Native.Nat.{ℕ, zero, suc, ◌+◌, ◌-◌, ◌*◌, ◌/◌, ◌%◌, ◌^◌}
use Prim.Native.Char.{Char, code}
use Prim.Native.String.{String, [], ◌∷◌}
use mathlib.Core.Bool.{Bool, ◌&&◌}
use mathlib.Core.Option.{Option, none, some}
use blitz.Base.Tests.{ltb, leb, ◌==◌, nat_eq, if◌then◌else◌}
use blitz.Base.Words.{ℤ, pos, negsuc}

abbrev pub digit_char : ℕ → Char
digit_char zero = "0"
digit_char (suc zero) = "1"
digit_char (suc (suc zero)) = "2"
digit_char (suc (suc (suc zero))) = "3"
digit_char (suc (suc (suc (suc zero)))) = "4"
digit_char (suc (suc (suc (suc (suc zero))))) = "5"
digit_char (suc (suc (suc (suc (suc (suc zero)))))) = "6"
digit_char (suc (suc (suc (suc (suc (suc (suc zero))))))) = "7"
digit_char (suc (suc (suc (suc (suc (suc (suc (suc zero)))))))) = "8"
digit_char _ = "9"

-- The digits of `n` before `out`, by the digits that may still come.
unfoldable pub print_digits : ℕ → ℕ → String → String
print_digits zero n out = out
print_digits (suc left) n out =
    let more = print_digits left (n / 10) (digit_char (n % 10) ∷ out) in
    if ltb n 10 then digit_char n ∷ out else more

-- An `int` has at most 19 digits.
unfoldable pub itoa : ℤ → String
itoa (pos n) = print_digits 19 n []
itoa (negsuc n) = "-" ∷ print_digits 19 (n + 1) []

abbrev pub is_digit : ℕ → Bool
is_digit c = leb b'0' c && leb c b'9'

-- Go stops at the first digit that is out of range; the exact value is out of range then, too.
unfoldable pub scan : String → ℕ → Option ℕ
scan [] n = some n
scan (c ∷ s) n = if is_digit (code c) then scan s (n * 10 + (code c - b'0')) else none

unfoldable pub magnitude : String → Option ℕ
magnitude [] = none
magnitude (c ∷ s) = scan (c ∷ s) 0

abbrev pub positive : Option ℕ → Option ℤ
positive none = none
positive (some n) = if ltb n (2 ^ 63) then some (pos n) else none

abbrev pub negative : Option ℕ → Option ℤ
negative none = none
negative (some zero) = some (pos 0)
negative (some (suc n)) = if ltb n (2 ^ 63) then some (negsuc n) else none

-- `none` is an error.
unfoldable pub atoi : String → Option ℤ
atoi [] = none
atoi (c ∷ s) =
    if code c == b'-'
    then negative (magnitude s)
    else if code c == b'+'
    then positive (magnitude s)
    else positive (magnitude (c ∷ s))
