-- ===== src/Base/Decimal/RoundTrip.antt =====
-- What `Itoa` prints, `Atoi` reads back.
use Prim.Native.Nat.{ℕ, zero, suc, ◌+◌, ◌-◌, ◌*◌, ◌/◌, ◌%◌, ◌^◌, ◌<◌}
use Prim.Native.Char.{code}
use Prim.Native.String.{String, [], ◌∷◌}
use mathlib.Core.Path.{◌≡◌, refl, ◌∙◌}
use mathlib.Core.Bool.{true}
use mathlib.Core.Logic.{inl, inr}
use mathlib.Core.Option.{some}
use native.Mathlib.Omega.{arith}
use mathlib.Core.Bool.{false}
use blitz.Base.Tests.{ltb, Bool-cases, ◌==◌, nat_eq}
use blitz.Base.Words.{ℤ, pos, negsuc, IsInt}
use blitz.Base.Decimal.{
  digit_char, print_digits, itoa, is_digit, scan, magnitude, positive, negative, atoi,
}

abbrev pow10 : ℕ → ℕ
pow10 zero = 1
pow10 (suc k) = 10 * pow10 k

code-digit_char : (d : ℕ) → d < 10 → code (digit_char d) ≡ b'0' + d
code-digit_char zero h = refl
code-digit_char (suc zero) h = refl
code-digit_char (suc (suc zero)) h = refl
code-digit_char (suc (suc (suc zero))) h = refl
code-digit_char (suc (suc (suc (suc zero)))) h = refl
code-digit_char (suc (suc (suc (suc (suc zero))))) h = refl
code-digit_char (suc (suc (suc (suc (suc (suc zero)))))) h = refl
code-digit_char (suc (suc (suc (suc (suc (suc (suc zero))))))) h = refl
code-digit_char (suc (suc (suc (suc (suc (suc (suc (suc zero)))))))) h = refl
code-digit_char (suc (suc (suc (suc (suc (suc (suc (suc (suc zero))))))))) h = refl
code-digit_char (suc (suc (suc (suc (suc (suc (suc (suc (suc (suc n)))))))))) h =
    absurd (omega arith)

scan-digit : (d n : ℕ) (s : String) → d < 10 → scan (digit_char d ∷ s) n ≡ scan s (n * 10 + d)
unfolding scan
scan-digit d n s h =
    let e = code-digit_char d h in
    let exact : b'0' + d - b'0' ≡ d = omega arith in
    let in_range : is_digit (b'0' + d) ≡ true = ground arith in rw (e, in_range, exact) refl

-- `scan` reads on behind printed digits with the number that they stand for.
scan-print_digits :
    (k n : ℕ) (out : String) → n < pow10 k → scan (print_digits k n out) 0 ≡ scan out n
unfolding print_digits
scan-print_digits zero n out h = let e : n ≡ 0 = omega arith in rw e refl
scan-print_digits (suc k) n out h = elim (Bool-cases (ltb n 10)) [
  | inl last ↦
      let e : 0 * 10 + n ≡ n = omega arith in
      rw last (scan-digit n 0 out (ground arith) ∙ rw e refl)
  | inr more ↦
      let e : n / 10 * 10 + n % 10 ≡ n = omega arith in
      rw more (
        scan-print_digits k (n / 10) (digit_char (n % 10) ∷ out) (omega arith)
        ∙ scan-digit (n % 10) (n / 10) out (omega arith)
        ∙ rw e refl)
]

-- The text begins with a digit.
abbrev HeadDigit : String → Type 0
HeadDigit [] = ⊥
HeadDigit (c ∷ s) = is_digit (code c) ≡ true

digit_char-HeadDigit : (d : ℕ) (s : String) → d < 10 → HeadDigit (digit_char d ∷ s)
digit_char-HeadDigit d s h = rw (code-digit_char d h) (ground arith)

print_digits_keep : (k n : ℕ) (out : String) → HeadDigit out → HeadDigit (print_digits k n out)
unfolding print_digits
print_digits_keep zero n out h = h
print_digits_keep (suc k) n out h = elim (Bool-cases (ltb n 10)) [
  | inl last ↦ rw last (digit_char-HeadDigit n out (ground arith))
  | inr more ↦
      rw more (print_digits_keep k (n / 10) _ (digit_char-HeadDigit (n % 10) out (omega arith)))
]

-- Something is printed, a digit first.
print_digits-HeadDigit : (k n : ℕ) (out : String) → HeadDigit (print_digits (suc k) n out)
unfolding print_digits
print_digits-HeadDigit k n out = elim (Bool-cases (ltb n 10)) [
  | inl last ↦ rw last (digit_char-HeadDigit n out (ground arith))
  | inr more ↦
      rw more (print_digits_keep k (n / 10) _ (digit_char-HeadDigit (n % 10) out (omega arith)))
]

magnitude-scan : (s : String) → HeadDigit s → magnitude s ≡ scan s 0
unfolding magnitude
magnitude-scan [] h = elim h [ ]
magnitude-scan (c ∷ s) h = refl

atoi-positive : (s : String) → HeadDigit s → atoi s ≡ positive (scan s 0)
unfolding atoi
atoi-positive [] h = elim h [ ]
atoi-positive (c ∷ s) h =
    let not_minus : (code c == b'-') ≡ false = ground arith in
    let not_plus : (code c == b'+') ≡ false = ground arith in
    rw (not_minus, not_plus, magnitude-scan (c ∷ s) h) refl

atoi-negative : (s : String) → atoi ("-" ∷ s) ≡ negative (magnitude s)
unfolding atoi
atoi-negative s = refl

read-positive : (n : ℕ) → n < 2 ^ 63 → positive (scan [] n) ≡ some (pos n)
unfolding scan
read-positive n h = ground arith

read-negative : (n : ℕ) → n < 2 ^ 63 → negative (scan [] (n + 1)) ≡ some (negsuc n)
unfolding scan
read-negative n h = let e : n + 1 ≡ suc n = omega arith in rw e (ground arith)

-- Every 64-bit `int` is read back from its decimal text.
pub atoi-itoa : (z : ℤ) → IsInt z → atoi (itoa z) ≡ some z
unfolding itoa
atoi-itoa (pos n) h =
    let printed = print_digits 19 n [] in
    atoi-positive printed (print_digits-HeadDigit 18 n [])
    ∙ rw (scan-print_digits 19 n [] (omega arith)) (read-positive n h)
atoi-itoa (negsuc n) h =
    let printed = print_digits 19 (n + 1) [] in
    atoi-negative printed
    ∙ rw
        (
          magnitude-scan printed (print_digits-HeadDigit 18 (n + 1) []),
          scan-print_digits 19 (n + 1) [] (omega arith),
        )
        (read-negative n h)
