-- ===== src/Vga/Digits.antt =====
-- The digits that `print_number` and `print_hex` of kernel/vga.c write stand for the number.
use Prim.Native.Nat.{bit_and}
use native.Mathlib.Nat.{pow-suc}
use my_kernel.Common.{
  ℕ, zero, suc, ◌+◌, ◌-◌, ◌*◌, ◌/◌, ◌%◌, ◌^◌, ◌<◌, ◌≡◌, ap, ◌∙◌, inl, inr, List, [], ◌∷◌, arith,
  leb, ◌==◌, if◌then◌else◌, Bool-cases,
}
use my_kernel.Common.Bits.{bit_and-0xF}
use my_kernel.Vga.{number_text, hex_digit, hex_text}

-- The number that a row of decimal digits stands for, behind the number `acc`.
unfoldable pub decimal : ℕ → List ℕ → ℕ
decimal acc [] = acc
decimal acc (c ∷ cs) = decimal (acc * 10 + (c - b'0')) cs

number_text-decimal :
    (fuel n : ℕ) (buffer : List ℕ)
    → n < 10 ^ fuel
    → decimal 0 (number_text fuel n buffer) ≡ decimal n buffer
unfolding number_text decimal
number_text-decimal zero n buffer h = let z : n ≡ 0 = omega arith in rw z
number_text-decimal (suc fuel) n buffer h = elim (Bool-cases (n == 0)) [
  | inl y ↦ let z : n ≡ 0 = ground arith in rw (y, z)
  | inr m ↦
      let e : n / 10 * 10 + (n % 10 + b'0' - b'0') ≡ n = omega arith in
      rw m (
        number_text-decimal fuel (n / 10) ((n % 10 + b'0') ∷ buffer)
          (omega (arith, pow-suc 10 fuel))
        ∙ step e)
]
  where
    step :
        n / 10 * 10 + (n % 10 + b'0' - b'0') ≡ n
        → decimal (n / 10) ((n % 10 + b'0') ∷ buffer) ≡ decimal n buffer
    step e = ap (λ x. decimal x buffer) e

-- The digits that `print_number` writes for a 32-bit number other than 0 stand for it.
pub number_text-value : (n : ℕ) → n < 2 ^ 32 → decimal 0 (number_text 10 n []) ≡ n
unfolding decimal
number_text-value n h = number_text-decimal 10 n [] (omega arith)

-- The digit that a character stands for.
unfoldable pub hex_value : ℕ → ℕ
hex_value c = if leb c b'9' then c - b'0' else c - b'A' + 10

unfoldable pub hexadecimal : ℕ → List ℕ → ℕ
hexadecimal acc [] = acc
hexadecimal acc (c ∷ cs) = hexadecimal (acc * 16 + hex_value c) cs

hex_value-hex_digit : (n : ℕ) → hex_value (hex_digit (bit_and n 0xF)) ≡ n % 16
unfolding hex_value hex_digit
hex_value-hex_digit n = rw (bit_and-0xF n) (ground arith)

-- The eight digits that `print_hex` writes for a 32-bit number stand for it.
pub hex_text-value : (n : ℕ) → n < 2 ^ 32 → hexadecimal 0 (hex_text 8 n) ≡ n
unfolding hexadecimal hex_text
hex_text-value n h = simp hex_value-hex_digit (omega arith)
