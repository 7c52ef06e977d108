-- ===== src/Common/Bits.antt =====
-- `&` and `|` with the masks that the kernel uses, as arithmetic.
use Prim.Native.Nat.{
  ℕ, zero, suc, ◌+◌, ◌-◌, ◌*◌, ◌/◌, ◌%◌, ◌^◌, ◌≤◌, ◌<◌, min, max, digits, bit_and, bit_or,
  bit_and-bitwise, bit_or-bitwise,
}
use mathlib.Core.Path.{◌≡◌, refl, ap, ◌∙◌}
use native.Mathlib.Omega.{arith}
use native.Mathlib.Nat.{pow-suc, one-le-pow}

-- The recursion on digits does not depend on spare fuel.
module _ (z : ℕ → ℕ) (f : ℕ → ℕ → ℕ) where
  digits-spare : (n j a b : ℕ) → a ≤ n → digits z f (j + n) a b ≡ digits z f n a b
  digits-spare n zero a b h = let e : 0 + n ≡ n = omega arith in rw e
  digits-spare zero (suc j) zero b h = let e : suc j + 0 ≡ suc j = omega arith in rw e
  digits-spare zero (suc j) (suc a) b h = absurd (omega arith)
  digits-spare (suc n) (suc j) zero b h =
      let e : suc j + suc n ≡ suc (suc j + n) = omega arith in rw e
  digits-spare (suc n) (suc j) (suc a) b h =
      let e : suc j + suc n ≡ suc (suc j + n) = omega arith in
      rw (e, digits-spare n (suc j) (suc a / 2) (b / 2) (omega arith))

  digits-half :
      (a b : ℕ) → digits z f a (suc a / 2) (b / 2) ≡ digits z f (suc a / 2) (suc a / 2) (b / 2)
  digits-half a b =
      let e : a ≡ (a - suc a / 2) + suc a / 2 = omega arith in
      ap (λ n. digits z f n (suc a / 2) (b / 2)) e
      ∙ digits-spare (suc a / 2) (a - suc a / 2) (suc a / 2) (b / 2) (omega arith)

-- One equation for the lowest digit.
pub bit_and-low : (a b : ℕ) → bit_and a b ≡ bit_and (a / 2) (b / 2) * 2 + min (a % 2) (b % 2)
bit_and-low zero b = simp bit_and-bitwise (omega arith)
bit_and-low (suc a) b = simp bit_and-bitwise (omega (arith, digits-half (λ y. 0) min a b))

pub bit_or-low : (a b : ℕ) → bit_or a b ≡ bit_or (a / 2) (b / 2) * 2 + max (a % 2) (b % 2)
bit_or-low zero b = simp bit_or-bitwise (omega arith)
bit_or-low (suc a) b = simp bit_or-bitwise (omega (arith, digits-half (λ y. y) max a b))

pub bit_or-zero : (n a : ℕ) → a ≤ n → bit_or a 0 ≡ a
bit_or-zero n zero h = refl
bit_or-zero zero (suc a) h = absurd (omega arith)
bit_or-zero (suc n) (suc a) h =
    omega (arith, bit_or-low (suc a) 0, bit_or-zero n (suc a / 2) (omega arith))

pub bit_and-zero : (n a : ℕ) → a ≤ n → bit_and a 0 ≡ 0
bit_and-zero n zero h = refl
bit_and-zero zero (suc a) h = absurd (omega arith)
bit_and-zero (suc n) (suc a) h =
    omega (arith, bit_and-low (suc a) 0, bit_and-zero n (suc a / 2) (omega arith))

double : (q k : ℕ) → q * 2 ^ suc k ≡ 2 * (q * 2 ^ k)
double q k = omega (arith, ap (λ (t : ℕ). q * t) (pow-suc 2 k))

-- A field of `k` bits beside the rest: `|` joins them.
bit_or-field : (k q r : ℕ) → r < 2 ^ k → bit_or (q * 2 ^ k) r ≡ q * 2 ^ k + r
bit_or-field zero q r h = ground (arith, bit_or-zero q q)
bit_or-field (suc k) q r h = ground (
  arith,
  bit_or-low (q * 2 ^ suc k) r,
  double q k,
  pow-suc 2 k,
  bit_or-field k q (r / 2) (omega (arith, pow-suc 2 k)),
)

-- A mask of `k` ones keeps the low field, a mask of `k` zeros below ones drops it.
bit_and-ones : (k q r : ℕ) → r < 2 ^ k → bit_and (q * 2 ^ k + r) (2 ^ k - 1) ≡ r
bit_and-ones zero q r h = ground (arith, bit_and-zero (q + r) (q + r))
bit_and-ones (suc k) q r h = ground (
  arith,
  bit_and-low (q * 2 ^ suc k + r) (2 ^ suc k - 1),
  double q k,
  pow-suc 2 k,
  one-le-pow k 2,
  bit_and-ones k q (r / 2),
)

bit_and-high : (k q r m : ℕ) → r < 2 ^ k → bit_and (q * 2 ^ k + r) (m * 2 ^ k) ≡ bit_and q m * 2 ^ k
bit_and-high zero q r m h = ground arith
bit_and-high (suc k) q r m h = ground (
  arith,
  bit_and-low (q * 2 ^ suc k + r) (m * 2 ^ suc k),
  double q k,
  double m k,
  double (bit_and q m) k,
  pow-suc 2 k,
  bit_and-high k q (r / 2) m,
)

-- The masks at the widths of the source.
pub bit_and-0x1 : (a : ℕ) → bit_and a 0x1 ≡ a % 2
bit_and-0x1 a = ground (arith, bit_and-ones 1 (a / 2) (a % 2))

pub bit_and-0x3 : (a : ℕ) → bit_and a 0x3 ≡ a % 4
bit_and-0x3 a = ground (arith, bit_and-ones 2 (a / 4) (a % 4))

pub bit_and-0xF : (a : ℕ) → bit_and a 0xF ≡ a % 16
bit_and-0xF a = ground (arith, bit_and-ones 4 (a / 16) (a % 16))

pub bit_and-0xFF : (a : ℕ) → bit_and a 0xFF ≡ a % 256
bit_and-0xFF a = ground (arith, bit_and-ones 8 (a / 256) (a % 256))

pub bit_and-0x3FF : (a : ℕ) → bit_and a 0x3FF ≡ a % 1024
bit_and-0x3FF a = ground (arith, bit_and-ones 10 (a / 1024) (a % 1024))

pub bit_and-0xFFFF : (a : ℕ) → bit_and a 0xFFFF ≡ a % 65536
bit_and-0xFFFF a = ground (arith, bit_and-ones 16 (a / 65536) (a % 65536))

-- The page of a 32-bit address, and the flags beside it.
pub bit_and-0xFFFFF000 : (a : ℕ) → a < 2 ^ 32 → bit_and a 0xFFFFF000 ≡ a / 4096 * 4096
bit_and-0xFFFFF000 a h =
    ground (arith, bit_and-high 12 (a / 4096) (a % 4096) 0xFFFFF, bit_and-ones 20 0 (a / 4096))

pub bit_or_flags : (a f : ℕ) → a % 4096 ≡ 0 → f < 4096 → bit_or a f ≡ a + f
bit_or_flags a f e h = ground (arith, bit_or-field 12 (a / 4096) f)

pub bit_or-0x4 : (a : ℕ) → bit_or a 0x4 ≡ a / 8 * 8 + 4 + a % 4
bit_or-0x4 a = omega (
  arith,
  bit_or-low a 4,
  bit_or-low (a / 2) 2,
  bit_or-low (a / 2 / 2) 1,
  bit_or-zero (a / 2 / 2 / 2) (a / 2 / 2 / 2) (omega arith),
)

pub bit_and-0x4 : (a : ℕ) → bit_and a 0x4 ≡ a / 4 % 2 * 4
bit_and-0x4 a = omega (arith, bit_and-low a 4, bit_and-low (a / 2) 2, bit_and-0x1 (a / 2 / 2))

-- The upper four bits of a byte.
pub bit_and-0xF0 : (a : ℕ) → a < 256 → bit_and a 0xF0 ≡ a / 16 * 16
bit_and-0xF0 a h = ground (arith, bit_and-high 4 (a / 16) (a % 16) 0xF, bit_and-ones 4 0 (a / 16))

bit_or-swap : (n a b : ℕ) → a + b ≤ n → bit_or a b ≡ bit_or b a
bit_or-swap zero a b h = let (y, z) : (a ≡ 0) × (b ≡ 0) = omega arith in rw (y, z)
bit_or-swap (suc n) a b h =
    omega (arith, bit_or-low a b, bit_or-low b a, bit_or-swap n (a / 2) (b / 2) (omega arith))

-- Four bits below a field.
pub bit_or-below : (r q : ℕ) → r < 16 → bit_or r (q * 16) ≡ r + q * 16
bit_or-below r q h = omega (arith, bit_or-swap (r + q * 16) r (q * 16), bit_or-field 4 q r)
