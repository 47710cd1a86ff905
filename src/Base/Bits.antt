-- ===== src/Base/Bits.antt =====
-- `&` and `|` as arithmetic, at every width. The native operations stand for one recursion on binary
-- digits with fuel, whose equation for the lowest digit comes first, for both at once.
use Prim.Native.Nat.{
  ℕ, zero, suc, ◌+◌, ◌-◌, ◌*◌, ◌/◌, ◌%◌, ◌^◌, ◌≤◌, ◌<◌, min, bit_and, digits, bit_and-bitwise,
  bit_or, max, bit_or-bitwise,
}
use mathlib.Core.Path.{◌≡◌, refl, ap}
use native.Mathlib.Nat.{pow-suc, one-le-pow}
use native.Mathlib.Omega.{arith}

module _ (of_zero : ℕ → ℕ) (join : ℕ → ℕ → ℕ) where
  -- Fuel that reaches the first number gives the same digits, however much it is.
  same_digits :
      (x y fuel other : ℕ)
      → x ≤ other
      → x ≤ fuel
      → digits of_zero join fuel x y ≡ digits of_zero join other x y
  same_digits zero y zero zero l k = refl
  same_digits zero y zero (suc other) l k = refl
  same_digits zero y (suc fuel) zero l k = refl
  same_digits zero y (suc fuel) (suc other) l k = refl
  same_digits (suc x) y zero other l k = absurd (omega arith)
  same_digits (suc x) y (suc fuel) zero l k = absurd (omega arith)
  same_digits (suc x) y (suc fuel) (suc other) l k =
      ap (λ (t : ℕ). t * 2 + join (suc x % 2) (y % 2))
        (same_digits (suc x / 2) (y / 2) fuel other (omega arith) (omega arith))

  lowest_digit :
      (x y : ℕ)
      → digits of_zero join (suc x) (suc x) y
        ≡ digits of_zero join (suc x / 2) (suc x / 2) (y / 2) * 2 + join (suc x % 2) (y % 2)
  lowest_digit x y =
      ap (λ (t : ℕ). t * 2 + join (suc x % 2) (y % 2))
        (same_digits (suc x / 2) (y / 2) x (suc x / 2) (omega arith) (omega arith))

pub and_lowest : (y x : ℕ) → bit_and x y ≡ min (x % 2) (y % 2) + 2 * bit_and (x / 2) (y / 2)
and_lowest y zero = omega (arith, bit_and-bitwise 0 (y / 2), bit_and-bitwise 0 y)
and_lowest y (suc x) = omega (
  arith,
  lowest_digit (λ _. zero) min x y,
  bit_and-bitwise (suc x / 2) (y / 2),
  bit_and-bitwise (suc x) y,
)

pub or_lowest : (y x : ℕ) → bit_or x y ≡ max (x % 2) (y % 2) + 2 * bit_or (x / 2) (y / 2)
or_lowest y zero = omega (arith, bit_or-bitwise 0 (y / 2), bit_or-bitwise 0 y)
or_lowest y (suc x) = omega (
  arith,
  lowest_digit (λ r. r) max x y,
  bit_or-bitwise (suc x / 2) (y / 2),
  bit_or-bitwise (suc x) y,
)

-- With 0 on the right, by the bound `n` on the left.
pub with_zero : (n x : ℕ) → x ≤ n → (bit_and x 0 ≡ 0) × (bit_or x 0 ≡ x)
with_zero n zero k = (refl, refl)
with_zero zero (suc x) k = absurd (omega arith)
with_zero (suc n) (suc x) k =
    let half = with_zero n (suc x / 2) (omega arith) in
    (omega (arith, half.0, and_lowest 0 (suc x)), omega (arith, half.1, or_lowest 0 (suc x)))

double_field : (q k : ℕ) → q * 2 ^ suc k ≡ 2 * (q * 2 ^ k)
double_field q k = omega (arith, ap (λ (t : ℕ). q * t) (pow-suc 2 k))

low_bits : (k q r : ℕ) → r < 2 ^ k → bit_and (q * 2 ^ k + r) (2 ^ k - 1) ≡ r
low_bits zero q r h = omega (arith, (with_zero (q * 1 + r) (q * 1 + r) (omega arith)).0)
low_bits (suc k) q r h =
    let half = low_bits k q (r / 2) (omega (arith, pow-suc 2 k)) in
    ground
      (arith, half, double_field q k, pow-suc 2 k, and_lowest (2 ^ suc k - 1) (q * 2 ^ suc k + r))

-- A mask of the `k` lowest bits is the remainder by `2 ^ k`.
pub bit_and_mask : (k a : ℕ) → bit_and a (2 ^ k - 1) ≡ a % 2 ^ k
bit_and_mask k a = ground (arith, one-le-pow k 2, low_bits k (a / 2 ^ k) (a % 2 ^ k))

-- `|` of a high field and a low one is a sum.
pub bit_or_fields : (k q r : ℕ) → r < 2 ^ k → bit_or (q * 2 ^ k) r ≡ q * 2 ^ k + r
bit_or_fields zero q r h = ground (arith, (with_zero (q * 1) (q * 1) (omega arith)).1)
bit_or_fields (suc k) q r h =
    let half = bit_or_fields k q (r / 2) (omega (arith, pow-suc 2 k)) in
    ground (arith, half, double_field q k, pow-suc 2 k, or_lowest r (q * 2 ^ suc k))
