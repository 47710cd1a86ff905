-- ===== src/Base/BitTests.antt =====
-- Single bits of a word, as the bitmaps test, set and clear them with a mask of one bit.
use Prim.Native.Nat.{ℕ, zero, suc, ◌-◌, ◌*◌, ◌/◌, ◌%◌, ◌^◌, ◌≤◌, ◌<◌, bit_and, bit_or}
use mathlib.Core.Path.{◌≡◌, refl, ap, sym}
use native.Mathlib.Nat.{pow-suc}
use native.Mathlib.Omega.{arith}
use clatto.Base.Bits.{and_lowest, or_lowest, with_zero}

-- The bit `k` of a word.
pub bit : ℕ → ℕ → ℕ
bit zero w = w % 2
bit (suc k) w = bit k (w / 2)

and_zero : (w : ℕ) → bit_and w 0 ≡ 0
and_zero w = (with_zero w w (omega arith)).0

or_zero : (w : ℕ) → bit_or w 0 ≡ w
or_zero w = (with_zero w w (omega arith)).1

half_power : (k : ℕ) → (2 ^ suc k / 2 ≡ 2 ^ k) × (2 ^ suc k % 2 ≡ 0)
half_power k = (omega (arith, pow-suc 2 k), omega (arith, pow-suc 2 k))

-- The mask of one bit picks the bit.
pub and_one_bit : (k w : ℕ) → bit_and w (2 ^ k) ≡ bit k w * 2 ^ k
unfolding bit
and_one_bit zero w = omega (arith, and_lowest 1 w, and_zero (w / 2))
and_one_bit (suc k) w =
    let h = half_power k in
    let half : bit_and (w / 2) (2 ^ suc k / 2) ≡ bit k (w / 2) * 2 ^ k =
      rw h.0 (and_one_bit k (w / 2)) in
    omega (
      arith,
      h.1,
      half,
      and_lowest (2 ^ suc k) w,
      pow-suc 2 k,
      ap (λ (t : ℕ). bit k (w / 2) * t) (pow-suc 2 k),
    )

one_bit_le : (k w : ℕ) → bit k w * 2 ^ k ≤ w
unfolding bit
one_bit_le zero w = omega arith
one_bit_le (suc k) w =
    omega (arith, one_bit_le k (w / 2), ap (λ (t : ℕ). bit k (w / 2) * t) (pow-suc 2 k))

-- `|` with the mask sets the bit, and no other.
pub bit_or-same : (k w : ℕ) → bit k (bit_or w (2 ^ k)) ≡ 1
unfolding bit
bit_or-same zero w = omega (arith, or_lowest 1 w)
bit_or-same (suc k) w =
    let h = half_power k in
    let half : bit_or w (2 ^ suc k) / 2 ≡ bit_or (w / 2) (2 ^ k) =
      rw (sym h.0) (omega (arith, h.1, or_lowest (2 ^ suc k) w)) in
    rw half (bit_or-same k (w / 2))

pub bit_or-other : (j k w : ℕ) → ¬ (j ≡ k) → bit j (bit_or w (2 ^ k)) ≡ bit j w
unfolding bit
bit_or-other zero zero w h = absurd (h refl)
bit_or-other zero (suc k) w h = omega (arith, (half_power k).1, or_lowest (2 ^ suc k) w)
bit_or-other (suc j) zero w h =
    let half : bit_or w (2 ^ 0) / 2 ≡ w / 2 = omega (arith, or_lowest 1 w, or_zero (w / 2)) in
    rw half refl
bit_or-other (suc j) (suc k) w h =
    let q = half_power k in
    let half : bit_or w (2 ^ suc k) / 2 ≡ bit_or (w / 2) (2 ^ k) =
      rw (sym q.0) (omega (arith, q.1, or_lowest (2 ^ suc k) w)) in
    rw half (bit_or-other j k (w / 2) (λ e. h (ap suc e)))

-- `&^=` with the mask changes no other bit.
pub bit-clear : (j k w : ℕ) → ¬ (j ≡ k) → bit j (w - bit_and w (2 ^ k)) ≡ bit j w
unfolding bit
bit-clear zero zero w h = absurd (h refl)
bit-clear zero (suc k) w h =
    omega (
      arith,
      (half_power k).1,
      and_lowest (2 ^ suc k) w,
      and_one_bit (suc k) w,
      one_bit_le (suc k) w,
    )
bit-clear (suc j) zero w h =
    let half : (w - bit_and w (2 ^ 0)) / 2 ≡ w / 2 =
      omega (arith, and_lowest 1 w, and_zero (w / 2)) in
    rw half refl
bit-clear (suc j) (suc k) w h =
    let q = half_power k in
    let half : (w - bit_and w (2 ^ suc k)) / 2 ≡ w / 2 - bit_and (w / 2) (2 ^ k) =
      rw (sym q.0) (
        omega
          (arith, q.1, and_lowest (2 ^ suc k) w, and_one_bit (suc k) w, one_bit_le (suc k) w)) in
    rw half (bit-clear j k (w / 2) (λ e. h (ap suc e)))

pub bit_clear-same : (k w : ℕ) → bit k (w - bit_and w (2 ^ k)) ≡ 0
unfolding bit
bit_clear-same zero w = omega (arith, and_lowest 1 w, and_zero (w / 2))
bit_clear-same (suc k) w =
    let q = half_power k in
    let half : (w - bit_and w (2 ^ suc k)) / 2 ≡ w / 2 - bit_and (w / 2) (2 ^ k) =
      rw (sym q.0) (
        omega
          (arith, q.1, and_lowest (2 ^ suc k) w, and_one_bit (suc k) w, one_bit_le (suc k) w)) in
    rw half (bit_clear-same k (w / 2))

pub bit-lt : (k w : ℕ) → bit k w < 2
unfolding bit
bit-lt zero w = omega arith
bit-lt (suc k) w = bit-lt k (w / 2)

pub bit_of_zero : (k : ℕ) → bit k 0 ≡ 0
unfolding bit
bit_of_zero zero = refl
bit_of_zero (suc k) = bit_of_zero k

pub bit_of_one : (k : ℕ) → ¬ (k ≡ 0) → bit k 1 ≡ 0
unfolding bit
bit_of_one zero h = absurd (h refl)
bit_of_one (suc k) h = bit_of_zero k
