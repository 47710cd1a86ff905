-- ===== src/Xlate/Checksum/Fold.antt =====
-- `fold` against a closed form of the one's complement sum.
use clatto.Base.{
  ℕ, ◌+◌, ◌-◌, ◌/◌, ◌%◌, ◌^◌, ◌<◌, ◌≡◌, refl, u16, ◌↔◌, arith, bit_and_mask, ◌==◌, if◌then◌else◌,
}
use clatto.Xlate.Checksum.{fold, fold32, fold16}

-- The sum that one's complement addition gives: 1 to 65535, and 0 for 0 only.
abbrev pub ones_sum : ℕ → ℕ
ones_sum x = if x == 0 then 0 else (x - 1) % 65535 + 1

fold32_lem : (x : ℕ) → x < 2 ^ 64 → fold32 x ≡ x / 2 ^ 32 + x % 2 ^ 32
unfolding fold32
fold32_lem x h = omega (arith, bit_and_mask 32 x)

fold16_lem : (x : ℕ) → x < 2 ^ 64 → fold16 x ≡ x / 2 ^ 16 + x % 2 ^ 16
unfolding fold16
fold16_lem x h = omega (arith, bit_and_mask 16 x)

-- Both ends of a step have the same one's complement sum.
pub record SameSum (x y : ℕ) : Type 0 where
  pub same_mod : y % 65535 ≡ x % 65535
  pub same_zero : (y ≡ 0) ↔ (x ≡ 0)

pub SameSum-trans : {x y z : ℕ} → SameSum x y → SameSum y z → SameSum x z
SameSum-trans p q = ground arith

fold32-SameSum : (x : ℕ) → x < 2 ^ 64 → SameSum x (fold32 x)
fold32-SameSum x h = ground (arith, fold32_lem x h)

fold16-SameSum : (x : ℕ) → x < 2 ^ 64 → SameSum x (fold16 x)
fold16-SameSum x h = ground (arith, fold16_lem x h)

ones_sum_unique : (x y : ℕ) → y < 65536 → SameSum x y → y ≡ ones_sum x
ones_sum_unique x y h s = ground arith

fold_steps : (x : ℕ) → fold x ≡ u16 (fold16 (fold16 (fold32 (fold32 x))))
unfolding fold
fold_steps x = refl

fold32_twice : (x : ℕ) → x < 2 ^ 64 → fold32 (fold32 x) < 2 ^ 32
fold32_twice x h =
    omega (arith, fold32_lem x h, fold32_lem (fold32 x) (omega (arith, fold32_lem x h)))

fold16_twice : (x : ℕ) → x < 2 ^ 32 → fold16 (fold16 x) < 2 ^ 16
fold16_twice x h = omega (
  arith,
  fold16_lem x (omega arith),
  fold16_lem (fold16 x) (omega (arith, fold16_lem x (omega arith))),
)

-- `fold` is the one's complement sum of any 64-bit accumulator.
pub fold-ones_sum : (x : ℕ) → x < 2 ^ 64 → fold x ≡ ones_sum x
fold-ones_sum x h =
    let a = fold32 x in
    let b = fold32 a in
    let c = fold16 b in
    let ha : a < 2 ^ 64 = omega (arith, fold32_lem x h) in
    let hb : b < 2 ^ 32 = fold32_twice x h in
    let hc : c < 2 ^ 64 = omega (arith, fold16_lem b (omega arith)) in
    let same = SameSum-trans (fold32-SameSum x h) (
      SameSum-trans (fold32-SameSum a ha)
        (SameSum-trans (fold16-SameSum b (omega arith)) (fold16-SameSum c hc))) in
    let small : fold16 c < 2 ^ 16 = fold16_twice b hb in
    ones_sum_unique x (fold x) (omega (arith, fold_steps x))
      (rw (fold_steps x) (ground (arith, same)))

pub ones_sum-SameSum : (x y : ℕ) → SameSum x y → ones_sum y ≡ ones_sum x
ones_sum-SameSum x y s = ground arith
