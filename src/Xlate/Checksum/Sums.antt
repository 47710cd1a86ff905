-- ===== src/Xlate/Checksum/Sums.antt =====
-- `sum16` against the plain sum of the 16-bit words.
use clatto.Base.{
  ℕ, ◌+◌, ◌*◌, ◌%◌, ◌^◌, ◌≤◌, ◌<◌, ◌≡◌, refl, subst, ◌∙◌, arith, [], ◌∷◌, Bytes, IsBytes, length,
}
use clatto.Xlate.Checksum.{sum16, sum16_words, fold}
use clatto.Xlate.Checksum.Fold.{SameSum, ones_sum, fold-ones_sum, ones_sum-SameSum}

-- The sum of the big-endian 16-bit words, an odd byte at the end being a high byte.
abbrev pub word_sum : Bytes → ℕ
word_sum [] = 0
word_sum (a ∷ []) = a * 256
word_sum (a ∷ b ∷ rest) = (a * 256 + b) + word_sum rest

sum16_words_lem :
    (b : Bytes) (acc : ℕ)
    → IsBytes b
    → acc + length b * 2 ^ 30 < 2 ^ 64
    → sum16_words b acc ≡ acc + word_sum b
unfolding sum16_words
sum16_words_lem [] acc h k = omega arith
sum16_words_lem (a ∷ []) acc h k = omega arith
sum16_words_lem (a ∷ b ∷ rest) acc h k =
    omega (arith, sum16_words_lem rest ((acc + (a * 2 ^ 8 + b)) % 2 ^ 64) h.1.1 (omega arith))

pub word_sum_bound : (b : Bytes) → IsBytes b → word_sum b ≤ length b * 65535
word_sum_bound [] h = omega arith
word_sum_bound (a ∷ []) h = omega arith
word_sum_bound (a ∷ b ∷ rest) h = omega (arith, word_sum_bound rest h.1.1)

-- No accumulator step wraps around.
abbrev pub SumFits : Bytes → ℕ → Type 0
SumFits b acc = acc + length b * 2 ^ 30 < 2 ^ 64

abbrev quad : ℕ → ℕ → ℕ → ℕ → ℕ
quad a b c d = a * 2 ^ 24 + b * 2 ^ 16 + c * 2 ^ 8 + d

words_law :
    (b : Bytes) (acc : ℕ)
    → IsBytes b
    → SumFits b acc
    → sum16 b acc ≡ sum16_words b acc
    → SameSum (acc + word_sum b) (sum16 b acc) × (sum16 b acc ≤ acc + length b * 2 ^ 30)
words_law b acc h k e = ground (arith, sum16_words_lem b acc h k, word_sum_bound b h)

quad_law :
    (acc p q r s t w : ℕ)
    → SameSum (acc + (p * 65536 + q + (r * 65536 + s)) + w) t
    → SameSum (acc + (p + (q + (r + (s + w))))) t
quad_law acc p q r s t w h = ground (arith, h)

pub sum16_lem :
    (b : Bytes) (acc : ℕ)
    → IsBytes b
    → SumFits b acc
    → SameSum (acc + word_sum b) (sum16 b acc) × (sum16 b acc ≤ acc + length b * 2 ^ 30)
unfolding sum16
sum16_lem (a ∷ b ∷ c ∷ d ∷ e ∷ f ∷ g ∷ i ∷ rest) acc h k =
    let next = (acc + (quad a b c d + quad e f g i)) % 2 ^ 64 in
    let same : next
        ≡ acc + ((a * 256 + b) * 65536 + (c * 256 + d) + ((e * 256 + f) * 65536 + (g * 256 + i))) =
      omega arith in
    let (ih, small) = sum16_lem rest next h.1.1.1.1.1.1.1.1 (omega arith) in
    (
      quad_law acc (a * 256 + b) (c * 256 + d) (e * 256 + f) (g * 256 + i) (sum16 rest next)
          (word_sum rest) (subst (λ n. SameSum (n + word_sum rest) (sum16 rest next)) same ih),
      omega (arith, small),
    )
sum16_lem b acc h k = words_law b acc h k refl

-- The sum of bytes, folded, is the one's complement sum of their 16-bit words, where no step of the
-- accumulator can wrap around.
pub fold-sum16 :
    (b : Bytes) (acc : ℕ)
    → IsBytes b
    → SumFits b acc
    → fold (sum16 b acc) ≡ ones_sum (acc + word_sum b)
fold-sum16 b acc h k =
    fold-ones_sum _ (omega (arith, (sum16_lem b acc h k).1))
    ∙ ones_sum-SameSum _ _ (sum16_lem b acc h k).0
