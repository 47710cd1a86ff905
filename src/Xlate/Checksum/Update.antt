-- ===== src/Xlate/Checksum/Update.antt =====
-- What the stored checksums verify: a fresh one, and one that is updated for a changed
-- pseudo-header (RFC 1624).
use clatto.Base.{
  ℕ, zero, suc, ◌+◌, ◌-◌, ◌%◌, ◌^◌, ◌≤◌, ◌<◌, ◌≡◌, ◌↔◌, ap, sym, byte_at-lt, ◌∙◌, arith, true, [],
  ◌∷◌, Bytes, IsBytes, IsByte, All-set, length, length-set, be16, put16,
}
use clatto.Xlate.Checksum.{checksum, verify, adjust, nonzero}
use clatto.Xlate.Checksum.Fold.{SameSum, ones_sum, fold-ones_sum}
use clatto.Xlate.Checksum.Sums.{word_sum, SumFits, fold-sum16}

pub put16-IsBytes : (b : Bytes) (i v : ℕ) → IsBytes b → IsBytes (put16 b i v)
put16-IsBytes b i v h =
    All-set IsByte _ (suc i) _ (omega arith) (All-set IsByte b i _ (omega arith) h)

pub length-put16 : (b : Bytes) (i v : ℕ) → length (put16 b i v) ≡ length b
length-put16 b i v = length-set _ _ _ ∙ length-set _ _ _

-- Storing a word at an even offset changes the sum by the difference.
pub word_sum-put16 :
    (i : ℕ) (b : Bytes) (v : ℕ)
    → v < 65536
    → i % 2 ≡ 0
    → i + 2 ≤ length b
    → word_sum (put16 b i v) + be16 b i ≡ word_sum b + v
word_sum-put16 zero [] v h e l = absurd (omega arith)
word_sum-put16 zero (x ∷ []) v h e l = absurd (omega arith)
word_sum-put16 zero (x ∷ y ∷ b) v h e l = omega arith
word_sum-put16 (suc zero) b v h e l = absurd (omega arith)
word_sum-put16 (suc (suc i)) [] v h e l = absurd (omega arith)
word_sum-put16 (suc (suc i)) (x ∷ []) v h e l = absurd (omega arith)
word_sum-put16 (suc (suc i)) (x ∷ y ∷ b) v h e l =
    omega (arith, word_sum-put16 i b v h (omega arith) (omega arith))

fold-checksum :
    (b : Bytes) (extra : ℕ)
    → IsBytes b
    → SumFits b extra
    → checksum b extra ≡ 65535 - ones_sum (extra + word_sum b)
unfolding checksum
fold-checksum b extra h k = omega (arith, fold-sum16 b extra h k)

pub verify_iff :
    (b : Bytes) (extra : ℕ)
    → IsBytes b
    → SumFits b extra
    → (verify b extra ≡ true) ↔ (ones_sum (extra + word_sum b) ≡ 65535)
unfolding verify
verify_iff b extra h k = ground (arith, fold-sum16 b extra h k)

ones_sum_complement : (s t v : ℕ) → v ≡ 65535 - ones_sum s → t ≡ s + v → ones_sum t ≡ 65535
ones_sum_complement s t v e p = ground arith

-- A checksum stored in a zero field at an even offset verifies, with the same extra sum.
pub verify-checksum :
    (b : Bytes) (i extra : ℕ)
    → IsBytes b
    → SumFits b extra
    → i % 2 ≡ 0
    → i + 2 ≤ length b
    → be16 b i ≡ 0
    → verify (put16 b i (checksum b extra)) extra ≡ true
verify-checksum b i extra h k e l z =
    let v = checksum b extra in
    let ck : v ≡ 65535 - ones_sum (extra + word_sum b) = fold-checksum b extra h k in
    let b' = put16 b i v in
    (verify_iff b' extra (put16-IsBytes b i v h) (rw (length-put16 b i v) k)).1 (
      ones_sum_complement (extra + word_sum b) (extra + word_sum b') v ck
        (omega (arith, word_sum-put16 i b v (omega arith) e l)))

adjust_lem :
    (old remove add : ℕ)
    → remove < 2 ^ 64
    → add < 2 ^ 63
    → adjust old remove add ≡ 65535 - ones_sum ((65535 - old) + (65535 - ones_sum remove) + add)
unfolding adjust
adjust_lem old remove add hr ha = rw (fold-ones_sum remove hr) (
    omega (
      arith,
      fold-ones_sum (((65535 - old) + (65535 - ones_sum remove) + add) % 2 ^ 64) (omega arith),
      ap ones_sum (wraps ((65535 - old) + (65535 - ones_sum remove) + add) (omega arith)),
    ))
  where
    wraps : (n : ℕ) → n < 2 ^ 64 → n % 2 ^ 64 ≡ n
    wraps n h = omega arith

-- The arithmetic of RFC 1624: `x` is the rest of the pseudo-header and of the data.
rfc1624 :
    (old remove add x v : ℕ)
    → old < 65536
    → 0 < add
    → ones_sum (remove + x + old) ≡ 65535
    → v ≡ 65535 - ones_sum ((65535 - old) + (65535 - ones_sum remove) + add)
    → (ones_sum (add + x + v) ≡ 65535) × (ones_sum (add + x + nonzero v) ≡ 65535)
rfc1624 old remove add x v ho ha valid e = ground arith

pub be16-lt : (b : Bytes) (i : ℕ) → IsBytes b → be16 b i < 65536
be16-lt b i h = omega (arith, byte_at-lt b i h, byte_at-lt b (suc i) h)

pub be16-le-word_sum :
    (b : Bytes) (i : ℕ) → IsBytes b → i % 2 ≡ 0 → i + 2 ≤ length b → be16 b i ≤ word_sum b
be16-le-word_sum b i h e l = omega (arith, word_sum-put16 i b 0 (omega arith) e l)

extra_same : (s e w : ℕ) → SameSum s e → ones_sum (e + w) ≡ ones_sum (s + w)
extra_same s e w h = ground (arith, h)

-- A field that the sum covers is updated for pseudo-header words `remove` replaced by `add`, where
-- the other pseudo-header words sum to `common`: what verified before verifies after, also with a
-- zero sent as all ones.
pub verify-adjust :
    (b : Bytes) (i remove add common before after : ℕ)
    → IsBytes b
    → i % 2 ≡ 0
    → i + 2 ≤ length b
    → SumFits b before
    → SumFits b after
    → remove < 2 ^ 64
    → add < 2 ^ 63
    → 0 < add
    → SameSum (remove + common) before
    → SameSum (add + common) after
    → verify b before ≡ true
    → (verify (put16 b i (adjust (be16 b i) remove add)) after ≡ true)
      × (verify (put16 b i (nonzero (adjust (be16 b i) remove add))) after ≡ true)
verify-adjust b i remove add common before after h e l fb fa hr small pos sb sa valid =
    let old = be16 b i in
    let ck = adjust old remove add in
    let x = common + (word_sum b - old) in
    let le : old ≤ word_sum b = be16-le-word_sum b i h e l in
    let was : ones_sum (remove + x + old) ≡ 65535 =
      ap ones_sum (regroup remove common (word_sum b) old le)
      ∙ sym (extra_same (remove + common) before (word_sum b) sb)
      ∙ (verify_iff b before h fb).0 valid in
    let ck_lem = adjust_lem old remove add hr small in
    let (plain, ones) = rfc1624 old remove add x ck (be16-lt b i h) pos was ck_lem in
    (
      stored ck (omega (arith, ck_lem)) le plain,
      stored (nonzero ck) (ground (arith, ck_lem)) le ones,
    )
  where
    regroup : (r c w o : ℕ) → o ≤ w → r + (c + (w - o)) + o ≡ r + c + w
    regroup r c w o k = omega arith

    stored :
        (v : ℕ)
        → v < 65536
        → be16 b i ≤ word_sum b
        → ones_sum (add + (common + (word_sum b - be16 b i)) + v) ≡ 65535
        → verify (put16 b i v) after ≡ true
    stored v hv le s =
        (verify_iff (put16 b i v) after (put16-IsBytes b i v h) (rw (length-put16 b i v) fa)).1 (
          extra_same (add + common) after (word_sum (put16 b i v)) sa
          ∙ ap ones_sum (omega (arith, word_sum-put16 i b v hv e l))
          ∙ s)
