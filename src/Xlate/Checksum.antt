-- ===== src/Xlate/Checksum.antt =====
-- internal/xlate/checksum.go: the Internet checksum on unfolded 64-bit accumulators.
pub mod Fold
pub mod Sums
pub mod Update
pub mod Pseudo
use clatto.Base.{
  ℕ, ◌+◌, ◌%◌, Bool, List, [], ◌∷◌, Bytes, u16, u32, u64, ◌<<<◌, ◌>>>◌, bit_and, not16, ◌==◌,
  if◌then◌else◌, take,
}

-- The second loop of `sum16`, over 16-bit words, and the odd byte at the end.
unfoldable pub sum16_words : Bytes → ℕ → ℕ
sum16_words (a ∷ b ∷ rest) acc = sum16_words rest (u64 (acc + ((a <<< 8) + b)))
sum16_words (a ∷ []) acc = u64 (acc + (a <<< 8))
sum16_words [] acc = acc

-- The first loop takes eight bytes at a time, as two 32-bit words.
unfoldable pub sum16 : Bytes → ℕ → ℕ
unfolding sum16_words
sum16 (a ∷ b ∷ c ∷ d ∷ e ∷ f ∷ g ∷ h ∷ rest) acc = sum16 rest (
    u64 (
      acc
      + (((a <<< 24) + (b <<< 16) + (c <<< 8) + d) + ((e <<< 24) + (f <<< 16) + (g <<< 8) + h))))
sum16 b acc = sum16_words b acc

unfoldable pub fold32 : ℕ → ℕ
fold32 acc = u64 ((acc >>> 32) + bit_and acc 0xffffffff)

unfoldable pub fold16 : ℕ → ℕ
fold16 acc = u64 ((acc >>> 16) + bit_and acc 0xffff)

unfoldable pub fold : ℕ → ℕ
unfolding fold32 fold16
fold acc = u16 (fold16 (fold16 (fold32 (fold32 acc))))

-- The value for the checksum field of `b`, where that field is zero.
unfoldable pub checksum : Bytes → ℕ → ℕ
checksum b extra = not16 (fold (sum16 b extra))

unfoldable pub verify : Bytes → ℕ → Bool
verify b extra = fold (sum16 b extra) == 0xffff

unfoldable pub pseudo4 : Bytes → Bytes → ℕ → ℕ → ℕ
pseudo4 src dst len proto = u64 (sum16 (take 4 src) 0 + sum16 (take 4 dst) 0 + len + proto)

unfoldable pub pseudo6 : Bytes → Bytes → ℕ → ℕ → ℕ
pseudo6 src dst len next_header =
    u64 (sum16 (take 16 src) 0 + sum16 (take 16 dst) 0 + (u32 len >>> 16) + u16 len + next_header)

-- The incremental update of RFC 1624.
unfoldable pub adjust : ℕ → ℕ → ℕ → ℕ
adjust old remove add = not16 (fold (u64 (not16 old + not16 (fold remove) + add)))

-- UDP sends a checksum of zero as all ones.
abbrev pub nonzero : ℕ → ℕ
nonzero ck = if ck == 0 then 0xffff else ck
