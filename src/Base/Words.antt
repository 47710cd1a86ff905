-- ===== src/Base/Words.antt =====
-- Machine words as native numbers: a conversion to `w` bits is `% 2 ^ w`, `>> k` is `/ 2 ^ k` and
-- `<< k` is `* 2 ^ k`. Bytes, and the big-endian accessors of encoding/binary.
use Prim.Native.Nat.{ℕ, zero, suc, ◌+◌, ◌-◌, ◌*◌, ◌/◌, ◌%◌, ◌^◌, ◌≤◌, ◌<◌}
use mathlib.Core.List.{List, [], ◌∷◌}
use mathlib.Core.Path.{◌≡◌}
use native.Mathlib.Omega.{arith}
use clatto.Base.Lists.{get_or, set, length, All}

abbrev pub u8 : ℕ → ℕ
u8 x = x % 2 ^ 8

abbrev pub u16 : ℕ → ℕ
u16 x = x % 2 ^ 16

abbrev pub u32 : ℕ → ℕ
u32 x = x % 2 ^ 32

abbrev pub u64 : ℕ → ℕ
u64 x = x % 2 ^ 64

infixl 65 ◌<<<◌ ◌>>>◌
abbrev pub ◌<<<◌ : ℕ → ℕ → ℕ
x <<< k = x * 2 ^ k

abbrev pub ◌>>>◌ : ℕ → ℕ → ℕ
x >>> k = x / 2 ^ k

-- `^x` of a uint16.
abbrev pub not16 : ℕ → ℕ
not16 x = 65535 - x

-- `x--` of a byte.
abbrev pub dec8 : ℕ → ℕ
dec8 x = u8 (x + 255)

abbrev pub Bytes : Type 0
Bytes = List ℕ

abbrev pub IsByte : ℕ → Type 0
IsByte x = x < 256

abbrev pub IsBytes : Bytes → Type 0
IsBytes b = All IsByte b

-- `b[i]`. Go panics out of range, where this is 0.
abbrev pub byte_at : Bytes → ℕ → ℕ
byte_at b i = get_or b i 0

-- `binary.BigEndian.Uint16(b[i:])` and `Uint32`.
abbrev pub be16 : Bytes → ℕ → ℕ
be16 b i = byte_at b i * 256 + byte_at b (suc i)

abbrev pub be32 : Bytes → ℕ → ℕ
be32 b i = be16 b i * 65536 + be16 b (suc (suc i))

-- The bytes that `PutUint16` and `PutUint32` store.
abbrev pub bytes16 : ℕ → Bytes
bytes16 v = u8 (v >>> 8) ∷ u8 v ∷ []

abbrev pub bytes32 : ℕ → Bytes
bytes32 v = u8 (v >>> 24) ∷ u8 (v >>> 16) ∷ u8 (v >>> 8) ∷ u8 v ∷ []

-- `binary.BigEndian.PutUint16(b[i:], v)`.
abbrev pub put16 : Bytes → ℕ → ℕ → Bytes
put16 b i v = set (set b i (u8 (v >>> 8))) (suc i) (u8 v)

pub byte_at-lt : (b : Bytes) (i : ℕ) → IsBytes b → byte_at b i < 256
byte_at-lt [] i h = omega arith
byte_at-lt (x ∷ b) zero h = h.0
byte_at-lt (x ∷ b) (suc i) h = byte_at-lt b i h.1

-- A stored word is read back.
pub be16-put16 : (b : Bytes) (i v : ℕ) → v < 65536 → i + 2 ≤ length b → be16 (put16 b i v) i ≡ v
be16-put16 [] i v h l = absurd (omega arith)
be16-put16 (x ∷ []) zero v h l = absurd (omega arith)
be16-put16 (x ∷ y ∷ b) zero v h l = omega arith
be16-put16 (x ∷ b) (suc i) v h l = be16-put16 b i v h (omega arith)
