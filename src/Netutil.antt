-- ===== src/Netutil.antt =====
-- internal/netutil/netutil.go: address validation and RFC 6052. The arrays `[4]byte` and
-- `[16]byte` are tuples, whose component `a.k` is `a[k]`.
pub mod Embedding
mod Tests
use clatto.Base.{
  ℕ, ◌==◌, ltb, ◌/◌, if◌then◌else◌, Bool, true, false, not, ◌&&◌, ◌||◌, bit_and, Result, ok, err,
  Bytes, [], ◌∷◌,
}

abbrev pub Addr4 : Type 0
Addr4 = ℕ × ℕ × ℕ × ℕ

abbrev pub Addr6 : Type 0
Addr6 = ℕ × ℕ × ℕ × ℕ × ℕ × ℕ × ℕ × ℕ × ℕ × ℕ × ℕ × ℕ × ℕ × ℕ × ℕ × ℕ

abbrev pub eq4 : Addr4 → Addr4 → Bool
eq4 a b = a.0 == b.0 && a.1 == b.1 && a.2 == b.2 && a.3 == b.3

-- `IPv4Class`.
pub data Class4 : Type 0 where
  valid link_local invalid : Class4

unfoldable pub classify4 : Addr4 → Class4
classify4 a =
    if a.0 == 0
    then invalid
    else if a.0 == 127
    then invalid
    else if a.0 == 169 && a.1 == 254
    then link_local
    else if bit_and a.0 0xf0 == 0xe0
    then invalid
    else if eq4 a (255, 255, 255, 255)
    then invalid
    else valid

unfoldable pub valid6 : Addr6 → Bool
valid6 a =
    if a.0 == 0 && a.1 == 0x64 && a.2 == 0xff && a.3 == 0x9b
    then true
    else if a.0 == 0
    then false
    else if a.0 == 0xff
    then false
    else if a.0 == 0xfe && bit_and a.1 0xc0 == 0x80
    then false
    else true

unfoldable pub is_private4 : Addr4 → Bool
is_private4 a =
    if a.0 == 10
    then true
    else if a.0 == 100 && bit_and a.1 0xc0 == 0x40
    then true
    else if a.0 == 172 && bit_and a.1 0xf0 == 0x10
    then true
    else if a.0 == 192 && a.1 == 0 && a.2 == 2
    then true
    else if a.0 == 192 && a.1 == 168
    then true
    else if a.0 == 198 && bit_and a.1 0xfe == 0x12
    then true
    else if a.0 == 198 && a.1 == 51 && a.2 == 100
    then true
    else if a.0 == 203 && a.1 == 0 && a.2 == 113
    then true
    else false

unfoldable pub valid_prefix_len : ℕ → Bool
valid_prefix_len n = n == 32 || n == 40 || n == 48 || n == 56 || n == 64 || n == 96

-- `ErrInvalidPrefixLen` and `ErrNotEmbedded`, and the panic at a slice that is out of range.
pub data EmbedError : Type 0 where
  invalid_prefix_len not_embedded panics : EmbedError

unfoldable pub embed : Addr6 → ℕ → Addr4 → Result EmbedError Addr6
embed p n v =
    if ltb 16 (n / 8)
    then err panics
    else if n == 32
    then ok (p.0, p.1, p.2, p.3, v.0, v.1, v.2, v.3, 0, 0, 0, 0, 0, 0, 0, 0)
    else if n == 40
    then ok (p.0, p.1, p.2, p.3, p.4, v.0, v.1, v.2, 0, v.3, 0, 0, 0, 0, 0, 0)
    else if n == 48
    then ok (p.0, p.1, p.2, p.3, p.4, p.5, v.0, v.1, 0, v.2, v.3, 0, 0, 0, 0, 0)
    else if n == 56
    then ok (p.0, p.1, p.2, p.3, p.4, p.5, p.6, v.0, 0, v.1, v.2, v.3, 0, 0, 0, 0)
    else if n == 64
    then ok (p.0, p.1, p.2, p.3, p.4, p.5, p.6, p.7, 0, v.0, v.1, v.2, v.3, 0, 0, 0)
    else if n == 96
    then ok (p.0, p.1, p.2, p.3, p.4, p.5, p.6, p.7, p.8, p.9, p.10, p.11, v.0, v.1, v.2, v.3)
    else err invalid_prefix_len

-- The local function `zero`.
abbrev zeros : Bytes → Bool
zeros [] = true
zeros (x ∷ b) = if not (x == 0) then false else zeros b

unfoldable pub extract : Addr6 → ℕ → Result EmbedError Addr4
extract a n =
    if n == 32
    then (if not (zeros (a.8 ∷ a.9 ∷ a.10 ∷ a.11 ∷ a.12 ∷ a.13 ∷ a.14 ∷ a.15 ∷ []))
        then err not_embedded
        else ok (a.4, a.5, a.6, a.7))
    else if n == 40
    then (if not (a.8 == 0) || not (zeros (a.10 ∷ a.11 ∷ a.12 ∷ a.13 ∷ a.14 ∷ a.15 ∷ []))
        then err not_embedded
        else ok (a.5, a.6, a.7, a.9))
    else if n == 48
    then (if not (a.8 == 0) || not (zeros (a.11 ∷ a.12 ∷ a.13 ∷ a.14 ∷ a.15 ∷ []))
        then err not_embedded
        else ok (a.6, a.7, a.9, a.10))
    else if n == 56
    then (if not (a.8 == 0) || not (zeros (a.12 ∷ a.13 ∷ a.14 ∷ a.15 ∷ []))
        then err not_embedded
        else ok (a.7, a.9, a.10, a.11))
    else if n == 64
    then (if not (a.8 == 0) || not (zeros (a.13 ∷ a.14 ∷ a.15 ∷ []))
        then err not_embedded
        else ok (a.9, a.10, a.11, a.12))
    else if n == 96
    then ok (a.12, a.13, a.14, a.15)
    else err invalid_prefix_len
