-- ===== src/Netip.antt =====
-- The parts of the standard library's net/netip that the code uses. Zones do not occur.
use clatto.Base.{
  ℕ, ◌+◌, ◌-◌, ◌*◌, ◌/◌, ◌%◌, ◌^◌, min, ◌==◌, Bool, true, false, ◌&&◌, Bytes, [], ◌∷◌, byte_at,
}
use clatto.Netutil.{Addr4, Addr6, eq4}

-- `netip.Addr`: the zero value, or an address of one of the families.
pub data Addr : Type 0 where
  zero_addr : Addr
  v4 : Addr4 → Addr
  v6 : Addr6 → Addr

abbrev pub bytes4 : Addr4 → Bytes
bytes4 a = a.0 ∷ a.1 ∷ a.2 ∷ a.3 ∷ []

abbrev pub bytes6 : Addr6 → Bytes
bytes6 a =
    a.0 ∷ a.1 ∷ a.2 ∷ a.3 ∷ a.4 ∷ a.5 ∷ a.6 ∷ a.7 ∷ a.8 ∷ a.9 ∷ a.10 ∷ a.11 ∷ a.12 ∷ a.13 ∷ a.14
    ∷ a.15 ∷ []

-- `[4]byte(b[i:i+4])` and `[16]byte(b[i:i+16])`.
abbrev pub addr4_at : Bytes → ℕ → Addr4
addr4_at b i = (byte_at b i, byte_at b (i + 1), byte_at b (i + 2), byte_at b (i + 3))

abbrev pub addr6_at : Bytes → ℕ → Addr6
addr6_at b i = (
  byte_at b i,
  byte_at b (i + 1),
  byte_at b (i + 2),
  byte_at b (i + 3),
  byte_at b (i + 4),
  byte_at b (i + 5),
  byte_at b (i + 6),
  byte_at b (i + 7),
  byte_at b (i + 8),
  byte_at b (i + 9),
  byte_at b (i + 10),
  byte_at b (i + 11),
  byte_at b (i + 12),
  byte_at b (i + 13),
  byte_at b (i + 14),
  byte_at b (i + 15),
)

abbrev pub eq6 : Addr6 → Addr6 → Bool
eq6 a b =
    eq4 (a.0, a.1, a.2, a.3) (b.0, b.1, b.2, b.3)
    && eq4 (a.4, a.5, a.6, a.7) (b.4, b.5, b.6, b.7)
    && eq4 (a.8, a.9, a.10, a.11) (b.8, b.9, b.10, b.11)
    && eq4 (a.12, a.13, a.14, a.15) (b.12, b.13, b.14, b.15)

-- The address as a number, most significant byte first.
abbrev pub num4 : Addr4 → ℕ
num4 a = ((a.0 * 256 + a.1) * 256 + a.2) * 256 + a.3

abbrev pub num6 : Addr6 → ℕ
num6 a =
    ((num4 (a.0, a.1, a.2, a.3) * 2 ^ 32 + num4 (a.4, a.5, a.6, a.7)) * 2 ^ 32
        + num4 (a.8, a.9, a.10, a.11))
      * 2 ^ 32
    + num4 (a.12, a.13, a.14, a.15)

abbrev pub eq_addr : Addr → Addr → Bool
eq_addr zero_addr zero_addr = true
eq_addr (v4 a) (v4 b) = eq4 a b
eq_addr (v6 a) (v6 b) = eq6 a b
eq_addr _ _ = false

-- `Is4`, `Is6` and `Is4In6`.
abbrev pub is4 : Addr → Bool
is4 (v4 a) = true
is4 _ = false

abbrev pub is6 : Addr → Bool
is6 (v6 a) = true
is6 _ = false

abbrev pub is_4in6 : Addr → Bool
is_4in6 (v6 a) =
    eq4 (a.0, a.1, a.2, a.3) (0, 0, 0, 0)
    && eq4 (a.4, a.5, a.6, a.7) (0, 0, 0, 0)
    && eq4 (a.8, a.9, a.10, a.11) (0, 0, 255, 255)
is_4in6 _ = false

-- `As4` and `As16`, which panic on an address of the other family, where these are all zeros.
abbrev pub as4 : Addr → Addr4
as4 (v4 a) = a
as4 _ = (0, 0, 0, 0)

abbrev pub as16 : Addr → Addr6
as16 (v6 a) = a
as16 _ = (0, 0, 0, 0, 0, 0, 0, 0, 0, 0, 0, 0, 0, 0, 0, 0)

-- The 32-bit number of the bytes, as the source composes it with shifts, and back.
abbrev pub of_num4 : ℕ → Addr4
of_num4 n = (n / 2 ^ 24 % 256, n / 2 ^ 16 % 256, n / 2 ^ 8 % 256, n % 256)

-- `netip.Prefix`, with a length that its family allows.
pub record Prefix : Type 0 where
  pub addr : Addr
  pub bits : ℕ

abbrev pub eq_prefix : Prefix → Prefix → Bool
eq_prefix p q = eq_addr p.addr q.addr && p.bits == q.bits

-- Two numbers of `w` bits that agree in their first `bits`.
abbrev pub same_high : ℕ → ℕ → ℕ → ℕ → Bool
same_high w bits x y = x / 2 ^ (w - bits) == y / 2 ^ (w - bits)

abbrev pub same_net : ℕ → Addr → Addr → Bool
same_net bits (v4 a) (v4 b) = same_high 32 bits (num4 a) (num4 b)
same_net bits (v6 a) (v6 b) = same_high 128 bits (num6 a) (num6 b)
same_net bits _ _ = false

unfoldable pub contains : Prefix → Addr → Bool
contains p a = same_net p.bits p.addr a

unfoldable pub overlaps : Prefix → Prefix → Bool
overlaps p q = same_net (min p.bits q.bits) p.addr q.addr

-- `p == p.Masked()`.
unfoldable pub is_masked : Prefix → Bool
is_masked p = elim p.addr [
  | zero_addr ↦ true
  | v4 a ↦ num4 a % 2 ^ (32 - p.bits) == 0
  | v6 a ↦ num6 a % 2 ^ (128 - p.bits) == 0
]

-- `As16` of the 128-bit number.
abbrev pub of_num6 : ℕ → Addr6
of_num6 n =
    let a = of_num4 (n / 2 ^ 96) in
    let b = of_num4 (n / 2 ^ 64) in
    let c = of_num4 (n / 2 ^ 32) in
    let d = of_num4 n in
    (a.0, a.1, a.2, a.3, b.0, b.1, b.2, b.3, c.0, c.1, c.2, c.3, d.0, d.1, d.2, d.3)

-- `Masked`.
unfoldable pub masked : Prefix → Prefix
masked p = elim p.addr [
  | zero_addr ↦ p
  | v4 a ↦ record p { addr = v4 (of_num4 (num4 a / 2 ^ (32 - p.bits) * 2 ^ (32 - p.bits))) }
  | v6 a ↦ record p { addr = v6 (of_num6 (num6 a / 2 ^ (128 - p.bits) * 2 ^ (128 - p.bits))) }
]

-- `IsValid` of an address and of a prefix.
abbrev pub is_valid_addr : Addr → Bool
is_valid_addr zero_addr = false
is_valid_addr _ = true

abbrev pub is_valid_prefix : Prefix → Bool
is_valid_prefix p = is_valid_addr p.addr
