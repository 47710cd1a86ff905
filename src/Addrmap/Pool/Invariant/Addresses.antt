-- ===== src/Addrmap/Pool/Invariant/Addresses.antt =====
-- The addresses of a pool and their offsets.
use clatto.Base.{
  ℕ, ◌≡◌, ==_iff, ◌+◌, ◌-◌, ◌*◌, ◌/◌, ◌%◌, ◌^◌, ◌≤◌, ◌<◌, ap, ap₂, sym, ◌∙◌, subst, arith, true,
  bit_and, bit_or, bit_and_mask, bit_or_fields,
}
use native.Mathlib.Nat.{
  one-le-pow, mod-add-div', mul-div_left, mul-add-mod_self_right, mod-eq_of_lt,
}
use clatto.Netutil.{Addr4}
use clatto.Netip.{v4, num4, of_num4, contains, same_net}
use clatto.Addrmap.Pool.{Pool, addr_of}
use clatto.Addrmap.Pool.Invariant.{IsShape}
use clatto.Addrmap.Pool.Invariant.Empty.{IsAddr4}

num4-of_num4 : (n : ℕ) → n < 4294967296 → num4 (of_num4 n) ≡ n
num4-of_num4 n h = omega arith

of_num4-num4 : (a : Addr4) → IsAddr4 a → of_num4 (num4 a) ≡ a
of_num4-num4 a h = ground arith

in_field : (q m off : ℕ) → 1 ≤ m → off < m → (q * m + off) % m ≡ off
in_field q m off h k = mul-add-mod_self_right q m off ∙ mod-eq_of_lt k

-- The address at an offset is the base and the offset.
addr_of-sum :
    (p : Pool) (w off : ℕ) → IsShape p w → off ≤ p.max → addr_of p off ≡ of_num4 (p.base + off)
unfolding addr_of
addr_of-sum p w off s h =
    let small : off < 2 ^ w = omega (arith, s.mask, one-le-pow w 2) in
    let fields = bit_or_fields w s.quotient off small in
    ap of_num4 (ap (λ b. bit_or b off) s.masked ∙ fields ∙ ap (λ (b : ℕ). b + off) (sym s.masked))

-- The offset of the address at an offset.
pub offset-addr_of :
    (p : Pool) (w off : ℕ) → IsShape p w → off ≤ p.max → bit_and (num4 (addr_of p off)) p.max ≡ off
offset-addr_of p w off s h =
    let small : off < 2 ^ w = omega (arith, s.mask, one-le-pow w 2) in
    let number : num4 (addr_of p off) ≡ s.quotient * 2 ^ w + off =
      ap num4 (addr_of-sum p w off s h)
      ∙ num4-of_num4 (p.base + off) (omega (arith, s.bound, s.masked))
      ∙ ap (λ (b : ℕ). b + off) s.masked in
    ap₂ bit_and number s.mask
    ∙ bit_and_mask w (s.quotient * 2 ^ w + off)
    ∙ in_field s.quotient (2 ^ w) off (one-le-pow w 2 (omega arith)) small

-- An address in the prefix is the one at its offset, which is inside.
pub addr_of-offset :
    (p : Pool) (w : ℕ) (a : Addr4)
    → IsShape p w
    → IsAddr4 a
    → contains p.prefix (v4 a) ≡ true
    → (a ≡ addr_of p (bit_and (num4 a) p.max)) × (bit_and (num4 a) p.max ≤ p.max)
unfolding contains
addr_of-offset p w a s bytes c =
    let n = num4 a in
    let width : 32 - p.prefix.bits ≡ w = omega (arith, s.below) in
    let net : same_net p.prefix.bits (v4 s.net) (v4 a) ≡ true =
      ap (λ x. same_net p.prefix.bits x (v4 a)) (sym s.of_net) ∙ c in
    let high : num4 s.net / 2 ^ w ≡ n / 2 ^ w =
      subst (λ k. num4 s.net / 2 ^ k ≡ n / 2 ^ k) width ((==_iff _ _).0 net) in
    let low : bit_and n p.max ≡ n % 2 ^ w = ap (bit_and n) s.mask ∙ bit_and_mask w n in
    let positive : 1 ≤ 2 ^ w = one-le-pow w 2 (omega arith) in
    let inside : bit_and n p.max ≤ p.max = omega (arith, low, s.mask, positive) in
    let start : num4 s.net / 2 ^ w ≡ s.quotient =
      ap (λ (b : ℕ). b / 2 ^ w) (sym s.net_base ∙ s.masked) ∙ mul-div_left s.quotient positive in
    let quotient : n / 2 ^ w * 2 ^ w ≡ p.base =
      ap (λ (q : ℕ). q * 2 ^ w) (sym high ∙ start) ∙ sym s.masked in
    let whole : p.base + bit_and n p.max ≡ n =
      omega (arith, low, quotient, mod-add-div' n (2 ^ w)) in
    (
      sym (addr_of-sum p w (bit_and n p.max) s inside ∙ ap of_num4 whole ∙ of_num4-num4 a bytes),
      inside,
    )
