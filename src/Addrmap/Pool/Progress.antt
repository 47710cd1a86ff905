-- ===== src/Addrmap/Pool/Progress.antt =====
-- A pool with a free address gives it out.
use clatto.Base.{
  ℕ, ◌≡◌, ◌+◌, ◌-◌, ◌*◌, ◌/◌, ◌%◌, ◌^◌, ◌≤◌, ◌<◌, ap, sym, ◌∙◌, subst, arith, Bool, true, ltb, inl,
  inr, Bool-cases, Option-cases, some, none, bit_and, bit_and_mask, u32,
}
use native.Mathlib.Nat.{
  one-le-pow, mod-add-div', mul_assoc, add-mul-mod_self_right, mod-eq_of_lt, mod-lt,
}
use clatto.Netutil.{Addr4, Addr6}
use clatto.Addrmap.Pool.{Pool, deref, find6}
use clatto.Addrmap.Pool.Assign.{scan_free, hash6, assign_new, pool_lookup6, take_free}
use clatto.Addrmap.Pool.Scan.{IsFree, candidate, scan_free-none}
use clatto.Addrmap.Pool.Leases.{assign_new-free}
use clatto.Addrmap.Pool.Invariant.{IsPool, IsShape}
use clatto.Addrmap.Pool.Invariant.Empty.{split_word}
use clatto.Addrmap.Pool.Found.{lookup6_mapped, lookup6_dormant, lookup6_new}

-- A remainder by a word of 32 bits does not show in one by fewer bits.
short_word : (b w x : ℕ) → b + w ≡ 32 → u32 x % 2 ^ w ≡ x % 2 ^ w
short_word b w x h =
    let whole : x % 4294967296 + x / 4294967296 * 4294967296 ≡ x = mod-add-div' x 4294967296 in
    let split : x / 4294967296 * 4294967296 ≡ x / 4294967296 * 2 ^ b * 2 ^ w =
      ap (λ (n : ℕ). x / 4294967296 * n) (sym (split_word b w h))
      ∙ sym (mul_assoc (x / 4294967296) (2 ^ b) (2 ^ w)) in
    let parts : x % 4294967296 + x / 4294967296 * 2 ^ b * 2 ^ w ≡ x =
      ap (λ (n : ℕ). x % 4294967296 + n) (sym split) ∙ whole in
    sym (add-mul-mod_self_right (x % 4294967296) (x / 4294967296 * 2 ^ b) (2 ^ w))
    ∙ ap (λ (n : ℕ). n % 2 ^ w) parts

multiple_of : (m q x off : ℕ) → off < m → off + q * m ≡ x → x % m ≡ off
multiple_of m q x off l e =
    ap (λ (n : ℕ). n % m) (sym e) ∙ add-mul-mod_self_right off q m ∙ mod-eq_of_lt l

-- Each offset is the candidate of a round.
round_of : (m h off : ℕ) → off < m → (k : ℕ) × ((k < m) × ((h + k) % m ≡ off))
round_of m h off l =
    let rest : h % m < m = mod-lt h (omega arith) in
    let whole : h % m + h / m * m ≡ h = mod-add-div' h m in
    elim (Bool-cases (ltb off (h % m))) [
      | inl a ↦
          let less : off < h % m = ground arith in
          (off + m - h % m, (omega arith, multiple_of m (h / m + 1) _ off l (grind arith)))
      | inr a ↦
          let more : h % m ≤ off = ground arith in
          (off - h % m, (omega arith, multiple_of m (h / m) _ off l (omega arith)))
    ]

module _ (reserved : Addr4 → Bool) (p : Pool) (off : ℕ) where
  candidate-off :
      (width h k : ℕ) → IsShape p width → (h + k) % 2 ^ width ≡ off → candidate p h k ≡ off
  candidate-off width h k s e =
      ap (bit_and (u32 (h + k))) s.mask
      ∙ bit_and_mask width (u32 (h + k))
      ∙ short_word p.prefix.bits width (h + k) s.below
      ∙ e

  -- A scan over all offsets finds one, where one is free.
  scan_free-some :
      (width h : ℕ)
      → IsShape p width
      → off ≤ p.max
      → IsFree reserved p off
      → scan_free reserved p h (p.max + 1) 0 ≡ none
      → ⊥
  scan_free-some width h s low free e =
      let positive : 1 ≤ 2 ^ width = one-le-pow width 2 (omega arith) in
      let mask : p.max ≡ 2 ^ width - 1 = s.mask in
      let (k, (inside, same)) = round_of (2 ^ width) h off (omega arith) in
      scan_free-none reserved p h (p.max + 1) 0 k e (omega arith) (omega arith)
        (subst (IsFree reserved p) (sym (candidate-off width h k s same)) free)

  assign_new_progress :
      (now : ℕ) (a : Addr6)
      → IsPool p
      → off ≤ p.max
      → IsFree reserved p off
      → (b : Addr4) × ((assign_new reserved p now a).0 ≡ some b)
  assign_new_progress now a h low free =
      elim (Option-cases (scan_free reserved p (hash6 p a) (p.max + 1) 0)) [
        | inl k ↦ absurd (scan_free-some h.width (hash6 p a) h.shape low free k)
        | inr (o, k) ↦
            ((take_free p now a o).0, ap (λ r. r.0) (assign_new-free reserved p now a o k))
      ]

-- In a pool with the invariant, if one offset from 1 on is within the mask, not used, and not at a
-- reserved address, lookup6 with allocation gives every host an IPv4 address.
pub pool_lookup6_progress :
    (reserved : Addr4 → Bool) (p : Pool) (off now : ℕ) (a : Addr6)
    → IsPool p
    → off ≤ p.max
    → IsFree reserved p off
    → (b : Addr4) × ((pool_lookup6 reserved p now a true).0 ≡ some b)
pool_lookup6_progress reserved p off now a h low free =
    elim (Option-cases (deref p (find6 a p.mapped))) [
      | inr (d, k) ↦ (d.addr4, ap (λ r. r.0) (lookup6_mapped reserved p now a true d k))
      | inl k ↦ elim (Option-cases (deref p (find6 a p.dormant))) [
        | inr (d, l) ↦ (d.addr4, ap (λ r. r.0) (lookup6_dormant reserved p now a d k l))
        | inl l ↦
            let (b, e) = assign_new_progress reserved p off now a h low free in
            (b, ap (λ r. r.0) (lookup6_new reserved p now a k l) ∙ e)
      ]
    ]
