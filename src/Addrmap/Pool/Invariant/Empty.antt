-- ===== src/Addrmap/Pool/Invariant/Empty.antt =====
-- A new pool has the invariant.
use clatto.Base.{
  ℕ, zero, suc, ◌≡◌, ◌+◌, ◌-◌, ◌*◌, ◌/◌, ◌%◌, ◌^◌, ◌≤◌, ◌<◌, refl, ap, sym, ◌∙◌, subst, arith, Bool,
  true, false, inl, [], set, length, length-set, ok, some,
}
use Prim.Native.Nat.add
use native.Mathlib.Nat.{
  zero-add, one-le-pow, pow-suc, div-eq_of_lt-le, lt_of_mul-lt-mul_right, mod-add-div',
}
use clatto.Netutil.{Addr4, Addr6}
use clatto.Netip.{v4, num4, Prefix, is_masked}
use clatto.Addrmap.Pool.Bitmap.{is_used-new, is_used-new_first}
use clatto.Addrmap.Pool.{Pool, zeros, is_used, new_pool, find6, find_off}
use clatto.Addrmap.Pool.Maps.{Distinct, Distinct-nil}
use clatto.Addrmap.Pool.Invariant.{IsPool, side}

-- The components of an IPv4 address are bytes.
abbrev pub IsAddr4 : Addr4 → Type 0
IsAddr4 a = (a.0 < 256) × ((a.1 < 256) × ((a.2 < 256) × (a.3 < 256)))

length-zeros : (n : ℕ) → length (zeros n) ≡ n
length-zeros zero = refl
length-zeros (suc n) = ap suc (length-zeros n)

two_powers : (a b : ℕ) → 2 ^ (a + b) ≡ 2 ^ a * 2 ^ b
two_powers zero b = rw zero-add (omega arith)
two_powers (suc a) b =
    rw add.suc (rw (pow-suc 2 (a + b), pow-suc 2 a, two_powers a b) (grind arith))

pub split_word : (b w : ℕ) → b + w ≡ 32 → 2 ^ b * 2 ^ w ≡ 4294967296
split_word b w h = sym (two_powers b w) ∙ ap (λ (n : ℕ). 2 ^ n) h

-- A number just below a product of positive factors, divided by one of them.
div_below : (q m n : ℕ) → 1 ≤ q → 1 ≤ m → m * q ≡ n → (n - 1) / m ≡ q - 1
div_below (suc q) m n h k e =
    let low : q * m ≤ n - 1 = grind arith in
    let high : n - 1 < (q + 1) * m = grind arith in
    let quotient : (n - 1) / m ≡ q = div-eq_of_lt-le m low high in omega (arith, quotient)
div_below zero m n h k e = absurd (omega arith)

-- `uint32(0xffffffff) >> bits` is the mask of the host bits.
host_mask : (b w : ℕ) → b + w ≡ 32 → 4294967295 / 2 ^ b ≡ 2 ^ w - 1
host_mask b w h =
    div_below (2 ^ w) (2 ^ b) 4294967296 (one-le-pow w 2 (omega arith))
      (one-le-pow b 2 (omega arith)) (split_word b w h)

-- A multiple of `2 ^ w` below `2 ^ 32` leaves room for the host bits.
below_product : (q m k n : ℕ) → q * m < n → k * m ≡ n → q * m + m ≤ n
below_product q m k n h e =
    let less : q < k = lt_of_mul-lt-mul_right m (subst (λ t. q * m < t) (sym e) h) in
    grind (arith, less)

room :
    (b w n : ℕ)
    → b + w ≡ 32
    → n < 4294967296
    → n % 2 ^ w ≡ 0
    → n / 2 ^ w * 2 ^ w + 2 ^ w ≤ 4294967296
room b w n h l m =
    below_product (n / 2 ^ w) (2 ^ w) (2 ^ b) 4294967296 (omega (arith, mod-add-div' n (2 ^ w)))
      (split_word b w h)

num4_bound : (a : Addr4) → IsAddr4 a → num4 a < 4294967296
num4_bound a h = omega arith

-- What `NewPool` has checked, and made.
record IsMade (n : Prefix) (net : Addr4) (q : Pool) : Type 0 where
  long : 8 ≤ n.bits
  short : n.bits ≤ 31
  masked : num4 net % 2 ^ (32 - n.bits) ≡ 0
  prefix : q.prefix ≡ n
  base : q.base ≡ num4 net
  mask : q.max ≡ 4294967295 / 2 ^ n.bits
  words : length q.used ≡ (q.max + 64) / 64
  by4 : q.by4 ≡ []
  mapped : q.mapped ≡ []
  dormant : q.dormant ≡ []
  bitmap : q.used ≡ set (zeros ((q.max + 64) / 64)) 0 1

new_pool-IsMade :
    (n : Prefix) (min_lease max_lease : ℕ) (net : Addr4) (q : Pool)
    → n.addr ≡ v4 net
    → new_pool n min_lease max_lease ≡ ok q
    → IsMade n net q
unfolding new_pool is_masked
new_pool-IsMade n min_lease max_lease net q e h = ground (
  arith,
  length-set (zeros ((4294967295 / 2 ^ n.bits + 1 + 63) / 64)) 0 1,
  length-zeros ((4294967295 / 2 ^ n.bits + 1 + 63) / 64),
)

nothing6 : (a : Addr6) (off : ℕ) → ¬ (find6 a [] ≡ some off)
unfolding find6
nothing6 a off h = ground arith

-- Nothing is found on the sides of a pool without entries.
empty_side : (p : Pool) (b : Bool) → p.mapped ≡ [] → p.dormant ≡ [] → side p b ≡ []
empty_side p true h k = k
empty_side p false h k = h

-- The pool that `NewPool` makes of an IPv4 prefix has the invariant.
pub new_pool-IsPool :
    (n : Prefix) (min_lease max_lease : ℕ) (net : Addr4) (q : Pool)
    → n.addr ≡ v4 net
    → IsAddr4 net
    → new_pool n min_lease max_lease ≡ ok q
    → IsPool q
unfolding find_off
new_pool-IsPool n min_lease max_lease net q e bytes h =
    let m = new_pool-IsMade n min_lease max_lease net q e h in
    let w = 32 - n.bits in
    let all : n.bits + w ≡ 32 = omega (arith, m.short) in
    let empty : (b : Bool) → side q b ≡ [] = λ b. empty_side q b m.mapped m.dormant in
    let nothing : (b : Bool) (a : Addr6) (off : ℕ) → ¬ (find6 a (side q b) ≡ some off) =
      λ b a off l. nothing6 a off (ap (find6 a) (sym (empty b)) ∙ l) in
    record {
      width = w;
      shape = record {
        net = net;
        of_net = ap (λ x. x.addr) m.prefix ∙ e;
        net_base = m.base;
        below = ap (λ x. x.bits + w) m.prefix ∙ all;
        quotient = num4 net / 2 ^ w;
        bound = room n.bits w (num4 net) all (num4_bound net bytes) m.masked;
        mask = m.mask ∙ host_mask n.bits w all;
        masked = m.base ∙ omega (arith, m.masked, mod-add-div' (num4 net) (2 ^ w));
        words = m.words;
      };
      distinct = λ b. subst Distinct (sym (empty b)) Distinct-nil;
      held = λ b a off l. absurd (nothing b a off l);
      single = λ b c a off other l k. absurd (nothing b a off l);
      placed = λ off d f. absurd (ground (arith, m.by4, f));
      first = ap (λ u. is_used u 0) m.bitmap ∙ is_used-new_first ((q.max + 64) / 64) (omega arith);
      backed = λ off k.
          inl (is_used-new ((q.max + 64) / 64) off (ap (λ u. is_used u off) (sym m.bitmap) ∙ k));
    }
