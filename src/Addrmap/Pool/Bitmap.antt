-- ===== src/Addrmap/Pool/Bitmap.antt =====
-- The bitmap of the offsets in use.
use clatto.Base.{
  ℕ, zero, suc, ◌*◌, ◌/◌, ◌%◌, ◌^◌, ◌≤◌, ◌<◌, ◌≡◌, ◌==◌, ==_iff, refl, ap, sym, ◌∙◌, arith, true,
  false, not, Bool-cases, inl, inr, ◌⊎◌, List, [], ◌∷◌, get_or, set, length, length-set, bit_or,
  ◌-◌, bit_and, bit, and_one_bit, bit_or-same, bit_or-other, bit-clear, bit_clear-same, bit_of_zero,
  bit_of_one, bit-lt,
}
use native.Mathlib.Nat.{one-le-pow}
use clatto.Addrmap.Pool.{zeros, is_used, set_used, clear_used}

get_or-set_same : (u : List ℕ) (i v : ℕ) → i < length u → get_or (set u i v) i 0 ≡ v
get_or-set_same [] i v h = absurd (omega arith)
get_or-set_same (x ∷ u) zero v h = refl
get_or-set_same (x ∷ u) (suc i) v h = get_or-set_same u i v (omega arith)

get_or-set_other : (u : List ℕ) (i j v : ℕ) → ¬ (i ≡ j) → get_or (set u i v) j 0 ≡ get_or u j 0
get_or-set_other [] i j v h = refl
get_or-set_other (x ∷ u) zero zero v h = absurd (h refl)
get_or-set_other (x ∷ u) zero (suc j) v h = refl
get_or-set_other (x ∷ u) (suc i) zero v h = refl
get_or-set_other (x ∷ u) (suc i) (suc j) v h = get_or-set_other u i j v (λ e. h (ap suc e))

two_bits : (b m : ℕ) → b < 2 → ((b ≡ 0) × (b * m ≡ 0)) ⊎ ((b ≡ 1) × (b * m ≡ m))
two_bits b m h = ground arith

-- An offset is in use if its bit is set.
is_used-bit :
    (u : List ℕ) (off : ℕ) → is_used u off ≡ not (bit (off % 64) (get_or u (off / 64) 0) == 0)
unfolding is_used
is_used-bit u off =
    let w = get_or u (off / 64) 0 in
    let k = off % 64 in
    ground (arith, and_one_bit k w, one-le-pow k 2, bit-lt k w, two_bits (bit k w) (2 ^ k))

same_offset : (i j : ℕ) → i / 64 ≡ j / 64 → i % 64 ≡ j % 64 → i ≡ j
same_offset i j h k = omega arith

pub length-set_used : (u : List ℕ) (off : ℕ) → length (set_used u off) ≡ length u
unfolding set_used
length-set_used u off = length-set u (off / 64) _

pub length-clear_used : (u : List ℕ) (off : ℕ) → length (clear_used u off) ≡ length u
unfolding clear_used
length-clear_used u off = length-set u (off / 64) _

one_mul : (n : ℕ) → 1 * n ≡ n
one_mul n = omega arith

set_used-word :
    (u : List ℕ) (off : ℕ)
    → set_used u off ≡ set u (off / 64) (bit_or (get_or u (off / 64) 0) (2 ^ (off % 64)))
unfolding set_used
set_used-word u off =
    ap (λ m. set u (off / 64) (bit_or (get_or u (off / 64) 0) m)) (one_mul (2 ^ (off % 64)))

clear_used-word :
    (u : List ℕ) (off : ℕ)
    → clear_used u off
      ≡ set u (off / 64) (get_or u (off / 64) 0 - bit_and (get_or u (off / 64) 0) (2 ^ (off % 64)))
unfolding clear_used
clear_used-word u off =
    let w = get_or u (off / 64) 0 in
    ap (λ m. set u (off / 64) (w - bit_and w m)) (one_mul (2 ^ (off % 64)))

same_bit :
    (u v : List ℕ) (off : ℕ)
    → bit (off % 64) (get_or v (off / 64) 0) ≡ bit (off % 64) (get_or u (off / 64) 0)
    → is_used v off ≡ is_used u off
same_bit u v off e = is_used-bit v off ∙ ap (λ b. not (b == 0)) e ∙ sym (is_used-bit u off)

pub is_used-set_used :
    (u : List ℕ) (off : ℕ) → off / 64 < length u → is_used (set_used u off) off ≡ true
is_used-set_used u off h =
    let w = get_or u (off / 64) 0 in
    let k = off % 64 in
    let word = get_or-set_same u (off / 64) (bit_or w (2 ^ k)) h in
    rw (set_used-word u off) (
      is_used-bit (set u (off / 64) (bit_or w (2 ^ k))) off
      ∙ ap (λ b. not (b == 0)) (ap (bit k) word ∙ bit_or-same k w))

pub is_used-clear_used_same :
    (u : List ℕ) (off : ℕ) → off / 64 < length u → is_used (clear_used u off) off ≡ false
is_used-clear_used_same u off h =
    let w = get_or u (off / 64) 0 in
    let k = off % 64 in
    let word = get_or-set_same u (off / 64) (w - bit_and w (2 ^ k)) h in
    rw (clear_used-word u off) (
      is_used-bit (set u (off / 64) (w - bit_and w (2 ^ k))) off
      ∙ ap (λ b. not (b == 0)) (ap (bit k) word ∙ bit_clear-same k w))

-- The bit `k` of a word of the bitmap tells of an offset.
other_offset :
    (u v : List ℕ) (off other : ℕ)
    → (off / 64 ≡ other / 64
        → bit (other % 64) (get_or v (other / 64) 0) ≡ bit (other % 64) (get_or u (other / 64) 0))
    → (¬ (off / 64 ≡ other / 64) → get_or v (other / 64) 0 ≡ get_or u (other / 64) 0)
    → is_used v other ≡ is_used u other
other_offset u v off other same apart = elim (Bool-cases (off / 64 == other / 64)) [
  | inl k ↦ same_bit u v other (same ((==_iff _ _).0 k))
  | inr k ↦ same_bit u v other (ap (bit (other % 64)) (apart (λ q. ground (arith, q))))
]

pub is_used-set_used_other :
    (u : List ℕ) (off other : ℕ)
    → off / 64 < length u
    → ¬ (off ≡ other)
    → is_used (set_used u off) other ≡ is_used u other
is_used-set_used_other u off other l h =
    let w = get_or u (off / 64) 0 in
    let v = bit_or w (2 ^ (off % 64)) in
    rw (set_used-word u off) (
      other_offset u (set u (off / 64) v) off other
        (λ q.
          let word : get_or (set u (off / 64) v) (other / 64) 0 ≡ v =
            rw (sym q) (get_or-set_same u (off / 64) v l) in
          rw (word, sym q)
            (bit_or-other (other % 64) (off % 64) w (λ e. h (same_offset off other q (sym e)))))
        (get_or-set_other u (off / 64) (other / 64) v))

pub is_used-clear_used :
    (u : List ℕ) (off other : ℕ)
    → off / 64 < length u
    → ¬ (off ≡ other)
    → is_used (clear_used u off) other ≡ is_used u other
is_used-clear_used u off other l h =
    let w = get_or u (off / 64) 0 in
    let v = w - bit_and w (2 ^ (off % 64)) in
    rw (clear_used-word u off) (
      other_offset u (set u (off / 64) v) off other
        (λ q.
          let word : get_or (set u (off / 64) v) (other / 64) 0 ≡ v =
            rw (sym q) (get_or-set_same u (off / 64) v l) in
          rw (word, sym q)
            (bit-clear (other % 64) (off % 64) w (λ e. h (same_offset off other q (sym e)))))
        (get_or-set_other u (off / 64) (other / 64) v))

get_or-zeros : (n i : ℕ) → get_or (zeros n) i 0 ≡ 0
get_or-zeros zero i = refl
get_or-zeros (suc n) zero = refl
get_or-zeros (suc n) (suc i) = get_or-zeros n i

get_or-new : (n i : ℕ) → ¬ (i ≡ 0) → get_or (set (zeros n) 0 1) i 0 ≡ 0
get_or-new n i h = get_or-set_other (zeros n) 0 i 1 (λ e. h (sym e)) ∙ get_or-zeros n i

-- A bitmap whose word for an offset has not its bit.
not_used :
    (u : List ℕ) (off w : ℕ)
    → get_or u (off / 64) 0 ≡ w
    → bit (off % 64) w ≡ 0
    → is_used u off ≡ false
not_used u off w h k = is_used-bit u off ∙ ap (λ b. not (b == 0)) (ap (bit (off % 64)) h ∙ k)

other_new : (n off : ℕ) → ¬ (off ≡ 0) → is_used (set (zeros n) 0 1) off ≡ false
other_new n off h = elim (Bool-cases (off / 64 == 0)) [
  | inr k ↦
      not_used (set (zeros n) 0 1) off 0 (get_or-new n (off / 64) (λ e. ground (arith, e)))
        (bit_of_zero (off % 64))
  | inl k ↦
      let first : off / 64 ≡ 0 = (==_iff _ _).0 k in
      elim (zeros-cases n) [
        | inl e ↦ rw e (not_used [] off 0 refl (bit_of_zero (off % 64)))
        | inr (m, e) ↦ rw e (
            not_used (1 ∷ zeros m) off 1 (rw first refl)
              (bit_of_one (off % 64) (λ q. h (omega (arith, first, q)))))
      ]
]
  where
    zeros-cases : (n : ℕ) → (zeros n ≡ []) ⊎ ((m : ℕ) × (zeros n ≡ 0 ∷ zeros m))
    zeros-cases zero = inl refl
    zeros-cases (suc m) = inr (m, refl)

-- A new bitmap has the offset 0 in use, and no other.
pub is_used-new : (n off : ℕ) → is_used (set (zeros n) 0 1) off ≡ true → off ≡ 0
is_used-new n off h = elim (Bool-cases (off == 0)) [
  | inl k ↦ (==_iff off 0).0 k
  | inr k ↦
      let free = other_new n off (λ e. ground (arith, k, e)) in absurd (ground (arith, free, h))
]

pub is_used-new_first : (n : ℕ) → 1 ≤ n → is_used (set (zeros n) 0 1) 0 ≡ true
unfolding is_used
is_used-new_first (suc n) h = refl
is_used-new_first zero h = absurd (omega arith)
