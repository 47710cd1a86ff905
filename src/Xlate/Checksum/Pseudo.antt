-- ===== src/Xlate/Checksum/Pseudo.antt =====
-- The pseudo-header sums, and the sums of the address words that an update replaces.
use clatto.Base.{
  ℕ, ◌+◌, ◌*◌, ◌%◌, ◌^◌, ◌≤◌, ◌<◌, ◌≡◌, refl, ap, subst, drop-drop, ◌∙◌, arith, [], ◌∷◌, ◌++◌,
  Bytes, IsBytes, IsByte, length, take, drop, slice, All-take, All-drop, take-add, take_all,
  length-take, length-drop,
}
use clatto.Xlate.Checksum.{sum16, pseudo4, pseudo6}
use clatto.Xlate.Checksum.Fold.{SameSum}
use clatto.Xlate.Checksum.Sums.{word_sum, sum16_lem}

word_sum-append :
    (xs ys : Bytes) → length xs % 2 ≡ 0 → word_sum (xs ++ ys) ≡ word_sum xs + word_sum ys
word_sum-append [] ys e = omega arith
word_sum-append (x ∷ []) ys e = absurd (omega arith)
word_sum-append (x ∷ y ∷ xs) ys e = omega (arith, word_sum-append xs ys (omega arith))

-- A slice of an even number of bytes is the slices of its halves.
word_sum-split :
    (m n : ℕ) (xs : Bytes)
    → m % 2 ≡ 0
    → m ≤ length xs
    → word_sum (take (m + n) xs) ≡ word_sum (take m xs) + word_sum (take n (drop m xs))
word_sum-split m n xs e l =
    ap word_sum (take-add m n xs)
    ∙ word_sum-append (take m xs) (take n (drop m xs)) (omega (arith, length-take m xs))

-- `sum16` of a slice of at most 40 bytes.
record SliceSum (b : Bytes) (s : ℕ) : Type 0 where
  same : SameSum (word_sum b) s
  small : s ≤ 40 * 2 ^ 30

sum16-SliceSum : (b : Bytes) → IsBytes b → length b ≤ 40 → SliceSum b (sum16 b 0)
sum16-SliceSum b h l =
    let (same, small) = sum16_lem b 0 h (omega arith) in
    record {
      same = subst (λ n. SameSum n (sum16 b 0)) (omega arith) same;
      small = omega (arith, small);
    }

slice-IsBytes : (i j : ℕ) (b : Bytes) → IsBytes b → IsBytes (slice i j b)
slice-IsBytes i j b h = All-take IsByte _ _ (All-drop IsByte i b h)

length-slice : (i n : ℕ) (b : Bytes) → i + n ≤ length b → length (take n (drop i b)) ≡ n
length-slice i n b l = omega (arith, length-take n (drop i b), length-drop i b)

-- What the sums of two adjacent slices of `m` bytes have to do with the sum of both.
record Halves (whole first second : ℕ) : Type 0 where
  same : SameSum whole (first + second)
  whole_small : whole ≤ 40 * 2 ^ 30
  first_small : first ≤ 40 * 2 ^ 30
  second_small : second ≤ 40 * 2 ^ 30

sum16-Halves :
    (i m : ℕ) (b : Bytes)
    → IsBytes b
    → m % 2 ≡ 0
    → m + m ≤ 40
    → i + (m + m) ≤ length b
    → Halves
        (sum16 (take (m + m) (drop i b)) 0)
        (sum16 (take m (drop i b)) 0)
        (sum16 (take m (drop (i + m) b)) 0)
sum16-Halves i m b h e s l =
    let w =
      sum16-SliceSum (take (m + m) (drop i b)) (All-take IsByte _ _ (All-drop IsByte i b h))
        (omega (arith, length-slice i (m + m) b l)) in
    let x =
      sum16-SliceSum (take m (drop i b)) (All-take IsByte _ _ (All-drop IsByte i b h))
        (omega (arith, length-slice i m b (omega arith))) in
    let y =
      sum16-SliceSum (take m (drop (i + m) b)) (All-take IsByte _ _ (All-drop IsByte (i + m) b h))
        (omega (arith, length-slice (i + m) m b (omega arith))) in
    let split : word_sum (take (m + m) (drop i b))
        ≡ word_sum (take m (drop i b)) + word_sum (take m (drop (i + m) b)) =
      rw (← drop-drop i m b) (word_sum-split m m (drop i b) e (omega (arith, length-drop i b))) in
    record {
      same = ground (arith, w.same, x.same, y.same, split);
      whole_small = w.small;
      first_small = x.small;
      second_small = y.small;
    }

-- A pseudo-header sum against the sum of both addresses taken at once.
pub record Pseudo (addresses common pseudo : ℕ) : Type 0 where
  pub same : SameSum (addresses + common) pseudo
  pub addresses_small : addresses ≤ 40 * 2 ^ 30
  pub pseudo_small : pseudo ≤ 81 * 2 ^ 30

Halves-Pseudo : (w x y c p : ℕ) → Halves w x y → c < 2 ^ 20 → p ≡ x + y + c → Pseudo w c p
Halves-Pseudo w x y c p s k e = record {
  same = ground (arith, s.same);
  addresses_small = s.whole_small;
  pseudo_small = omega (arith, s.first_small, s.second_small);
}

-- A slice of `n` bytes, cut to `n` bytes again.
take-slice :
    (n i : ℕ) (b : Bytes) → i + n ≤ length b → take n (take n (drop i b)) ≡ take n (drop i b)
take-slice n i b l = take_all n (take n (drop i b)) (omega (arith, length-slice i n b l))

pub pseudo4-Pseudo :
    (b : Bytes) (len proto : ℕ)
    → IsBytes b
    → 20 ≤ length b
    → len < 65536
    → proto < 256
    → Pseudo
        (sum16 (slice 12 20 b) 0)
        (len + proto)
        (pseudo4 (slice 12 16 b) (slice 16 20 b) len proto)
unfolding pseudo4
pseudo4-Pseudo b len proto h l hl hp =
    let s = sum16-Halves 12 4 b h refl (omega arith) l in
    rw (take-slice 4 12 b (omega arith), take-slice 4 16 b (omega arith))
      (Halves-Pseudo _ _ _ (len + proto) _ s (omega arith)
        (omega (arith, s.first_small, s.second_small)))

pub pseudo6-Pseudo :
    (b : Bytes) (len proto : ℕ)
    → IsBytes b
    → 40 ≤ length b
    → len < 65536
    → proto < 256
    → Pseudo
        (sum16 (slice 8 40 b) 0)
        (len + proto)
        (pseudo6 (slice 8 24 b) (slice 24 40 b) len proto)
unfolding pseudo6
pseudo6-Pseudo b len proto h l hl hp =
    let s = sum16-Halves 8 16 b h refl (omega arith) l in
    rw (take-slice 16 8 b (omega arith), take-slice 16 24 b (omega arith))
      (Halves-Pseudo _ _ _ (len + proto) _ s (omega arith)
        (omega (arith, s.first_small, s.second_small)))
