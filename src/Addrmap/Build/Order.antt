-- ===== src/Addrmap/Build/Order.antt =====
-- Longest prefix first: the order of the nets, and what it makes of a lookup.
use clatto.Base.{
  ℕ, ◌≤◌, ◌≡◌, ◌⊎◌, Result-cases, refl, arith, leb, Bool-cases, inl, inr, List, [], ◌∷◌, ◌++◌, All,
  All-append, ok, err, leb_iff,
}
use native.Mathlib.Nat.{le_refl}
use clatto.Addrmap.Entry.{Entry, EntryKind}
use clatto.Addrmap.Build.{Sides, insert_sorted, sort_by, place, place_static, place_all, len4}

-- Every entry is at least as long as those behind it.
abbrev pub IsSorted : (Entry → ℕ) → List Entry → Type 0
IsSorted len [] = Unit {0}
IsSorted len (e ∷ es) = All (λ o. len o ≤ len e) es × IsSorted len es

module _ (len : Entry → ℕ) where
  All-le_trans :
      (m n : ℕ) (es : List Entry) → m ≤ n → All (λ o. len o ≤ m) es → All (λ o. len o ≤ n) es
  All-le_trans m n [] h a = tt
  All-le_trans m n (e ∷ es) h a = (omega arith, All-le_trans m n es h a.1)

  insert_sorted-All :
      (n : ℕ) (e : Entry) (es : List Entry)
      → len e ≤ n
      → All (λ o. len o ≤ n) es
      → All (λ o. len o ≤ n) (insert_sorted len e es)
  unfolding insert_sorted
  insert_sorted-All n e [] h a = (h, tt)
  insert_sorted-All n e (o ∷ es) h a = elim (Bool-cases (leb (len o) (len e))) [
    | inl k ↦ rw k (h, a)
    | inr k ↦ rw k (a.0, insert_sorted-All n e es h a.1)
  ]

  insert_sorted-IsSorted :
      (e : Entry) (es : List Entry) → IsSorted len es → IsSorted len (insert_sorted len e es)
  unfolding insert_sorted
  insert_sorted-IsSorted e [] s = (tt, tt)
  insert_sorted-IsSorted e (o ∷ es) s = elim (Bool-cases (leb (len o) (len e))) [
    | inl k ↦ rw k (((leb_iff _ _).0 k, All-le_trans (len o) (len e) es ((leb_iff _ _).0 k) s.0), s)
    | inr k ↦
        rw k (insert_sorted-All (len o) e es (ground arith) s.0, insert_sorted-IsSorted e es s.1)
  ]

  pub sort_by-IsSorted : (es : List Entry) → IsSorted len (sort_by len es)
  unfolding sort_by
  sort_by-IsSorted [] = tt
  sort_by-IsSorted (e ∷ es) = insert_sorted-IsSorted e (sort_by len es) (sort_by-IsSorted es)

  pub IsSorted-append :
      (xs : List Entry) (e : Entry)
      → IsSorted len xs
      → All (λ o. len e ≤ len o) xs
      → IsSorted len (xs ++ e ∷ [])
  IsSorted-append [] e s a = (tt, tt)
  IsSorted-append (x ∷ xs) e s a =
      (All-append (λ o. len o ≤ len x) xs (e ∷ []) s.0 (a.0, tt), IsSorted-append xs e s.1 a.1)

place-nets4 :
    (s s' : Sides) (e : Entry) (k : EntryKind)
    → e.kind ≡ k
    → place s e ≡ ok s'
    → (s'.table.nets4 ≡ s.table.nets4) ⊎ (s'.table.nets4 ≡ s.table.nets4 ++ e ∷ [])
unfolding place place_static
place-nets4 s s' e EntryKind.static q h = ground arith
place-nets4 s s' e _ q h = ground arith

All-ge_trans :
    (m n : ℕ) (es : List Entry) → m ≤ n → All (λ o. n ≤ len4 o) es → All (λ o. m ≤ len4 o) es
All-ge_trans m n [] h a = tt
All-ge_trans m n (e ∷ es) h a = (omega arith, All-ge_trans m n es h a.1)

-- With entries that come longest first, the IPv4 nets stay longest first.
pub place_all-IsSorted :
    (s s' : Sides) (n : ℕ) (es : List Entry)
    → IsSorted len4 s.table.nets4
    → All (λ o. n ≤ len4 o) s.table.nets4
    → All (λ o. len4 o ≤ n) es
    → IsSorted len4 es
    → place_all s es ≡ ok s'
    → IsSorted len4 s'.table.nets4
unfolding place_all
place_all-IsSorted s s' n [] sorted low high rest h = ground (arith, sorted)
place_all-IsSorted s s' n (e ∷ es) sorted low high rest h = elim (Result-cases (place s e)) [
  | inl (mid, k) ↦
      let rest_ok : place_all mid es ≡ ok s' = rw k at h in
      let low' = All-ge_trans (len4 e) n s.table.nets4 high.0 low in
      elim (place-nets4 s mid e e.kind refl k) [
        | inl q ↦
            place_all-IsSorted mid s' (len4 e) es (rw q sorted) (rw q low') rest.0 rest.1 rest_ok
        | inr q ↦
            place_all-IsSorted mid s' (len4 e) es
              (rw q (IsSorted-append len4 s.table.nets4 e sorted low'))
              (rw q (All-append (λ o. len4 e ≤ len4 o) s.table.nets4 (e ∷ []) low' (le_refl _, tt)))
              rest.0 rest.1 rest_ok
      ]
  | inr (x, k) ↦ let absurdity : err x ≡ ok s' = rw k at h in cc
]
