-- ===== src/Addrmap/Build/Overlap.antt =====
-- The IPv6 side of a table: no two entries overlap.
use clatto.Base.{
  ◌≡◌, ◌↔◌, refl, true, false, Bool-cases, inl, inr, List, [], ◌∷◌, ◌++◌, All, ok, err,
}
use clatto.Netip.{overlaps}
use clatto.Addrmap.Entry.{Entry}
use clatto.Addrmap.Build.{Table, BuildError, place6, put6, any_overlap}

abbrev pub Apart : Entry → Entry → Type 0
Apart o e = overlaps o.net6 e.net6 ≡ false

-- Every entry is apart from those before it.
abbrev pub AllApart : List Entry → List Entry → Type 0
AllApart before [] = Unit {0}
AllApart before (e ∷ es) = All (λ o. Apart o e) before × AllApart (before ++ e ∷ []) es

any_overlap-All : (e : Entry) (es : List Entry) → any_overlap e es ≡ false → All (λ o. Apart o e) es
unfolding any_overlap
any_overlap-All e [] h = tt
any_overlap-All e (o ∷ es) h = elim (Bool-cases (overlaps o.net6 e.net6)) [
  | inl k ↦ let absurdity : true ≡ false = rw k at h in cc
  | inr k ↦ (k, any_overlap-All e es (rw k at h))
]

any_overlap-false :
    (e : Entry) (es : List Entry) → All (λ o. Apart o e) es → any_overlap e es ≡ false
unfolding any_overlap
any_overlap-false e [] a = refl
any_overlap-false e (o ∷ es) a = rw a.0 (any_overlap-false e es a.1)

place6_sound :
    (t u : Table) (before es : List Entry) → place6 t before es ≡ ok u → AllApart before es
unfolding place6
place6_sound t u before [] h = tt
place6_sound t u before (e ∷ es) h = elim (Bool-cases (any_overlap e before)) [
  | inl k ↦ let absurdity : err BuildError.overlapping ≡ ok u = rw k at h in cc
  | inr k ↦
      (any_overlap-All e before k, place6_sound (put6 t e) u (before ++ e ∷ []) es (rw k at h))
]

place6_complete :
    (t : Table) (before es : List Entry)
    → AllApart before es
    → (u : Table) × (place6 t before es ≡ ok u)
unfolding place6
place6_complete t before [] a = (t, refl)
place6_complete t before (e ∷ es) a =
    let (u, rest) = place6_complete (put6 t e) (before ++ e ∷ []) es a.1 in
    (u, rw (any_overlap-false e before a.0) rest)

-- The loop of `Build` over the IPv6 side succeeds exactly where no entry's IPv6 prefix overlaps that
-- of an entry before it.
pub place6_iff :
    (t : Table) (before es : List Entry)
    → ((u : Table) × (place6 t before es ≡ ok u)) ↔ AllApart before es
place6_iff t before es = (λ h. place6_sound t h.0 before es h.1, λ a. place6_complete t before es a)
