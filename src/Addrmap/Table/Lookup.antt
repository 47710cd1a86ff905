-- ===== src/Addrmap/Table/Lookup.antt =====
-- Longest prefix match: the order that `Build` gives the IPv4 nets, and what a lookup finds in it.
use clatto.Base.{
  ℕ, ◌+◌, ap, subst, ◌≤◌, ◌≡◌, ◌∙◌, arith, true, Bool-cases, Result-cases, inl, inr, List, [], ◌∷◌,
  ◌++◌, some, All, ok, err,
}
use clatto.Netip.{Addr, contains}
use clatto.Addrmap.Entry.{Entry, Builder}
use clatto.Addrmap.Build.{
  Table, Sides, build, place_all, check_pool, place6, put6, len4, len6, sort_by, empty_table,
}
use clatto.Addrmap.Build.Order.{IsSorted, sort_by-IsSorted, place_all-IsSorted}
use clatto.Addrmap.Table.{find_net4}

put6-nets4 : (t : Table) (e : Entry) → (put6 t e).nets4 ≡ t.nets4
unfolding put6
put6-nets4 t e = ground arith

place6-nets4 :
    (t u : Table) (before es : List Entry) → place6 t before es ≡ ok u → u.nets4 ≡ t.nets4
unfolding place6
place6-nets4 t u before [] h = ground arith
place6-nets4 t u before (e ∷ es) h =
    ground (arith, put6-nets4 t e, place6-nets4 (put6 t e) u (before ++ e ∷ []) es)

check_pool-nets4 : (t u : Table) → check_pool t ≡ ok u → u.nets4 ≡ t.nets4
unfolding check_pool
check_pool-nets4 t u h = ground arith

All-map :
    {P Q : Entry → Type 0} → ((o : Entry) → P o → Q o) → (es : List Entry) → All P es → All Q es
All-map f [] a = tt
All-map f (e ∷ es) a = (f e a.0, All-map f es a.1)

-- Some length is enough for all entries of a list.
longest : (es : List Entry) → (n : ℕ) × All (λ o. len4 o ≤ n) es
longest [] = (0, tt)
longest (e ∷ es) =
    let (n, bound) = longest es in
    (len4 e + n, (omega arith, All-map (λ o (h : len4 o ≤ n). omega arith) es bound))

build-nets4 :
    (b : Builder) (t : Table)
    → build b ≡ ok t
    → (s : Sides) × (place_all (record { table = empty_table b; v6s = [] }) (sort_by len4 b.entries)
        ≡ ok s)
      × (t.nets4 ≡ s.table.nets4)
unfolding build
build-nets4 b t h =
    elim (Result-cases
      (place_all (record { table = empty_table b; v6s = [] }) (sort_by len4 b.entries))) [
        | inr (x, k) ↦ let absurdity : err x ≡ ok t = rw k at h in cc
        | inl (s, k) ↦ elim (Result-cases (check_pool s.table)) [
          | inr (x, l) ↦ let absurdity : err x ≡ ok t = rw (k, l) at h in cc
          | inl (u, l) ↦ (
            s,
            k,
            place6-nets4 u t [] (sort_by len6 s.v6s) (rw (k, l) at h)
                ∙ check_pool-nets4 s.table u l,
          )
        ]
      ]

-- The IPv4 nets of a table that `Build` returns are sorted by their length, the longest first.
pub build-IsSorted : (b : Builder) (t : Table) → build b ≡ ok t → IsSorted len4 t.nets4
build-IsSorted b t h =
    let (s, k, q) = build-nets4 b t h in
    let (n, bound) = longest (sort_by len4 b.entries) in
    rw q (
      place_all-IsSorted (record { table = empty_table b; v6s = [] }) s n (sort_by len4 b.entries)
        tt tt bound (sort_by-IsSorted len4 b.entries) k)

-- Among sorted nets, the first match is a longest.
find_net4-longest :
    (a : Addr) (es : List Entry) (e : Entry)
    → IsSorted len4 es
    → find_net4 a es ≡ some e
    → (contains e.net4 a ≡ true) × All (λ o. contains o.net4 a ≡ true → len4 o ≤ len4 e) es
unfolding find_net4
find_net4-longest a [] e s h = ground arith
find_net4-longest a (o ∷ es) e s h = elim (Bool-cases (contains o.net4 a)) [
  | inl k ↦
      let same : some o ≡ some e = rw k at h in
      let found : o ≡ e = ground arith in
      let same_len : len4 o ≡ len4 e = ap len4 found in
      (
        subst (λ x. contains x.net4 a ≡ true) found k,
        (
          λ _. omega arith,
          All-map {Q = λ x. contains x.net4 a ≡ true → len4 x ≤ len4 e}
              (λ x (le : len4 x ≤ len4 o) _. omega arith) es s.0,
        ),
      )
  | inr k ↦
      let (hit, rest) = find_net4-longest a es e s.1 (rw k at h) in
      (hit, (λ (yes : contains o.net4 a ≡ true). ground arith, rest))
]

-- In a table that `Build` returns, the net that an IPv4 address is looked up to contains the address,
-- and no net of the table that contains it is longer.
pub find_net4-build :
    (b : Builder) (t : Table) (a : Addr) (e : Entry)
    → build b ≡ ok t
    → find_net4 a t.nets4 ≡ some e
    → (contains e.net4 a ≡ true) × All (λ o. contains o.net4 a ≡ true → len4 o ≤ len4 e) t.nets4
find_net4-build b t a e h f = find_net4-longest a t.nets4 e (build-IsSorted b t h) f
