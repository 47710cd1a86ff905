-- ===== src/Addrmap/Table/Reserved.antt =====
-- The addresses that a pool keeps from its hosts.
use clatto.Base.{ℕ, ◌≡◌, ◌⊎◌, arith, true, false, not, some, Option-cases, inl, inr}
use clatto.Netutil.{Addr4, Addr6}
use clatto.Netip.{v4}
use clatto.Addrmap.Entry.{Entry, eq_entry}
use clatto.Addrmap.Build.{Table}
use clatto.Addrmap.Pool.{Pool, DynHost, find_off}
use clatto.Addrmap.Pool.Assign.{assign_new}
use clatto.Addrmap.Pool.Leases.{assign_new-IsFree}
use clatto.Addrmap.Table.{lookup4, is_reserved}

is_reserved-found :
    (t : Table) (b : Addr4) (p : Entry)
    → is_reserved t b ≡ false
    → t.pool_entry ≡ some p
    → (e : Entry) × ((lookup4 t (v4 b) ≡ some e) × (eq_entry e p ≡ true))
unfolding is_reserved
is_reserved-found t b p h k = elim (Option-cases (lookup4 t (v4 b))) [
  | inl l ↦ absurd (ground (arith, rw (is_reserved, l, k) at h))
  | inr (e, l) ↦
      let kept : not (eq_entry e p) ≡ false = rw (is_reserved, l, k) at h in
      (e, (l, ground (arith, kept)))
]

-- With a pool in the table, an address that the scan, or the reuse of a dormant assignment, gives a
-- host is one that the table looks up to the entry of the pool, so none of a static mapping or of
-- the translator itself, or else it is the address of an assignment that the pool already had.
pub assign_new-is_reserved :
    (t : Table) (entry : Entry) (p : Pool) (now : ℕ) (a : Addr6) (b : Addr4)
    → t.pool_entry ≡ some entry
    → (assign_new (is_reserved t) p now a).0 ≡ some b
    → ((e : Entry) × ((lookup4 t (v4 b) ≡ some e) × (eq_entry e entry ≡ true)))
      ⊎ ((d : DynHost) × ((find_off d.off p.by4 ≡ some d) × (b ≡ d.addr4)))
assign_new-is_reserved t entry p now a b k h =
    elim (assign_new-IsFree (is_reserved t) p now a b h) [
      | inl (off, (free, q)) ↦ inl (is_reserved-found t b entry (rw q free.allowed) k)
      | inr found ↦ inr found
    ]
