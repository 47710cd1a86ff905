-- ===== src/Addrmap/Table/Unallocated.antt =====
-- A lookup that may not allocate leaves the assignments alone.
use clatto.Base.{ℕ, ◌≡◌, refl, arith, Bool, false, inl, inr, some, none, Option-cases}
use clatto.Netutil.{Addr4, Addr6}
use clatto.Netip.{Addr, as16}
use clatto.Addrmap.Entry.{Entry, EntryKind}
use clatto.Addrmap.Pool.{Pool, deref, find6}
use clatto.Addrmap.Pool.Assign.{pool_lookup6}
use clatto.Addrmap.Table.{Mapper, lookup6, from_pool6, is_reserved, map_ipv6_to_ipv4}

-- Only the times of use may differ.
pub record SameLeases (p q : Pool) : Type 0 where
  pub same_used : q.used ≡ p.used
  pub same_mapped : q.mapped ≡ p.mapped
  pub same_dormant : q.dormant ≡ p.dormant
  pub same_dirty : q.dirty ≡ p.dirty

pool_lookup6-SameLeases :
    (reserved : Addr4 → Bool) (p : Pool) (now : ℕ) (a : Addr6)
    → SameLeases p (pool_lookup6 reserved p now a false).1
unfolding pool_lookup6
pool_lookup6-SameLeases reserved p now a = elim (Option-cases (deref p (find6 a p.mapped))) [
  | inl k ↦ ground (arith, k)
  | inr (d, k) ↦ ground (arith, k)
]

from_pool6-SameLeases : (m : Mapper) (a : Addr6) → SameLeases m.pool (from_pool6 m a false).1.pool
unfolding from_pool6
from_pool6-SameLeases m a =
    ground (arith, pool_lookup6-SameLeases (is_reserved m.table) m.pool m.now a)

of_kind :
    (m : Mapper) (a : Addr) (e : Entry) (k : EntryKind)
    → lookup6 m.table a ≡ some e
    → e.kind ≡ k
    → (map_ipv6_to_ipv4 m a false).1 ≡ m
unfolding map_ipv6_to_ipv4
of_kind m a e EntryKind.static l q = ground (arith, l, q)
of_kind m a e EntryKind.rfc6052 l q = ground (arith, l, q)
of_kind m a e EntryKind.dynamic_pool l q = ground (arith, l, q)
of_kind m a e EntryKind.dynamic_host l q = ground (arith, l, q)

through_pool :
    (m : Mapper) (a : Addr)
    → lookup6 m.table a ≡ none
    → (map_ipv6_to_ipv4 m a false).1 ≡ (from_pool6 m (as16 a) false).1
unfolding map_ipv6_to_ipv4
through_pool m a l = ground (arith, l)

-- A mapping from IPv6 to IPv4 that may not allocate leaves the bitmap, the mapped and the dormant
-- hosts and the mark for the state file as they were, whatever the table and the pool.
pub map_ipv6_to_ipv4-SameLeases :
    (m : Mapper) (a : Addr) → SameLeases m.pool (map_ipv6_to_ipv4 m a false).1.pool
map_ipv6_to_ipv4-SameLeases m a = elim (Option-cases (lookup6 m.table a)) [
  | inl l ↦ rw (through_pool m a l) (from_pool6-SameLeases m (as16 a))
  | inr (e, l) ↦
      rw (of_kind m a e e.kind l refl)
        record { same_used = refl; same_mapped = refl; same_dormant = refl; same_dirty = refl }
]
