-- ===== src/Addrmap/Table.antt =====
-- internal/addrmap/table.go: lookups and the mapping of addresses.
pub mod Lookup
pub mod Entries
pub mod Unallocated
pub mod Reserved
pub mod Mapping
use clatto.Base.{
  ℕ, ◌+◌, ◌*◌, ◌/◌, ◌%◌, ◌^◌, ◌==◌, if◌then◌else◌, Bool, true, false, not, ◌&&◌, Option, none, some,
  List, [], ◌∷◌, bit_and, bit_or, u8, ◌>>>◌, Result, ok, err,
}
use clatto.Netutil.{
  Addr4, Addr6, Class4, valid, link_local, invalid, classify4, is_private4, embed, extract,
}
use clatto.Netip.{Addr, v4, v6, Prefix, as4, as16, num4, eq6, contains}
use clatto.Xlate.Translator.{MapError, rejected, dropped}
use clatto.Addrmap.Entry.{Entry, EntryKind, eq_entry}
use clatto.Addrmap.Pool.{Pool, pool_lookup4}
use clatto.Addrmap.Pool.Assign.{pool_lookup6}
use clatto.Addrmap.Build.{Table, find_host}

unfoldable pub find_net4 : Addr → List Entry → Option Entry
find_net4 a [] = none
find_net4 a (e ∷ es) = if contains e.net4 a then some e else find_net4 a es

unfoldable pub find_net6 : Addr → List Entry → Option Entry
find_net6 a [] = none
find_net6 a (e ∷ es) = if contains e.net6 a then some e else find_net6 a es

unfoldable pub lookup4 : Table → Addr → Option Entry
lookup4 t a = elim (find_host a t.hosts4) [ some e ↦ some e | none ↦ find_net4 a t.nets4 ]

unfoldable pub lookup6 : Table → Addr → Option Entry
lookup6 t a = elim (find_host a t.hosts6) [ some e ↦ some e | none ↦ find_net6 a t.nets6 ]

-- `IsWellKnownPrefix`: 64:ff9b::/96.
unfoldable pub is_well_known : Prefix → Bool
is_well_known p =
    p.bits == 96 && eq6 (as16 p.addr) (0, 0x64, 0xff, 0x9b, 0, 0, 0, 0, 0, 0, 0, 0, 0, 0, 0, 0)

abbrev pub is_valid4 : Addr4 → Bool
is_valid4 a = elim (classify4 a) [ valid ↦ true | _ ↦ false ]

-- A private address may not go through the well-known prefix.
abbrev pub is_forbidden : Table → Prefix → Addr4 → Bool
is_forbidden t p a = t.wkpf_strict && is_well_known p && is_private4 a

unfoldable pub embed_in : Table → Addr4 → Prefix → Result MapError Addr
embed_in t a p =
    if not (is_valid4 a)
    then err dropped
    else if is_forbidden t p a
    then err rejected
    else elim (embed (as16 p.addr) p.bits a) [ err _ ↦ err dropped | ok out ↦ ok (v6 out) ]

-- The host bits of an address, below a mask of 32 bits.
abbrev pub host_part : ℕ → ℕ → ℕ
host_part bits n = bit_and n (0xffffffff >>> bits)

unfoldable pub join_static6 : Entry → Addr4 → Addr
join_static6 e a =
    if e.net4.bits == 32
    then e.net6.addr
    else (let host = host_part e.net4.bits (num4 a) in
        let b = as16 e.net6.addr in
        v6 (
          b.0,
          b.1,
          b.2,
          b.3,
          b.4,
          b.5,
          b.6,
          b.7,
          b.8,
          b.9,
          b.10,
          b.11,
          bit_or b.12 (u8 (host >>> 24)),
          bit_or b.13 (u8 (host >>> 16)),
          bit_or b.14 (u8 (host >>> 8)),
          bit_or b.15 (u8 host),
        ))

unfoldable pub join_static4 : Entry → Addr6 → Addr
join_static4 e a =
    if e.net6.bits == 128
    then e.net4.addr
    else (let host = host_part e.net4.bits (num4 (a.12, a.13, a.14, a.15)) in
        let b = as4 e.net4.addr in
        v4 (
          bit_or b.0 (u8 (host >>> 24)),
          bit_or b.1 (u8 (host >>> 16)),
          bit_or b.2 (u8 (host >>> 8)),
          bit_or b.3 (u8 host),
        ))

-- The mapper's state: the table does not change, and the pool, if there is one, does. `now` is the
-- clock.
pub record Mapper : Type 0 where
  pub table : Table
  pub pool : Pool
  pub now : ℕ

-- `lookup4` of the pool, through the table's pointer.
abbrev pub from_pool4 : Mapper → Addr4 → Result MapError Addr × Mapper
from_pool4 m a =
    let r = pool_lookup4 m.pool m.now a in
    elim r.0 [
      | some b ↦ (ok (v6 b), record m { pool = r.1 })
      | none ↦ (err rejected, record m { pool = r.1 })
    ]

unfoldable pub map4 : Mapper → Addr4 → Entry → Result MapError Addr × Mapper
map4 m a e = elim e.kind [
  | EntryKind.static ↦ (ok (join_static6 e a), m)
  | EntryKind.rfc6052 ↦ (embed_in m.table a e.net6, m)
  | EntryKind.dynamic_pool ↦ from_pool4 m a
  | EntryKind.dynamic_host ↦ (err dropped, m)
]

unfoldable pub map_ipv4_to_ipv6 : Mapper → Addr → Result MapError Addr × Mapper
map_ipv4_to_ipv6 m a = elim (lookup4 m.table a) [
  | none ↦ (err rejected, m)
  | some e ↦ map4 m (as4 a) e
]

-- The addresses that the pool must not hand out: all that the table gives to another entry.
unfoldable pub is_reserved : Table → Addr4 → Bool
is_reserved t a = elim (lookup4 t (v4 a)) [
  | none ↦ elim t.pool_entry [ none ↦ false | some _ ↦ true ]
  | some e ↦ elim t.pool_entry [ none ↦ true | some p ↦ not (eq_entry e p) ]
]

unfoldable pub from_pool6 : Mapper → Addr6 → Bool → Result MapError Addr × Mapper
from_pool6 m a allocate =
    if not m.table.has_pool
    then (err rejected, m)
    else (let r = pool_lookup6 (is_reserved m.table) m.pool m.now a allocate in
        elim r.0 [
          | some b ↦ (ok (v4 b), record m { pool = r.1 })
          | none ↦ (err rejected, record m { pool = r.1 })
        ])

-- The IPv4 address in an address of the NAT64 prefix `e`, which must map back through it.
unfoldable pub extract_from : Table → Entry → Addr6 → Result MapError Addr
extract_from t e a = elim (extract a e.net6.bits) [
  | err _ ↦ err dropped
  | ok b ↦
      if not (is_valid4 b)
      then err dropped
      else if is_forbidden t e.net6 b
      then err rejected
      else elim (lookup4 t (v4 b)) [
        | none ↦ err dropped
        | some o ↦ if not (eq_entry o e) then err dropped else ok (v4 b)
      ]
]

unfoldable pub map_ipv6_to_ipv4 : Mapper → Addr → Bool → Result MapError Addr × Mapper
map_ipv6_to_ipv4 m a allocate = elim (lookup6 m.table a) [
  | none ↦ from_pool6 m (as16 a) allocate
  | some e ↦ elim e.kind [
    | EntryKind.static ↦ (ok (join_static4 e (as16 a)), m)
    | EntryKind.rfc6052 ↦ (extract_from m.table e (as16 a), m)
    | EntryKind.dynamic_pool ↦ (err dropped, m)
    | EntryKind.dynamic_host ↦ (err dropped, m)
  ]
]
